-- ===== src/Streams/Tests.antt =====
-- A stream of a run that has failed.
use mathlib.Core.List.{Memᴰ}
use ai_powered_codebase_engi.Prelude.{ℕ, ◌≡◌, refl, true, false, drop}
use ai_powered_codebase_engi.Prelude.Result.{ok}
use ai_powered_codebase_engi.Sql.{select_where, order_by, insert_by, find, update_where}
use ai_powered_codebase_engi.Runs.Events.{events_of, append_state, events_after}
use ai_powered_codebase_engi.Runs.Service
use ai_powered_codebase_engi.Runs.Service.{owns_run, run_or_not_found, new_run}
use ai_powered_codebase_engi.Runs.Final.{Extends-same}
use ai_powered_codebase_engi.Runs.Tests.{broken, failed_run, broken-AreSound}
use ai_powered_codebase_engi.Streams.Model.{
  Poll, page, frames, frames_from, has_ended, respond, page_of, preview_frames,
}
use ai_powered_codebase_engi.Streams.Polling.{IsPrefix, frames-IsPrefix, sent, log}
use ai_powered_codebase_engi.Streams.Ending.{has_end, frames_complete}

abbrev polls : ℕ → Poll
polls tick = record { disconnected = false; authenticated = ok 1; now = 50; db = broken }

frames-IsPrefix_example : IsPrefix (sent (frames true 40 1 polls)) (drop 1 (log broken 40))
frames-IsPrefix_example =
    frames-IsPrefix broken 40 true polls (λ t. (broken-AreSound, Extends-same broken broken refl)) 1

ends : has_end (frames true 40 1 polls) ≡ true
unfolding frames frames_from page has_ended Service.owned owns_run run_or_not_found select_where
    events_of append_state events_after order_by insert_by find update_where new_run respond page_of
    preview_frames has_end
ends = refl

frames_complete_example : sent (frames true 40 1 polls) ≡ drop 1 (log broken 40)
unfolding append_state find new_run update_where
frames_complete_example =
    frames_complete broken 40 broken-AreSound failed_run (Memᴰ.head refl) refl true polls
      (λ t. (broken-AreSound, Extends-same broken broken refl)) 1 ends
