-- ===== src/Streams/Model.antt =====
-- `page` and `frames` of services/run_stream.py. Authentication is a parameter of each poll; an
-- exception that is no `AppError` is left out.
use ai_powered_codebase_engi.Prelude.{
  ℕ, zero, suc, ◌%◌, ◌&&◌, ◌||◌, not, String, Bool, true, false, Option, none, some, List, [], ◌∷◌,
  ◌++◌, map, ltb, ◌==◌, any, after, if◌then◌else◌, same_text,
}
use ai_powered_codebase_engi.Prelude.Result.{
  AppError, Result, ok, err, app_error, raise_if, ◌>>=◌, ◌>>◌,
}
use ai_powered_codebase_engi.Runs.Model.{Text, is_terminal, is_running, AnswerRun, RunEvent, Db}
use ai_powered_codebase_engi.Runs.Events.{events_of, max_sequence, events_after}
use ai_powered_codebase_engi.Runs.Service

pub record AnswerPreview : Type 0 where
  pub revision : ℕ
  pub text : Text

pub record EventPage : Type 0 where
  pub user_id : ℕ
  pub events : List RunEvent
  pub terminal : Bool
  pub preview : AnswerPreview

unfoldable pub has_ended : AnswerRun → List RunEvent → Bool
has_ended run events = is_terminal run.status || any (λ (e : RunEvent). is_terminal e.status) events

unfoldable pub is_live : ℕ → Bool → AnswerRun → Bool
is_live now terminal run = not terminal && (is_running run.status && after run.lease_expires_at now)

unfoldable pub page_of : ℕ → ℕ → AnswerRun → List RunEvent → EventPage
unfolding has_ended is_live
page_of user_id now run events = record {
  user_id = user_id;
  events = events;
  terminal = has_ended run events;
  preview = record {
    revision = run.preview_revision;
    text = if is_live now (has_ended run events) run then run.preview_text else [];
  };
}

-- `page`
unfoldable pub page : Result ℕ → ℕ → ℕ → ℕ → Db → Result EventPage
unfolding page_of
page authenticated run_id cursor now db = do
  user_id ← authenticated
  run ← Service.owned user_id run_id db
  raise_if (ltb (max_sequence (events_of run_id db.events)) cursor)
      (app_error "event_cursor_invalid" 409)
  ok (page_of user_id now run (events_after run_id cursor db))

-- What the client is sent
pub data Frame : Type 0 where
  run_status : RunEvent → Frame
  answer_preview : ℕ → Text → Frame
  stream_end keep_alive stream_reconnect : Frame
  stream_error : String → Frame

-- What one poll meets.
pub record Poll : Type 0 where
  pub disconnected : Bool
  pub authenticated : Result ℕ
  pub now : ℕ
  pub db : Db

same_preview : AnswerPreview → Option AnswerPreview → Bool
same_preview p none = false
same_preview p (some q) = p.revision == q.revision && same_text p.text q.text

unfoldable pub preview_frames : Bool → Option AnswerPreview → AnswerPreview → List Frame
unfolding same_preview
preview_frames include previous p =
    if include && not (same_preview p previous) then answer_preview p.revision p.text ∷ [] else []

unfoldable pub tick_frames : ℕ → List Frame
tick_frames tick = if tick % 5 == 0 then keep_alive ∷ [] else []

-- `cursor = event.sequence`, event by event
unfoldable pub last_sequence : ℕ → List RunEvent → ℕ
last_sequence cursor [] = cursor
last_sequence cursor (e ∷ es) = last_sequence e.sequence es

unfoldable pub cursor_after : ℕ → Result EventPage → ℕ
unfolding last_sequence
cursor_after cursor (ok p) = last_sequence cursor p.events
cursor_after cursor (err failure) = cursor

-- It is kept where the preview was sent; an unsent one that is the same leaves it as it was.
unfoldable pub preview_after : Bool → Option AnswerPreview → Result EventPage → Option AnswerPreview
preview_after true previous (ok p) = some p.preview
preview_after false previous (ok p) = previous
preview_after include previous (err failure) = previous

unfoldable pub error_code : AppError → String
error_code failure = if failure.status == 401 then "unauthenticated" else "stream_unavailable"

unfoldable pub respond :
    Bool → ℕ → Option AnswerPreview → Result EventPage → List Frame → List Frame
unfolding preview_frames tick_frames error_code
respond include tick previous (err failure) rest = stream_error (error_code failure) ∷ []
respond include tick previous (ok p) rest =
    map run_status p.events
    ++ (preview_frames include previous p.preview
        ++ (if p.terminal then stream_end ∷ [] else tick_frames tick ++ rest))

module _ (include : Bool) (run_id : ℕ) (polls : ℕ → Poll) where
  -- The loop from one tick on, for as many rounds as are left.
  unfoldable pub frames_from : ℕ → ℕ → ℕ → Option AnswerPreview → List Frame
  unfolding page cursor_after preview_after respond
  frames_from zero tick cursor previous = stream_reconnect ∷ []
  frames_from (suc left) tick cursor previous =
      let poll = polls tick in
      let found = page poll.authenticated run_id cursor poll.now poll.db in
      let rest =
        frames_from left (suc tick) (cursor_after cursor found)
          (preview_after include previous found) in
      if poll.disconnected then [] else respond include tick previous found rest

-- `frames`, with `STREAM_POLLS` rounds; `polls` says what each round meets.
unfoldable pub frames : Bool → ℕ → ℕ → (ℕ → Poll) → List Frame
unfolding frames_from
frames include run_id cursor polls = frames_from include run_id polls 25 0 cursor none
