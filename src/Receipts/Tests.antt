-- ===== src/Receipts/Tests.antt =====
-- A receipt that is settled, and a call for a run that has failed.
use mathlib.Core.List.{Memᴰ}
use ai_powered_codebase_engi.Prelude.{ℕ, ◌≡◌, refl, some, List, [], ◌∷◌}
use ai_powered_codebase_engi.Prelude.Result.{ok, err, app_error}
use ai_powered_codebase_engi.Sql.{find, update_where}
use ai_powered_codebase_engi.Runs.Events.{append_state}
use ai_powered_codebase_engi.Runs.Worker.{start_run}
use ai_powered_codebase_engi.Runs.Service.{new_run}
use ai_powered_codebase_engi.Runs.Tests.{broken, failed_run, broken-AreSound, redelivered}
use ai_powered_codebase_engi.Receipts.Model.{
  generation, Receipt, receipt_id, new_receipt, settle, cost_of, begin, finish,
}
use ai_powered_codebase_engi.Receipts.Settling.{finish_settles_once}
use ai_powered_codebase_engi.Receipts.Stopping.{ended_begins_nothing}

abbrev waiting : Receipt
waiting = new_receipt 10 60 40 generation "model" 5 7

finish_settles_once_example :
    (after : List Receipt) × (finish 30 60 (some 100) (some 20) (waiting ∷ []) ≡ ok after)
    × (find receipt_id 60 after ≡ some (settle 30 (cost_of 100 20 waiting) 100 20 waiting))
    × ((later i o : ℕ) → finish later 60 (some i) (some o) after ≡ ok after)
unfolding find new_receipt
finish_settles_once_example = finish_settles_once 30 60 100 20 (waiting ∷ []) waiting refl refl

cost : cost_of 100 20 waiting ≡ 640
unfolding cost_of new_receipt
cost = refl

ended_begins_nothing_example :
    begin 50 78 40 61 generation "model" 5 7 (start_run 40 78 40 broken) []
    ≡ err (app_error "answer_inactive" 409)
unfolding append_state find update_where new_run
ended_begins_nothing_example =
    ended_begins_nothing broken-AreSound redelivered failed_run (Memᴰ.head refl) refl 50 78 61
      generation "model" 5 7 []
