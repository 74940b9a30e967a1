-- ===== src/Receipts/Stopping.antt =====
-- `begin` of services/usage_receipts.py for a run that has ended.
use mathlib.Core.List.{Memᴰ}
use ai_powered_codebase_engi.Prelude.{
  ℕ, ◌≡◌, refl, true, false, String, Option, none, some, List, All-Memᴰ, All, [],
}
use ai_powered_codebase_engi.Prelude.Result.{err, app_error}
use ai_powered_codebase_engi.Sql.{find, find-Memᴰ, find-key}
use ai_powered_codebase_engi.Runs.Model.{is_terminal, AnswerRun, Db}
use ai_powered_codebase_engi.Runs.Events.{run_id}
use ai_powered_codebase_engi.Runs.Invariant.{AreSound}
use ai_powered_codebase_engi.Runs.System.{Reach}
use ai_powered_codebase_engi.Runs.Final.{ended_stays, terminal-not_running}
use ai_powered_codebase_engi.Receipts.Model.{Receipt, Kind, is_leased, begin}

not_leased :
    (now token id : ℕ) (rs : List AnswerRun)
    → All (λ k. k.id ≡ id → is_terminal k.status ≡ true) rs
    → (o : Option AnswerRun) → find run_id id rs ≡ o
    → is_leased now token o ≡ false
unfolding is_leased
not_leased now token id rs h none e = refl
not_leased now token id rs h (some k) e =
    let ended =
      All-Memᴰ (λ (q : AnswerRun). q.id ≡ id → is_terminal q.status ≡ true) rs
        (find-Memᴰ run_id id rs e) h in
    rw (terminal-not_running k.status (ended (find-key run_id id rs e))) refl

-- Once a run has ended no receipt is opened for it: in every state that is reached later, and for
-- every token, `begin` is refused with `answer_inactive` and stores no receipt.
pub ended_begins_nothing :
    {a b : Db}
    → AreSound [] a
    → Reach a b
    → (r : AnswerRun) → Memᴰ r a.runs
    → is_terminal r.status ≡ true
    → (now token id : ℕ) (kind : Kind) (model : String) (input_rate output_rate : ℕ)
      (receipts : List Receipt)
    → begin now token r.id id kind model input_rate output_rate b receipts
      ≡ err (app_error "answer_inactive" 409)
unfolding begin
ended_begins_nothing {a} {b} h reach r m e now token id kind model input_rate output_rate receipts =
    let stopped =
      not_leased now token r.id b.runs (ended_stays h reach r m e) (find run_id r.id b.runs) refl in
    rw stopped refl
