-- ===== src/Runs/Events.antt =====
-- repositories/run_event.py: the events of a run and their replay.
use ai_powered_codebase_engi.Prelude.{
  ℕ, ◌+◌, ◌&&◌, Option, none, some, List, [], ◌∷◌, ◌++◌, max, ltb, ◌==◌, if◌then◌else◌, take,
}
use ai_powered_codebase_engi.Sql.{update_where, select_where, order_by, find}
use ai_powered_codebase_engi.Runs.Model.{is_terminal, AnswerRun, RunEvent, Db}

abbrev pub run_id : AnswerRun → ℕ
run_id r = r.id

-- The events of one run.
unfoldable pub events_of : ℕ → List RunEvent → List RunEvent
events_of id = select_where (λ e. e.run_id == id)

-- `func.max(RunEvent.sequence)`, with `or 0` for a run without events
unfoldable pub max_sequence : List RunEvent → ℕ
max_sequence [] = 0
max_sequence (e ∷ es) = max e.sequence (max_sequence es)

unfoldable pub clear_preview : AnswerRun → AnswerRun
clear_preview r = if is_terminal r.status then record r { preview_text = [] } else r

unfoldable pub add_event : Option AnswerRun → ℕ → Db → Db
unfolding clear_preview max_sequence events_of
add_event none id db = db
add_event (some run) id db = record db {
  runs = update_where (λ r. r.id == id) clear_preview db.runs;
  events =
      db.events
      ++ (record {
        run_id = id;
        sequence = max_sequence (events_of id db.events) + 1;
        status = run.status;
      }
          ∷ []);
}

-- `append_state`
unfoldable pub append_state : ℕ → Db → Db
unfolding add_event
append_state id db = add_event (find run_id id db.runs) id db

-- `after`: the next events of a run, three at most
unfoldable pub events_after : ℕ → ℕ → Db → List RunEvent
events_after id cursor db = take 3 (
    order_by (λ e. e.sequence)
      (select_where (λ e. e.run_id == id && ltb cursor e.sequence) db.events))
