-- ===== src/Runs/Expiry.antt =====
-- `dispatch_answers` of jobs/answer_dispatcher.py.
use ai_powered_codebase_engi.Prelude.{
  ℕ, ◌+◌, ◌&&◌, Bool, true, none, some, List, [], ◌∷◌, map, take, ltb, leb, ◌==◌, if◌then◌else◌,
  before,
}
use ai_powered_codebase_engi.Sql.{update_where, select_where, order_by}
use ai_powered_codebase_engi.Jobs.Model.{seconds}
use ai_powered_codebase_engi.Runs.Model.{failed, is_queued, is_running, AnswerRun, Db}
use ai_powered_codebase_engi.Runs.Events.{run_id, append_state}

-- The loop over the returned ids
unfoldable pub append_states : List ℕ → Db → Db
append_states [] db = db
append_states (id ∷ ids) db = append_states ids (append_state id db)

-- `update(...).where(p).values(...).returning(id)`, then the loop
unfoldable pub expire_where : (AnswerRun → Bool) → (AnswerRun → AnswerRun) → Db → Db
unfolding append_states
expire_where p f db =
    append_states (map run_id (select_where p db.runs))
      (record db { runs = update_where p f db.runs })

unfoldable pub lost : ℕ → AnswerRun → Bool
lost now r = is_running r.status && before r.lease_expires_at now

unfoldable pub lost_values : ℕ → AnswerRun → AnswerRun
lost_values now r = record r {
  status = failed;
  finished_at = some now;
  lease_token = none;
  lease_expires_at = none;
  error_code = some "answer_worker_lost";
  error_message = some "Worker stopped; usage is unknown. No automatic retry was made.";
}

unfoldable pub overdue : ℕ → AnswerRun → Bool
overdue now r = is_queued r.status && leb (r.created_at + seconds 3600) now

unfoldable pub overdue_values : ℕ → AnswerRun → AnswerRun
overdue_values now r = record r {
  status = failed;
  finished_at = some now;
  error_code = some "answer_queue_expired";
  error_message = some "Run waited over an hour. Check worker availability.";
}

-- The first transaction, before the selection
unfoldable pub expire_runs : ℕ → Db → Db
unfolding expire_where lost_values overdue_values
expire_runs now db =
    expire_where (overdue now) (overdue_values now) (expire_where (lost now) (lost_values now) db)

-- The selection
unfoldable pub dispatchable : ℕ → AnswerRun → Bool
dispatchable now r =
    is_queued r.status
    && elim r.last_dispatched_at [ none ↦ true | some last ↦ ltb (last + seconds 30) now ]

unfoldable pub due : ℕ → List AnswerRun → List ℕ
unfolding dispatchable
due now runs =
    map run_id (take 50 (order_by (λ r. r.created_at) (select_where (dispatchable now) runs)))

-- The update after a message that the broker took
unfoldable pub mark_dispatched : ℕ → ℕ → Db → Db
mark_dispatched now id db = record db {
  runs =
      update_where (λ r. r.id == id && is_queued r.status)
        (λ r. record r { last_dispatched_at = some now }) db.runs;
}

unfoldable pub publish_all : ℕ → (ℕ → Bool) → List ℕ → Db → Db
unfolding mark_dispatched
publish_all now published [] db = db
publish_all now published (id ∷ rest) db =
    publish_all now published rest (if published id then mark_dispatched now id db else db)

-- `dispatch_answers`; `published` says which messages the broker takes
unfoldable pub dispatch_answers : ℕ → (ℕ → Bool) → Db → Db
unfolding expire_runs due publish_all
dispatch_answers now published db =
    let expired = expire_runs now db in publish_all now published (due now expired.runs) expired
