-- ===== src/Jobs/Dispatcher.antt =====
-- `dispatch_once` of dispatcher.py.
use ai_powered_codebase_engi.Prelude.{
  ℕ, ◌+◌, Bool, true, ◌&&◌, ◌||◌, none, some, List, [], ◌∷◌, map, take, ltb, leb, ◌==◌,
  if◌then◌else◌, before,
}
use ai_powered_codebase_engi.Sql.{update_where, select_where, order_by}
use ai_powered_codebase_engi.Jobs.Model.{failed, is_queued, is_running, seconds, Job}

module _ {X : Type 0} where
  -- the WHERE clause of the sweep
  unfoldable pub worker_lost : ℕ → Job X → Bool
  worker_lost now r = is_running r.status && (before r.lease_expires_at now && leb 3 r.attempts)

  unfoldable pub give_up : ℕ → Job X → Job X
  give_up now r = record r {
    status = failed;
    stage = "failed";
    error_code = some "worker_lost";
    error_message = some "Worker stopped repeatedly. Retry the job.";
    finished_at = some now;
    lease_token = none;
    lease_expires_at = none;
  }

  unfoldable pub sweep : ℕ → List (Job X) → List (Job X)
  unfolding give_up
  sweep now = update_where (worker_lost now) (give_up now)

  -- the WHERE clause of the selection; `last + 30 s < now` is the source's `last < now - 30 s`
  unfoldable pub dispatchable : ℕ → Job X → Bool
  dispatchable now r =
      r.is_current
      && (leb r.available_at now
          && ((is_queued r.status || (is_running r.status && before r.lease_expires_at now))
              && elim r.last_dispatched_at [
                | none ↦ true
                | some last ↦ ltb (last + seconds 30) now
              ]))

  unfoldable pub due : ℕ → List (Job X) → List (Job X)
  due now jobs = take 50 (order_by (λ r. r.created_at) (select_where (dispatchable now) jobs))

  unfoldable pub mark_dispatched : ℕ → ℕ → List (Job X) → List (Job X)
  mark_dispatched now job_id =
      update_where (λ r. r.id == job_id) (λ r. record r { last_dispatched_at = some now })

  -- The loop over the selected jobs: `publish` says whether the broker took the message, and a
  -- refused message leaves the row as it was.
  unfoldable pub publish_all : ℕ → (ℕ → Bool) → List ℕ → List (Job X) → List (Job X)
  unfolding mark_dispatched
  publish_all now published [] jobs = jobs
  publish_all now published (job_id ∷ rest) jobs =
      publish_all now published rest
        (if published job_id then mark_dispatched now job_id jobs else jobs)

  unfoldable pub dispatch_once : ℕ → (ℕ → Bool) → List (Job X) → List (Job X)
  unfolding sweep publish_all due
  dispatch_once now published jobs =
      let swept = sweep now jobs in
      publish_all now published (map (λ (r : Job X). r.id) (due now swept)) swept
