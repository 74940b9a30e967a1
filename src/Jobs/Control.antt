-- ===== src/Jobs/Control.antt =====
-- The user's side of a job: `cancel` and the row changes of `retry` in services/repository.py.
use ai_powered_codebase_engi.Prelude.{
  ℕ, String, Option, ◌≡◌, Bool, true, false, ◌&&◌, not, none, some, List, ◌∷◌, [], ◌++◌, ◌==◌,
}
use ai_powered_codebase_engi.Prelude.Result.{Result, ok, err, app_error}
use ai_powered_codebase_engi.Sql.{update_where, select_where, scalar}
use ai_powered_codebase_engi.Jobs.Model.{
  queued, cancelled, is_active, is_retryable, Job, ImportColumns, ImportJob, Claim,
}
use ai_powered_codebase_engi.Jobs.Lease.{lease_condition}

module _ {X : Type 0} where
  unfoldable pub cancel_values : ℕ → Job X → Job X
  cancel_values now r = record r {
    status = cancelled;
    stage = "cancelled";
    finished_at = some now;
    lease_token = none;
    lease_expires_at = none;
  }

  unfoldable pub cancellable : ℕ → Job X → Bool
  cancellable job_id r = r.id == job_id && is_active r.status

  -- Where the statement returned no id, the request fails and nothing is committed.
  unfoldable pub committed : String → List (Job X) → Option (Job X) → Result (List (Job X))
  committed code updated none = err (app_error code 409)
  committed code updated (some _) = ok updated

  pub committed-eq-ok :
      (code : String) (updated : List (Job X)) (o : Option (Job X)) {jobs : List (Job X)}
      → committed code updated o ≡ ok jobs
      → jobs ≡ updated
  unfolding committed
  committed-eq-ok code updated none h = cc
  committed-eq-ok code updated (some r) h = cc

  -- `cancel` of services/repository.py, for the current job that `owned` found
  unfoldable pub cancel_import : ℕ → ℕ → List (Job X) → Result (List (Job X))
  unfolding cancellable cancel_values committed
  cancel_import now job_id jobs =
      committed "invalid_job_state" (update_where (cancellable job_id) (cancel_values now) jobs)
        (scalar (select_where (cancellable job_id) jobs))

  unfoldable pub retire_values : Job X → Job X
  retire_values r = record r { is_current = false }

  unfoldable pub retired : ℕ → Job X → Bool
  retired job_id r = r.id == job_id && (r.is_current && is_retryable r.status)

  -- The update of a row by its id alone: `latest.is_current = False` of the index services.
  unfoldable pub retire_row : ℕ → List (Job X) → List (Job X)
  unfolding retire_values
  retire_row job_id = update_where (λ r. r.id == job_id) retire_values

  -- What an explicit retry of a search preparation sets; the columns of the model change by `amend`.
  unfoldable pub requeue_values : ℕ → (X → X) → Job X → Job X
  requeue_values now amend r = record r {
    status = queued;
    stage = "queued";
    attempts = 0;
    error_code = none;
    error_message = none;
    lease_token = none;
    lease_expires_at = none;
    finished_at = none;
    last_dispatched_at = none;
    available_at = now;
    columns = amend r.columns;
  }

  unfoldable pub requeue : ℕ → ℕ → (X → X) → List (Job X) → List (Job X)
  unfolding requeue_values
  requeue now job_id amend = update_where (λ r. r.id == job_id) (requeue_values now amend)

  -- A worker's update of the columns of its own model, under its lease.
  unfoldable pub amendable : ℕ → Claim → (X → Bool) → Job X → Bool
  amendable now claim allows r = lease_condition now claim r && allows r.columns

  unfoldable pub amend_values : (X → X) → Job X → Job X
  amend_values amend r = record r { columns = amend r.columns }

  unfoldable pub amend_columns : ℕ → Claim → (X → Bool) → (X → X) → List (Job X) → List (Job X)
  unfolding amendable amend_values
  amend_columns now claim allows amend =
      update_where (amendable now claim allows) (amend_values amend)

  -- The jobs of a repository go with it, by the foreign key's cascade.
  unfoldable pub drop_jobs : ℕ → List (Job X) → List (Job X)
  drop_jobs repository_id = select_where (λ j. not (j.repository_id == repository_id))

-- The columns of a new row, by the models' defaults.
unfoldable pub new_job : {X : Type 0} → ℕ → ℕ → ℕ → X → Job X
new_job now id repository_id columns = record {
  id = id;
  repository_id = repository_id;
  is_current = true;
  status = queued;
  stage = "queued";
  attempts = 0;
  error_code = none;
  error_message = none;
  lease_token = none;
  lease_expires_at = none;
  last_dispatched_at = none;
  available_at = now;
  started_at = none;
  finished_at = none;
  created_at = now;
  columns = columns;
}

abbrev pub no_counts : ImportColumns
no_counts = record { files_scanned = 0; files_stored = 0; files_skipped = 0 }

-- The row changes of `retry`: the old job is retired and a new one is queued.
unfoldable pub retry_import : ℕ → ℕ → ℕ → ℕ → List ImportJob → Result (List ImportJob)
unfolding retired retire_values new_job committed
retry_import now job_id repository_id new_id jobs =
    committed "invalid_job_state"
      (update_where (retired job_id) retire_values jobs
        ++ (new_job now new_id repository_id no_counts ∷ []))
      (scalar (select_where (retired job_id) jobs))
