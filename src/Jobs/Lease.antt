-- ===== src/Jobs/Lease.antt =====
-- state.py, and the statements by which a worker ends its job: `publish_result` and `record_failure`
-- of import_repository.py, with the same updates in index_repository.py and prepare_search.py.
-- A statement reads the clock by itself, so each takes its own `now`; `lease` is the new UUID.
use ai_powered_codebase_engi.Prelude.{
  ℕ, ◌+◌, ◌*◌, String, Bool, ◌&&◌, ◌||◌, Option, none, some, List, ltb, leb, ◌==◌, if◌then◌else◌,
  before, after, equals,
}
use ai_powered_codebase_engi.Sql.{update_where, select_where, scalar, find}
use ai_powered_codebase_engi.Jobs.Model.{
  queued, running, completed, failed, is_queued, is_running, seconds, Job, Repository, Claim,
}

-- What a worker's statement ends with: `LeaseLost` is the exception of indexing/errors.py.
pub data Outcome : Type 0 where
  committed lease_lost : Outcome

-- `ImportFailure` of indexing/errors.py
pub record ImportFailure : Type 0 where
  pub code : String
  pub message : String
  pub retryable : Bool

module _ {X : Type 0} where
  -- the WHERE clause of `claim_job`
  unfoldable pub claimable : ℕ → ℕ → Job X → Bool
  claimable now job_id r =
      r.id == job_id
      && (r.is_current
          && (ltb r.attempts 3
              && (leb r.available_at now
                  && (is_queued r.status
                      || (is_running r.status && before r.lease_expires_at now)))))

  unfoldable pub start_attempt : ℕ → ℕ → Job X → Job X
  start_attempt now lease r = record r {
    status = running;
    stage = "starting";
    attempts = r.attempts + 1;
    lease_token = some lease;
    lease_expires_at = some (now + seconds 180);
    started_at = some now;
    finished_at = none;
    error_code = none;
    error_message = none;
  }

  unfoldable pub make_claim : ℕ → Job X → Repository → Claim
  make_claim lease job repository = record {
    job_id = job.id;
    repository_id = repository.id;
    lease_token = lease;
    owner = repository.owner;
    name = repository.name;
    attempt = job.attempts + 1;
  }

  -- What follows the update: without the repository's row nothing is committed.
  unfoldable pub issue :
      List Repository
      → ℕ
      → (jobs updated : List (Job X)) → Option (Job X)
      → Option Claim × List (Job X)
  unfolding make_claim
  issue repositories lease jobs updated none = (none, jobs)
  issue repositories lease jobs updated (some job) =
      elim (find (λ (r : Repository). r.id) job.repository_id repositories) [
        | none ↦ (none, jobs)
        | some repository ↦ (some (make_claim lease job repository), updated)
      ]

  unfoldable pub claim_job :
      List Repository → ℕ → ℕ → ℕ → List (Job X) → Option Claim × List (Job X)
  unfolding issue
  claim_job repositories now lease job_id jobs =
      issue repositories lease jobs
        (update_where (claimable now job_id) (start_attempt now lease) jobs)
        (scalar (select_where (claimable now job_id) jobs))

  unfoldable pub lease_condition : ℕ → Claim → Job X → Bool
  lease_condition now claim r =
      r.id == claim.job_id
      && (is_running r.status
          && (equals r.lease_token claim.lease_token
              && (r.is_current && after r.lease_expires_at now)))

  -- An update under the lease, which raises `LeaseLost` where it matches no row.
  unfoldable pub fenced : ℕ → Claim → (Job X → Job X) → List (Job X) → Outcome × List (Job X)
  fenced now claim values jobs = elim (scalar (select_where (lease_condition now claim) jobs)) [
    | none ↦ (lease_lost, jobs)
    | some _ ↦ (committed, update_where (lease_condition now claim) values jobs)
  ]

  unfoldable pub set_stage : String → Job X → Job X
  set_stage s r = record r { stage = s }

  unfoldable pub report_stage : ℕ → Claim → String → List (Job X) → Outcome × List (Job X)
  unfolding fenced set_stage
  report_stage now claim s = fenced now claim (set_stage s)

  -- The values of the completing update; `columns` are the counts of the one model.
  unfoldable pub complete : ℕ → (X → X) → Job X → Job X
  complete now counts r = record r {
    status = completed;
    stage = "completed";
    finished_at = some now;
    lease_token = none;
    lease_expires_at = none;
    columns = counts r.columns;
  }

  unfoldable pub publish : ℕ → ℕ → Claim → (X → X) → List (Job X) → Outcome × List (Job X)
  unfolding fenced complete
  publish now finished claim counts = fenced now claim (complete finished counts)

  -- The values of `record_failure`. Three clocks are read: in the condition and for two columns.
  unfoldable pub fail_attempt : ℕ → ℕ → Claim → ImportFailure → Job X → Job X
  fail_attempt now finished claim failure r =
      let retry = failure.retryable && ltb claim.attempt 3 in
      record r {
        status = if retry then queued else failed;
        stage = if retry then "retry_wait" else "failed";
        error_code = some failure.code;
        error_message = some failure.message;
        lease_token = none;
        lease_expires_at = none;
        last_dispatched_at = none;
        available_at = now + seconds (30 * claim.attempt);
        finished_at = if retry then none else some finished;
      }

  -- It ignores whether a row matched.
  unfoldable pub record_failure : ℕ → ℕ → ℕ → Claim → ImportFailure → List (Job X) → List (Job X)
  unfolding fail_attempt
  record_failure checked now finished claim failure =
      update_where (lease_condition checked claim) (fail_attempt now finished claim failure)

  -- The failure of an index or a search index, which is never retried by itself.
  unfoldable pub abandon : ℕ → ImportFailure → Job X → Job X
  abandon now failure r = record r {
    status = failed;
    stage = "failed";
    error_code = some failure.code;
    error_message = some failure.message;
    finished_at = some now;
    lease_token = none;
    lease_expires_at = none;
  }

  unfoldable pub record_abandon : ℕ → ℕ → Claim → ImportFailure → List (Job X) → List (Job X)
  unfolding abandon
  record_abandon checked now claim failure =
      update_where (lease_condition checked claim) (abandon now failure)
