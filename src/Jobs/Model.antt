-- ===== src/Jobs/Model.antt =====
-- The rows that backend/app/jobs works on: models/import_job.py, models/repository_index.py and
-- models/search_index.py share every column but those of `columns`, and models/repository.py.
use ai_powered_codebase_engi.Prelude.{ℕ, ◌*◌, String, Bool, true, false, Option}

pub data Status : Type 0 where
  queued running completed failed cancelled : Status

abbrev pub is_queued : Status → Bool
is_queued queued = true
is_queued _ = false

abbrev pub is_running : Status → Bool
is_running running = true
is_running _ = false

-- `status.in_(["queued", "running"])`
abbrev pub is_active : Status → Bool
is_active queued = true
is_active running = true
is_active _ = false

-- `status.in_(["failed", "cancelled"])`
abbrev pub is_retryable : Status → Bool
is_retryable failed = true
is_retryable cancelled = true
is_retryable _ = false

-- Times are microseconds.
abbrev pub seconds : ℕ → ℕ
seconds n = n * 1000000

pub record Job (X : Type 0) : Type 0 where
  pub id : ℕ
  pub repository_id : ℕ
  pub is_current : Bool
  pub status : Status
  pub stage : String
  pub attempts : ℕ
  pub error_code : Option String
  pub error_message : Option String
  pub lease_token : Option ℕ
  pub lease_expires_at : Option ℕ
  pub last_dispatched_at : Option ℕ
  pub available_at : ℕ
  pub started_at : Option ℕ
  pub finished_at : Option ℕ
  pub created_at : ℕ
  -- the columns of the one model
  pub columns : X

pub record ImportColumns : Type 0 where
  pub files_scanned : ℕ
  pub files_stored : ℕ
  pub files_skipped : ℕ

abbrev pub ImportJob : Type 0
ImportJob = Job ImportColumns

pub record Repository : Type 0 where
  pub id : ℕ
  pub user_id : ℕ
  pub source_key : String
  pub owner : String
  pub name : String
  pub github_repository_id : Option ℕ
  pub default_branch : Option String
  pub last_commit_sha : Option String
  pub imported_at : Option ℕ

-- `Claim` of state.py
pub record Claim : Type 0 where
  pub job_id : ℕ
  pub repository_id : ℕ
  pub lease_token : ℕ
  pub owner : String
  pub name : String
  pub attempt : ℕ
