-- ===== src/Indexes/Model.antt =====
-- `start` and `cancel` of services/index.py, with `latest` of repositories/index.py. The column of
-- diagnostics is left out.
use ai_powered_codebase_engi.Prelude.{
  ℕ, ◌&&◌, String, Bool, true, false, Option, none, some, List, [], ◌∷◌, ◌++◌, ◌==◌,
}
use ai_powered_codebase_engi.Prelude.Result.{Result, ok, err, app_error, raise_if, ◌>>=◌, ◌>>◌}
use ai_powered_codebase_engi.Sql.{update_where, select_where, scalar}
use ai_powered_codebase_engi.Jobs.Model.{is_active, Job, ImportJob, Repository}
use ai_powered_codebase_engi.Jobs.Control
use ai_powered_codebase_engi.Jobs.Control.{new_job}
use ai_powered_codebase_engi.Search.Model.{is_completed, same_text}

-- The columns that the other jobs do not have
pub record IndexColumns : Type 0 where
  pub import_job_id : ℕ
  pub commit_sha : String
  pub pipeline_version : String
  pub symbol_count : ℕ
  pub chunk_count : ℕ
  pub files_scanned : ℕ
  pub files_stored : ℕ
  pub files_skipped : ℕ

abbrev pub RepositoryIndex : Type 0
RepositoryIndex = Job IndexColumns

unfoldable pub is_latest : ℕ → ℕ → RepositoryIndex → Bool
is_latest repository_id source_id r =
    r.repository_id == repository_id && (r.columns.import_job_id == source_id && r.is_current)

-- `IndexStore.latest`
unfoldable pub latest : ℕ → ℕ → List RepositoryIndex → Option RepositoryIndex
unfolding is_latest
latest repository_id source_id jobs = scalar (select_where (is_latest repository_id source_id) jobs)

unfoldable pub new_columns : ℕ → String → String → IndexColumns
new_columns source_id commit_sha version = record {
  import_job_id = source_id;
  commit_sha = commit_sha;
  pipeline_version = version;
  symbol_count = 0;
  chunk_count = 0;
  files_scanned = 0;
  files_stored = 0;
  files_skipped = 0;
}

-- The user's repository with its current import, the rate limiter, and `PIPELINE_VERSION`
pub record Context : Type 0 where
  pub owned : Result (Repository × ImportJob)
  pub limiter : Result (Unit {0})
  pub pipeline_version : String

commit_of : Bool → Option String → Result String
commit_of true (some sha) = ok sha
commit_of true none = err (app_error "import_required" 409)
commit_of false o = err (app_error "import_required" 409)

unfoldable pub active_latest : Option RepositoryIndex → Bool
active_latest none = false
active_latest (some r) = is_active r.status

unfoldable pub is_done : String → Option RepositoryIndex → Bool
is_done version none = false
is_done version (some r) = is_completed r.status && same_text r.columns.pipeline_version version

unfoldable pub retire_latest : Option RepositoryIndex → List RepositoryIndex → List RepositoryIndex
retire_latest none jobs = jobs
retire_latest (some last) jobs =
    update_where (λ r. r.id == last.id) (λ r. record r { is_current = false }) jobs

-- A completed index of this version is returned as it is, before the limit is asked.
unfoldable pub enqueue_unless :
    Bool
    → Result (Unit {0})
    → List RepositoryIndex
    → List RepositoryIndex
    → Result (Bool × List RepositoryIndex)
enqueue_unless true limited jobs enqueued = ok (false, jobs)
enqueue_unless false limited jobs enqueued = limited >> ok (true, enqueued)

-- `start`: whether a job was started, and the table
unfoldable pub start :
    ℕ → ℕ → Context → ℕ → List RepositoryIndex → Result (Bool × List RepositoryIndex)
unfolding latest new_columns commit_of active_latest is_done retire_latest enqueue_unless new_job
start now id c repository_id jobs = do
  (repo, source) ← c.owned
  commit_sha ← commit_of (is_completed source.status) repo.last_commit_sha
  raise_if (active_latest (latest repository_id source.id jobs)) (app_error "index_active" 409)
  enqueue_unless (is_done c.pipeline_version (latest repository_id source.id jobs)) c.limiter jobs (
      retire_latest (latest repository_id source.id jobs) jobs
      ++ (new_job now id repository_id (new_columns source.id commit_sha c.pipeline_version) ∷ []))

unfoldable pub cancellable : ℕ → ℕ → RepositoryIndex → Bool
cancellable repository_id source_id r =
    r.repository_id == repository_id
    && (r.columns.import_job_id == source_id && (r.is_current && is_active r.status))

-- `cancel`, for the current import that `owned` found
unfoldable pub cancel : ℕ → ℕ → ℕ → List RepositoryIndex → Result (List RepositoryIndex)
unfolding cancellable
cancel now repository_id source_id jobs =
    Control.committed "index_inactive"
      (update_where (cancellable repository_id source_id) (Control.cancel_values now) jobs)
      (scalar (select_where (cancellable repository_id source_id) jobs))
