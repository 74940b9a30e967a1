-- ===== src/Repositories/Model.antt =====
-- `create`, `retry`, `cancel` and `remove` of services/repository.py, with `owned` of
-- repositories/repository.py. The parser of URLs and the rate limiter are parameters.
use ai_powered_codebase_engi.Prelude.{
  ℕ, ◌+◌, ◌&&◌, not, String, Bool, Option, none, some, List, [], ◌∷◌, ◌++◌, ltb, leb, ◌==◌, any,
  length, if◌then◌else◌,
}
use ai_powered_codebase_engi.Prelude.Result.{Result, ok, err, app_error, raise_if, ◌>>=◌, ◌>>◌}
use ai_powered_codebase_engi.Sql.{select_where, scalar}
use ai_powered_codebase_engi.Jobs.Model.{seconds, ImportJob, Repository}
use ai_powered_codebase_engi.Jobs.Control.{
  new_job, no_counts, cancel_import, drop_jobs, retry_import,
}
use ai_powered_codebase_engi.Search.Model.{same_text}

-- The tables that the service writes
pub record Library : Type 0 where
  pub repositories : List Repository
  pub jobs : List ImportJob

-- The rate limit of a user's imports, `parse_repository_url`, and the key made of owner and name
pub record Imports : Type 0 where
  pub limiter : ℕ → Result (Unit {0})
  pub parse_repository_url : String → Result (String × String)
  pub source_key : String → String → String

unfoldable pub is_users : ℕ → Repository → Bool
is_users user_id r = r.user_id == user_id

-- Jobs of the user's repositories in the last hour
unfoldable pub is_recent : ℕ → ℕ → List Repository → ImportJob → Bool
is_recent now user_id repositories j =
    any (λ (r : Repository). r.id == j.repository_id && r.user_id == user_id) repositories
    && ltb now (j.created_at + seconds 3600)

-- `_quota`
unfoldable pub quota : ℕ → ℕ → Library → Result (Unit {0})
unfolding is_recent
quota now user_id db =
    raise_if (leb 5 (length (select_where (is_recent now user_id db.repositories) db.jobs)))
      (app_error "import_rate_limited" 429)

-- `uq_repository_user_source`
unfoldable pub is_connected : ℕ → String → Repository → Bool
is_connected user_id source_key r = r.user_id == user_id && same_text r.source_key source_key

unfoldable pub new_repository : ℕ → ℕ → String → String → String → Repository
new_repository id user_id source_key owner name = record {
  id = id;
  user_id = user_id;
  source_key = source_key;
  owner = owner;
  name = name;
  github_repository_id = none;
  default_branch = none;
  last_commit_sha = none;
  imported_at = none;
}

-- The insertions, or the `IntegrityError`
unfoldable pub connect : ℕ → ℕ → ℕ → ℕ → String → String → String → Library → Result Library
unfolding is_connected new_repository new_job
connect now id job_id user_id source_key owner name db =
    if any (is_connected user_id source_key) db.repositories
    then err (app_error "repository_exists" 409)
    else ok (record {
      repositories = db.repositories ++ (new_repository id user_id source_key owner name ∷ []);
      jobs = db.jobs ++ (new_job now job_id id no_counts ∷ []);
    })

unfoldable pub owned_count : ℕ → Library → ℕ
unfolding is_users
owned_count user_id db = length (select_where (is_users user_id) db.repositories)

-- `create`
unfoldable pub create : ℕ → ℕ → ℕ → Imports → ℕ → String → Library → Result Library
unfolding quota owned_count connect
create now id job_id imports user_id url db = do
  imports.limiter user_id
  quota now user_id db
  raise_if (leb 20 (owned_count user_id db)) (app_error "repository_limit" 409)
  (owner, name) ← imports.parse_repository_url url
  connect now id job_id user_id (imports.source_key owner name) owner name db

unfoldable pub owns_repository : ℕ → ℕ → Repository → Bool
owns_repository user_id repository_id r = r.id == repository_id && r.user_id == user_id

unfoldable pub current_of : ℕ → ImportJob → Bool
current_of repository_id j = j.repository_id == repository_id && j.is_current

unfoldable pub found_pair : Option Repository → Option ImportJob → Result (Repository × ImportJob)
found_pair (some r) (some j) = ok (r, j)
found_pair (some r) none = err (app_error "not_found" 404)
found_pair none o = err (app_error "not_found" 404)

-- `owned`: the user's repository with its current job
unfoldable pub owned : ℕ → ℕ → Library → Result (Repository × ImportJob)
unfolding owns_repository current_of found_pair
owned user_id repository_id db =
    found_pair (scalar (select_where (owns_repository user_id repository_id) db.repositories))
      (scalar (select_where (current_of repository_id) db.jobs))

abbrev with_jobs : Library → List ImportJob → Library
with_jobs db jobs = record db { jobs = jobs }

unfoldable pub store_jobs : Library → Result (List ImportJob) → Result Library
store_jobs db (ok jobs) = ok (with_jobs db jobs)
store_jobs db (err failure) = err failure

-- `retry`
unfoldable pub retry : ℕ → ℕ → Imports → ℕ → ℕ → Library → Result Library
unfolding quota owned store_jobs
retry now new_id imports user_id repository_id db = do
  imports.limiter user_id
  quota now user_id db
  (repo, job) ← owned user_id repository_id db
  store_jobs db (retry_import now job.id repo.id new_id db.jobs)

-- `cancel`
unfoldable pub cancel : ℕ → ℕ → ℕ → Library → Result Library
unfolding owned store_jobs
cancel now user_id repository_id db = do
  (repo, job) ← owned user_id repository_id db
  store_jobs db (cancel_import now job.id db.jobs)

-- `remove`; the jobs go with their repository, by the foreign key's cascade
unfoldable pub remove : ℕ → ℕ → Library → Result Library
unfolding owned owns_repository drop_jobs
remove user_id repository_id db = do
  pair ← owned user_id repository_id db
  ok (record {
    repositories =
        select_where (λ r. not (owns_repository user_id repository_id r)) db.repositories;
    jobs = drop_jobs repository_id db.jobs;
  })
