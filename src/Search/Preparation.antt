-- ===== src/Search/Preparation.antt =====
-- `checkpoint` of jobs/prepare_search.py, and `start` and `cancel` of services/search_preparation.py.
use ai_powered_codebase_engi.Prelude.{
  ℕ, ◌+◌, ◌&&◌, String, Bool, true, false, not, max, Option, none, some, List, [], ◌∷◌, ◌++◌,
  length, ◌==◌, if◌then◌else◌,
}
use ai_powered_codebase_engi.Prelude.Result.{Result, ok, app_error, raise_if, ◌>>=◌, ◌>>◌}
use ai_powered_codebase_engi.Sql.{update_where, select_where, scalar}
use ai_powered_codebase_engi.Jobs.Model.{is_active, Claim}
use ai_powered_codebase_engi.Jobs.Lease.{Outcome, committed, lease_lost, fenced}
use ai_powered_codebase_engi.Jobs.Control
use ai_powered_codebase_engi.Jobs.Control.{retire_row, requeue, new_job}
use ai_powered_codebase_engi.Search.Model.{
  Mode, keyword, hybrid, same_mode, same_text, SearchColumns, SearchIndex, version, latest, active,
}

unfoldable pub add_usage : ℕ → ℕ → SearchIndex → SearchIndex
add_usage documents usage r = record r {
  columns = record r.columns {
    documents_stored = r.columns.documents_stored + documents;
    input_tokens = r.columns.input_tokens + usage;
  };
}

-- The documents are added in the transaction of the update.
abbrev pub added {ℓ} : {D : Type ℓ} → List D → List D → Outcome → List D
added stored documents committed = stored ++ documents
added stored documents lease_lost = stored

-- `checkpoint`
unfoldable pub checkpoint {ℓ} :
    {D : Type ℓ}
    → ℕ
    → Claim
    → List D
    → ℕ
    → List SearchIndex
    → List D
    → Outcome × List SearchIndex × List D
unfolding add_usage
checkpoint now claim documents usage jobs stored =
    let (outcome, updated) = fenced now claim (add_usage (length documents) usage) jobs in
    (outcome, updated, added stored documents outcome)

-- `Limit` of core/rate_limits.py; the key is the scope with the user's id.
pub record Limit : Type 0 where
  pub scope : String
  pub user_id : ℕ
  pub count : ℕ
  pub seconds : ℕ

unfoldable pub build_limits : ℕ → Mode → List Limit
build_limits user_id keyword =
    record { scope = "search-build:user:"; user_id = user_id; count = 5; seconds = 60 } ∷ []
build_limits user_id hybrid =
    record { scope = "search-build:user:"; user_id = user_id; count = 5; seconds = 60 }
    ∷ record { scope = "semantic-build:user:"; user_id = user_id; count = 3; seconds = 86400 }
    ∷ []

-- What `start` asks of the configuration and of the other services: the source index that `source`
-- finds for the user's repository, and the rate limiter.
pub record Settings : Type 0 where
  pub embeddings_enabled : Bool
  pub embedding_token_budget : ℕ
  pub embedding_profile : String
  pub source : Result (ℕ × String)
  pub limiter : List Limit → Result (Unit {0})

abbrev pub is_hybrid : Mode → Bool
is_hybrid keyword = false
is_hybrid hybrid = true

abbrev pub profile_of : Settings → Mode → String
profile_of s keyword = "none"
profile_of s hybrid = s.embedding_profile

unfoldable pub latest_active : Option SearchIndex → Bool
latest_active none = false
latest_active (some r) = is_active r.status

unfoldable pub raise_budget : ℕ → SearchColumns → SearchColumns
raise_budget budget c = record c { token_budget = max c.token_budget budget }

-- An explicit retry resumes stored batches and keeps all reservations.
unfoldable pub resume : ℕ → ℕ → ℕ → List SearchIndex → List SearchIndex
unfolding requeue raise_budget
resume now id budget = requeue now id (raise_budget budget)

unfoldable pub same_job : ℕ → Mode → String → SearchIndex → Bool
same_job source_id mode profile r =
    r.columns.source_index_id == source_id
    && (same_mode r.columns.mode mode
        && (same_text r.columns.provider_profile profile
            && same_text r.columns.pipeline_version version))

unfoldable pub new_columns : Settings → ℕ → String → Mode → SearchColumns
new_columns s source_id commit_sha mode = record {
  source_index_id = source_id;
  commit_sha = commit_sha;
  pipeline_version = version;
  mode = mode;
  provider_profile = profile_of s mode;
  documents_stored = 0;
  reserved_tokens = 0;
  input_tokens = 0;
  token_budget = s.embedding_token_budget;
}

-- From the comparison with the latest job on: resume it, or retire it and add another.
unfoldable pub enqueue :
    ℕ
    → ℕ
    → Settings
    → ℕ
    → ℕ
    → String
    → Mode
    → Option SearchIndex
    → List SearchIndex
    → List SearchIndex
unfolding resume same_job new_columns new_job retire_row
enqueue now id s repository_id source_id commit_sha mode none jobs =
    jobs ++ (new_job now id repository_id (new_columns s source_id commit_sha mode) ∷ [])
enqueue now id s repository_id source_id commit_sha mode (some last) jobs =
    if same_job source_id mode (profile_of s mode) last
    then resume now last.id s.embedding_token_budget jobs
    else retire_row last.id jobs
      ++ (new_job now id repository_id (new_columns s source_id commit_sha mode) ∷ [])

unfoldable pub has_profile : String → Option SearchIndex → Bool
has_profile profile none = false
has_profile profile (some r) = same_text r.columns.provider_profile profile

-- A completed job of the same profile is returned as it is, before the limits are asked.
unfoldable pub enqueue_unless :
    Bool
    → Result (Unit {0})
    → List SearchIndex
    → List SearchIndex
    → Result (Bool × List SearchIndex)
enqueue_unless true limited jobs enqueued = ok (false, jobs)
enqueue_unless false limited jobs enqueued = limited >> ok (true, enqueued)

-- `start`: whether a job was started, and the table
unfoldable pub start :
    ℕ → ℕ → Settings → ℕ → ℕ → Mode → List SearchIndex → Result (Bool × List SearchIndex)
unfolding build_limits enqueue enqueue_unless has_profile latest_active
start now id s user_id repository_id mode jobs = do
  (source_id, commit_sha) ← s.source
  raise_if (is_hybrid mode && not s.embeddings_enabled) (app_error "embeddings_disabled" 409)
  raise_if (latest_active (latest repository_id jobs)) (app_error "search_active" 409)
  enqueue_unless (has_profile (profile_of s mode) (active repository_id source_id mode jobs))
      (s.limiter (build_limits user_id mode)) jobs
      (enqueue now id s repository_id source_id commit_sha mode (latest repository_id jobs) jobs)

unfoldable pub cancellable : ℕ → SearchIndex → Bool
cancellable repository_id r =
    r.repository_id == repository_id && (r.is_current && is_active r.status)

-- `cancel`, for a repository that is the user's
unfoldable pub cancel : ℕ → ℕ → List SearchIndex → Result (List SearchIndex)
unfolding cancellable
cancel now repository_id jobs =
    Control.committed "search_inactive"
      (update_where (cancellable repository_id) (Control.cancel_values now) jobs)
      (scalar (select_where (cancellable repository_id) jobs))
