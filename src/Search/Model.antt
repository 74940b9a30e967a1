-- ===== src/Search/Model.antt =====
-- models/search_index.py, the queries of repositories/search.py, and `reserve` and `checkpoint` of
-- jobs/prepare_search.py. The price, a float, is left out.
use text.Mathlib.Text
use ai_powered_codebase_engi.Prelude.{
  ℕ, ◌+◌, not, ◌||◌, if◌then◌else◌, ◌&&◌, String, Bool, true, false, Option, none, some, List, [],
  ◌∷◌, leb, ◌==◌,
}
use ai_powered_codebase_engi.Prelude.Result.{Result, ok, err, app_error}
use ai_powered_codebase_engi.Sql.{update_where, select_where, scalar}
use ai_powered_codebase_engi.Jobs.Model.{Status, completed, Job, Claim}
use ai_powered_codebase_engi.Jobs.Lease.{lease_condition}

abbrev pub same_text : String → String → Bool
same_text s t = Text.◌==◌ s t

pub data Mode : Type 0 where
  keyword hybrid : Mode

abbrev pub same_mode : Mode → Mode → Bool
same_mode keyword keyword = true
same_mode hybrid hybrid = true
same_mode _ _ = false

-- The columns that the other jobs do not have
pub record SearchColumns : Type 0 where
  pub source_index_id : ℕ
  pub commit_sha : String
  pub pipeline_version : String
  pub mode : Mode
  pub provider_profile : String
  pub documents_stored : ℕ
  pub reserved_tokens : ℕ
  pub input_tokens : ℕ
  pub token_budget : ℕ

abbrev pub SearchIndex : Type 0
SearchIndex = Job SearchColumns

abbrev pub is_completed : Status → Bool
is_completed completed = true
is_completed _ = false

-- `VERSION` of retrieval/text.py
abbrev pub version : String
version = "hybrid-v1"

unfoldable pub is_latest : ℕ → SearchIndex → Bool
is_latest repository_id r = r.repository_id == repository_id && r.is_current

-- `SearchStore.latest`
unfoldable pub latest : ℕ → List SearchIndex → Option SearchIndex
unfolding is_latest
latest repository_id jobs = scalar (select_where (is_latest repository_id) jobs)

unfoldable pub is_ready : ℕ → ℕ → Mode → SearchIndex → Bool
is_ready repository_id source_id mode r =
    r.repository_id == repository_id
    && (r.columns.source_index_id == source_id
        && (is_completed r.status
            && (same_mode r.columns.mode mode && same_text r.columns.pipeline_version version)))

-- Rows in the order `created_at.desc(), id`
unfoldable pub newer : SearchIndex → Option SearchIndex → Option SearchIndex
newer r none = some r
newer r (some q) =
    if leb q.created_at r.created_at && (not (q.created_at == r.created_at) || leb r.id q.id)
    then some r
    else some q

unfoldable pub newest : List SearchIndex → Option SearchIndex
unfolding newer
newest [] = none
newest (r ∷ rs) = newer r (newest rs)

-- `SearchStore.active`: the newest row that is ready
unfoldable pub active : ℕ → ℕ → Mode → List SearchIndex → Option SearchIndex
unfolding is_ready newest
active repository_id source_id mode jobs =
    newest (select_where (is_ready repository_id source_id mode) jobs)

unfoldable pub reservable : ℕ → Claim → ℕ → SearchIndex → Bool
reservable now claim tokens r =
    lease_condition now claim r && leb (r.columns.reserved_tokens + tokens) r.columns.token_budget

unfoldable pub add_reserved : ℕ → SearchIndex → SearchIndex
add_reserved tokens r = record r {
  columns = record r.columns { reserved_tokens = r.columns.reserved_tokens + tokens };
}

unfoldable pub reserved : Option SearchIndex → List SearchIndex → Result (List SearchIndex)
reserved none updated = err (app_error "embedding_budget_exceeded" 409)
reserved (some r) updated = ok updated

-- `reserve`
unfoldable pub reserve : ℕ → Claim → ℕ → List SearchIndex → Result (List SearchIndex)
unfolding reservable add_reserved reserved
reserve now claim tokens jobs =
    reserved (scalar (select_where (reservable now claim tokens) jobs))
      (update_where (reservable now claim tokens) (add_reserved tokens) jobs)
