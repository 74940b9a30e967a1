-- ===== src/Search/Tests.antt =====
-- A worker that reserves tokens of a hundred.
use ai_powered_codebase_engi.Prelude.{ℕ, ◌≡◌, refl, true, none, some, List, [], ◌∷◌, arith}
use ai_powered_codebase_engi.Prelude.Result.{ok}
use ai_powered_codebase_engi.Sql.{select_where, update_where}
use ai_powered_codebase_engi.Jobs.Model.{running, Claim}
use ai_powered_codebase_engi.Jobs.Lease.{lease_condition}
use ai_powered_codebase_engi.Search.Model.{hybrid, SearchIndex, reserve}
use ai_powered_codebase_engi.Search.Budget
use ai_powered_codebase_engi.Search.Budget.{IsWithin, here, next, budget_kept}

abbrev index_with : ℕ → SearchIndex
index_with reserved = record {
  id = 1;
  repository_id = 7;
  is_current = true;
  status = running;
  stage = "embedding";
  attempts = 1;
  error_code = none;
  error_message = none;
  lease_token = some 5;
  lease_expires_at = some 100;
  last_dispatched_at = none;
  available_at = 0;
  started_at = some 0;
  finished_at = none;
  created_at = 0;
  columns = record {
    source_index_id = 3;
    commit_sha = "abc";
    pipeline_version = "hybrid-v1";
    mode = hybrid;
    provider_profile = "profile";
    documents_stored = 0;
    reserved_tokens = reserved;
    input_tokens = 0;
    token_budget = 100;
  };
}

abbrev the_claim : Claim
the_claim = record {
  job_id = 1;
  repository_id = 7;
  lease_token = 5;
  owner = "octo";
  name = "demo";
  attempt = 1;
}

abbrev before_it : List SearchIndex
before_it = index_with 60 ∷ []

abbrev after_it : List SearchIndex
after_it = index_with 100 ∷ []

forty_more : reserve 50 the_claim 40 before_it ≡ ok after_it
unfolding reserve lease_condition select_where update_where
forty_more = refl

budget_kept_example : IsWithin after_it
budget_kept_example =
    budget_kept {a = before_it} (omega arith, tt)
      (next here (Budget.reserved_more 50 the_claim 40 forty_more))
