-- ===== src/Searching/Tests.antt =====
-- A keyword search that finds one chunk in two channels.
use ai_powered_codebase_engi.Prelude.{
  ◌^◌, ℕ, ◌≡◌, refl, true, false, none, some, List, [], ◌∷◌, length, arith,
}
use ai_powered_codebase_engi.Sql.{select_where}
use ai_powered_codebase_engi.Jobs.Model.{completed}
use ai_powered_codebase_engi.Search.Model
use ai_powered_codebase_engi.Search.Model.{keyword, SearchIndex, version, is_ready, newer, newest}
use ai_powered_codebase_engi.Ranking.Floats.{
  is_less, digits_from, round_half_even, round_at, rounded, plus,
}
use ai_powered_codebase_engi.Ranking.Model.{
  no_score, add_reciprocal, distinct_from, add_rank, add_ids, add_channels, text_before,
  ranks_before, insert_ranked, sort_ranked, fuse,
}
use ai_powered_codebase_engi.Calls.Model.{
  gives, Writer, Effect, checked_owner, checked_limits, done,
}
use ai_powered_codebase_engi.Searching.Model.{
  SearchRequest, SearchHit, Evidence, candidate, add_candidate, collect, build_context,
}
use ai_powered_codebase_engi.Searching.Service.{
  ChunkRow, SearchService, SearchResponse, or_hybrid, require_index, has_id, chunk_of, hit_of,
  require_chunk, hits_of, ids_of, rescue_timeout, tie_of, embed_query, response_of, search_limits,
  rank_candidates, search_calls, search,
}
use ai_powered_codebase_engi.Searching.Within.{IsBudgeted, search-IsBudgeted}

abbrev index : SearchIndex
index = record {
  id = 4;
  repository_id = 7;
  is_current = true;
  status = completed;
  stage = "completed";
  attempts = 1;
  error_code = none;
  error_message = none;
  lease_token = none;
  lease_expires_at = none;
  last_dispatched_at = none;
  available_at = 0;
  started_at = none;
  finished_at = none;
  created_at = 0;
  columns = record {
    source_index_id = 5;
    commit_sha = "abc";
    pipeline_version = version;
    mode = keyword;
    provider_profile = "none";
    documents_stored = 1;
    reserved_tokens = 0;
    input_tokens = 0;
    token_budget = 0;
  };
}

abbrev chunk : ChunkRow
chunk = record {
  id = 60;
  file_id = 61;
  path = 97 ∷ [];
  language = "python";
  name = none;
  start_line = 1;
  end_line = 2;
  start_offset = 0;
  end_offset = 9;
  content = 98 ∷ [];
}

abbrev pub writer : Writer
writer = record { begin = λ kind model i o. gives 80; finish = λ id i o. gives tt }

abbrev pub searching : SearchService ℕ ℕ
searching = record {
  source = gives (record { id = 5; commit_sha = "abc" });
  indexes = index ∷ [];
  repository_id = 7;
  user_key = "retrieval:user:1";
  check_limits = λ limits. gives tt;
  query_terms = length;
  lexical = λ id terms. gives (60 ∷ []);
  symbols = λ id terms. gives (60 ∷ []);
  vector = λ id v. gives [];
  embeddings_enabled = false;
  embedding_price = 2;
  provider = none;
  receipts = some writer;
  chunks = λ source ids. gives (chunk ∷ []);
  tie_key = λ c. c.path;
  id_text = λ id. id ∷ [];
  tokens = length;
}

abbrev pub request : SearchRequest
request = record { query = 113 ∷ []; mode = keyword; top_k = 8; context_token_budget = 6000 }

abbrev hit : SearchHit
hit = record {
  chunk_id = 60;
  file_id = 61;
  path = 97 ∷ [];
  language = "python";
  symbol = none;
  start_line = 1;
  end_line = 2;
  start_offset = 0;
  end_offset = 9;
  content = 98 ∷ [];
  score = record { numerator = 4725088133634619; denominator = 2 ^ 57 };
  channel_ranks = ("lexical", 1) ∷ ("symbol", 1) ∷ [];
}

abbrev pub evidence : Evidence
evidence = record {
  citation_id = 1;
  chunk_id = 60;
  path = 97 ∷ [];
  commit_sha = "abc";
  start_line = 1;
  end_line = 2;
  content = 98 ∷ [];
}

abbrev pub response : SearchResponse
response = record {
  search_index_id = 4;
  source_index_id = 5;
  commit_sha = "abc";
  mode = keyword;
  pipeline_version = version;
  provider_profile = "none";
  results = hit ∷ [];
  context = evidence ∷ [];
  context_tokens = 1;
  context_omitted = 0;
  query_tokens = 0;
  estimated_query_cost = 0;
}

abbrev pub log : List Effect
log =
    checked_owner
    ∷ checked_limits (record { key = "retrieval:user:1"; count = 30; seconds = 60 } ∷ [])
    ∷ []

pub found : search searching request ≡ done log response
unfolding select_where Model.active is_ready newer newest no_score add_reciprocal is_less
    digits_from round_half_even round_at rounded plus distinct_from add_rank add_ids add_channels
    text_before ranks_before insert_ranked sort_ranked fuse candidate add_candidate collect
    build_context or_hybrid require_index has_id chunk_of hit_of require_chunk hits_of ids_of
    rescue_timeout tie_of embed_query response_of search_limits rank_candidates search_calls search
found = refl

search-IsBudgeted_example : IsBudgeted searching request response
search-IsBudgeted_example = search-IsBudgeted searching request (omega arith) found
