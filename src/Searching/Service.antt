-- ===== src/Searching/Service.antt =====
-- `search` and `_search` of services/search.py. The database's queries, the limiter, the embedding
-- provider and pydantic's checks are a record of functions; a cost is in a millionth of the price's
-- unit.
use ai_powered_codebase_engi.Prelude.{
  ℕ, ◌+◌, ◌-◌, ◌*◌, ◌||◌, not, String, Bool, Option, none, some, List, [], ◌∷◌, ◌++◌, map, ◌==◌,
  length, if◌then◌else◌,
}
use ai_powered_codebase_engi.Prelude.Result.{AppError, app_error}
use ai_powered_codebase_engi.Runs.Model.{Text}
use ai_powered_codebase_engi.Limits.Model.{Limit}
use ai_powered_codebase_engi.Receipts.Model.{query_embedding}
use ai_powered_codebase_engi.Search.Model
use ai_powered_codebase_engi.Search.Model.{Mode, keyword, hybrid, SearchIndex, version}
use ai_powered_codebase_engi.Ranking.Model.{Ranked, distinct_from, fuse}
use ai_powered_codebase_engi.Calls.Model.{
  failed, usage_error, timeout, invalid, Reply, checked_owner, checked_limits, embedded, Action,
  raised, done, ◌>>=◌, ◌>>◌, call, ask, fail_if, Writer, begin_if, finish_if, settle_usage,
}
use ai_powered_codebase_engi.Searching.Model.{SearchRequest, SearchHit, Evidence, build_context}

pub record Source : Type 0 where
  pub id : ℕ
  pub commit_sha : String

-- A row of source chunks, as far as a hit shows it
pub record ChunkRow : Type 0 where
  pub id : ℕ
  pub file_id : ℕ
  pub path : Text
  pub language : String
  pub name : Option Text
  pub start_line : ℕ
  pub end_line : ℕ
  pub start_offset : ℕ
  pub end_offset : ℕ
  pub content : Text

pub record Embeddings (V : Type 0) : Type 0 where
  pub vectors : List V
  pub input_tokens : ℕ

pub record EmbeddingProvider (V : Type 0) : Type 0 where
  pub profile : String
  pub tokenize : Text → List (List ℕ)
  pub embed : List (List ℕ) → Reply (Embeddings V)
  pub aggregate : List V → List ℕ → V

-- What the service is made of. `terms` is the type of `query_terms`' results.
pub record SearchService (T V : Type 0) : Type 0 where
  pub source : Reply Source
  pub indexes : List SearchIndex
  pub repository_id : ℕ
  pub user_key : String
  pub check_limits : List Limit → Reply (Unit {0})
  pub query_terms : Text → T
  pub lexical : ℕ → T → Reply (List ℕ)
  pub symbols : ℕ → T → Reply (List ℕ)
  pub vector : ℕ → V → Reply (List ℕ)
  pub embeddings_enabled : Bool
  pub embedding_price : ℕ
  pub provider : Option (EmbeddingProvider V)
  pub receipts : Option Writer
  pub chunks : ℕ → List ℕ → Reply (List ChunkRow)
  pub tie_key : ChunkRow → Text
  pub id_text : ℕ → Text
  pub tokens : List Evidence → ℕ

pub record SearchResponse : Type 0 where
  pub search_index_id : ℕ
  pub source_index_id : ℕ
  pub commit_sha : String
  pub mode : Mode
  pub pipeline_version : String
  pub provider_profile : String
  pub results : List SearchHit
  pub context : List Evidence
  pub context_tokens : ℕ
  pub context_omitted : ℕ
  pub query_tokens : ℕ
  pub estimated_query_cost : ℕ

-- The embedding of a query: the channel that it adds, its tokens and its cost.
pub record QueryEmbedding : Type 0 where
  pub channels : List (String × List ℕ)
  pub usage : ℕ
  pub cost : ℕ

unfoldable pub sum : List ℕ → ℕ
sum [] = 0
sum (n ∷ ns) = n + sum ns

unfoldable pub token_count : List (List ℕ) → ℕ
unfolding sum
token_count parts = sum (map length parts)

unfoldable pub or_hybrid : Mode → Option SearchIndex → Option SearchIndex → Option SearchIndex
or_hybrid mode (some index) other = some index
or_hybrid keyword none other = other
or_hybrid hybrid none other = none

unfoldable pub require_index : Option SearchIndex → Action SearchIndex
require_index none = raised [] (failed (app_error "search_required" 409))
require_index (some index) = done [] index

unfoldable pub has_id : ℕ → ChunkRow → Bool
has_id id c = c.id == id

-- `chunks.get(id)` of the dictionary, whose last row with an id counts
unfoldable pub chunk_of : ℕ → List ChunkRow → Option ChunkRow
unfolding has_id
chunk_of id [] = none
chunk_of id (c ∷ cs) = later (chunk_of id cs)
  where
    later : Option ChunkRow → Option ChunkRow
    later none = if has_id id c then some c else none
    later (some d) = some d

unfoldable pub hit_of : Ranked → ChunkRow → SearchHit
hit_of item c = record {
  chunk_id = c.id;
  file_id = c.file_id;
  path = c.path;
  language = c.language;
  symbol = c.name;
  start_line = c.start_line;
  end_line = c.end_line;
  start_offset = c.start_offset;
  end_offset = c.end_offset;
  content = c.content;
  score = item.score;
  channel_ranks = item.channel_ranks;
}

unfoldable pub require_chunk : Ranked → Option ChunkRow → Action SearchHit
unfolding hit_of
require_chunk item none = raised [] (failed (app_error "search_inconsistent" 409))
require_chunk item (some c) = done [] (hit_of item c)

unfoldable pub hits_of : List ChunkRow → List Ranked → Action (List SearchHit)
unfolding require_chunk chunk_of
hits_of chunks [] = done [] []
hits_of chunks (item ∷ items) = do
  hit ← require_chunk item (chunk_of item.chunk_id chunks)
  hits ← hits_of chunks items
  done [] (hit ∷ hits)

unfoldable pub ids_of : List (String × List ℕ) → List ℕ
ids_of [] = []
ids_of ((channel, ids) ∷ channels) = ids ++ ids_of channels

-- `except TimeoutError` of `search`
unfoldable pub rescue_timeout {ℓ} : {A : Type ℓ} → AppError → Action A → Action A
rescue_timeout error (raised es timeout) = raised es (failed error)
rescue_timeout error (raised es (failed e)) = raised es (failed e)
rescue_timeout error (raised es (usage_error e i o)) = raised es (usage_error e i o)
rescue_timeout error (raised es invalid) = raised es invalid
rescue_timeout error (done es a) = done es a

module _ {T V : Type 0} (service : SearchService T V) where
  unfoldable pub tie_of : List ChunkRow → ℕ → Text
  unfolding chunk_of
  tie_of chunks id = or_text (chunk_of id chunks)
    where
      or_text : Option ChunkRow → Text
      or_text none = service.id_text id
      or_text (some c) = service.tie_key c

  unfoldable pub embedding_of : List ℕ → Embeddings V → QueryEmbedding
  embedding_of found response = record {
    channels = ("vector", found) ∷ [];
    usage = response.input_tokens;
    cost = response.input_tokens * service.embedding_price;
  }

  -- The calls for a query that has been cut into parts.
  unfoldable pub embed_parts : EmbeddingProvider V → ℕ → List (List ℕ) → Action QueryEmbedding
  unfolding begin_if settle_usage finish_if token_count embedding_of
  embed_parts provider index_id parts = do
    receipt ← begin_if service.receipts query_embedding provider.profile service.embedding_price 0
    response ←
        settle_usage service.receipts query_embedding receipt
          (call (embedded parts) (provider.embed parts))
    finish_if service.receipts query_embedding receipt response.input_tokens 0
    fail_if
        (not (length response.vectors == length parts)
          || not (response.input_tokens == token_count parts))
        (app_error "embedding_invalid" 502)
    found ← ask (service.vector index_id (provider.aggregate response.vectors (map length parts)))
    done [] (embedding_of found response)

  unfoldable pub embed_with :
      Option (EmbeddingProvider V) → SearchIndex → Text → Action QueryEmbedding
  unfolding embed_parts
  embed_with none index query = raised [] (failed (app_error "embeddings_disabled" 409))
  embed_with (some provider) index query = do
    fail_if (not service.embeddings_enabled) (app_error "embeddings_disabled" 409)
    fail_if (not (Model.same_text provider.profile index.columns.provider_profile))
        (app_error "embedding_profile_mismatch" 409)
    embed_parts provider index.id (provider.tokenize query)

  -- `if request.mode == "hybrid": ...`
  unfoldable pub embed_query : Mode → SearchIndex → Text → Action QueryEmbedding
  unfolding embed_with
  embed_query keyword index query = done [] (record { channels = []; usage = 0; cost = 0 })
  embed_query hybrid index query = embed_with service.provider index query

  unfoldable pub response_of :
      SearchRequest
      → Source
      → SearchIndex
      → QueryEmbedding
      → List SearchHit
      → List Evidence × ℕ
      → SearchResponse
  response_of request source index embedding results (context, tokens) = record {
    search_index_id = index.id;
    source_index_id = source.id;
    commit_sha = source.commit_sha;
    mode = request.mode;
    pipeline_version = version;
    provider_profile = index.columns.provider_profile;
    results = results;
    context = context;
    context_tokens = tokens;
    context_omitted = length results - length context;
    query_tokens = embedding.usage;
    estimated_query_cost = embedding.cost;
  }

  -- The limit on a user's searches.
  unfoldable pub search_limits : List Limit
  search_limits = record { key = service.user_key; count = 30; seconds = 60 } ∷ []

  -- From the channels on.
  unfoldable pub rank_candidates :
      SearchRequest
      → Source
      → SearchIndex
      → QueryEmbedding
      → List (String × List ℕ)
      → Action SearchResponse
  unfolding hits_of tie_of response_of ids_of
  rank_candidates request source index embedding channels = do
    chunks ← ask (service.chunks source.id (distinct_from [] (ids_of channels)))
    results ← hits_of chunks (fuse (tie_of chunks) channels request.top_k)
    done [] (
        response_of request source index embedding results
          (build_context service.tokens source.commit_sha request.context_token_budget results))

  unfoldable pub search_calls : SearchRequest → Action SearchResponse
  unfolding or_hybrid require_index search_limits embed_query rank_candidates
  search_calls request = do
    source ← call checked_owner service.source
    index ← require_index (
        or_hybrid request.mode
          (Model.active service.repository_id source.id request.mode service.indexes)
          (Model.active service.repository_id source.id hybrid service.indexes))
    call (checked_limits search_limits) (service.check_limits search_limits)
    lexical ← ask (service.lexical index.id (service.query_terms request.query))
    symbols ← ask (service.symbols index.id (service.query_terms request.query))
    embedding ← embed_query request.mode index request.query
    rank_candidates request source index embedding
        (("lexical", lexical) ∷ ("symbol", symbols) ∷ embedding.channels)

  -- `search`, with its timeout
  unfoldable pub search : SearchRequest → Action SearchResponse
  unfolding search_calls rescue_timeout
  search request = rescue_timeout (app_error "retrieval_timeout" 503) (search_calls request)
