-- ===== src/Preparing/Model.antt =====
-- `run_preparation` of jobs/prepare_search.py. Each of its transactions meets the database as the
-- other processes have left it, at a time of its own. The texts of a chunk, the chunks of a source
-- index and SHA-256 are parameters, as is the message of an error's code; a timeout is one that a
-- provider raises.
use ai_powered_codebase_engi.Prelude.{
  ℕ, zero, suc, ◌+◌, ◌&&◌, ◌||◌, not, String, Bool, true, false, Option, none, some, List, [], ◌∷◌,
  ◌++◌, map, ltb, ◌==◌, length, take, drop, if◌then◌else◌,
}
use ai_powered_codebase_engi.Prelude.Result.{AppError, Result, ok, err, app_error}
use ai_powered_codebase_engi.Sql.{contains, find, select_where}
use ai_powered_codebase_engi.Runs.Model.{Text}
use ai_powered_codebase_engi.Jobs.Model.{Claim, Repository}
use ai_powered_codebase_engi.Jobs.Lease.{
  Outcome, committed, lease_lost, ImportFailure, claim_job, report_stage, publish, record_abandon,
}
use ai_powered_codebase_engi.Search.Model
use ai_powered_codebase_engi.Search.Model.{
  Mode, keyword, hybrid, SearchColumns, SearchIndex, version, reserve,
}
use ai_powered_codebase_engi.Search.Preparation.{checkpoint}
use ai_powered_codebase_engi.Calls.Model.{
  Raised, failed, usage_error, timeout, invalid, Reply, fails, gives,
}
use ai_powered_codebase_engi.Searching.Service.{EmbeddingProvider, sum, token_count}

pub record SourceChunk : Type 0 where
  pub id : ℕ
  pub text : Text

pub record SearchDocument (V : Type 0) : Type 0 where
  pub search_index_id : ℕ
  pub source_index_id : ℕ
  pub chunk_id : ℕ
  pub search_text : Text
  pub input_hash : ℕ
  pub token_count : ℕ
  pub embedding : Option V

-- The rows that the worker shares with others: the jobs and the documents.
pub record World (V : Type 0) : Type 0 where
  pub jobs : List SearchIndex
  pub documents : List (SearchDocument V)

-- How many transactions have begun, and what the last one has left.
pub record Moment (V : Type 0) : Type 0 where
  pub tick : ℕ
  pub world : World V

-- `LeaseLost`, or any other exception.
pub data Stop : Type 0 where
  lost : Stop
  broke : Raised → Stop

pub data Progress {ℓ} (V : Type 0) (A : Type ℓ) : Type ℓ where
  stopped : Stop → Moment V → Progress V A
  going : A → Moment V → Progress V A

abbrev pub after_step {ℓ κ} :
    {V : Type 0} {A : Type ℓ} {B : Type κ}
    → Progress V A
    → (A → Moment V → Progress V B)
    → Progress V B
after_step (stopped e m) rest = stopped e m
after_step (going a m) rest = rest a m

pub record Worker (V : Type 0) : Type 0 where
  pub clock : ℕ → ℕ
  pub others : ℕ → World V → World V
  pub chunks : ℕ → List SourceChunk
  pub lexical_text : Text → Text
  pub sha256 : Text → ℕ
  pub token_parts : Text → List (List ℕ)
  pub provider : Option (EmbeddingProvider V)
  pub message : String → String

unfoldable pub document_id : {V : Type 0} → SearchDocument V → ℕ
document_id d = d.chunk_id

-- The chunks that have a document of a search index.
unfoldable pub done_ids : {V : Type 0} → ℕ → List (SearchDocument V) → List ℕ
unfolding document_id
done_ids job_id documents =
    map document_id (select_where (λ d. d.search_index_id == job_id) documents)

abbrev pub chunk_id : SourceChunk → ℕ
chunk_id c = c.id

-- `[c for c in chunks if c.id not in done]`
unfoldable pub pending_of : List ℕ → List SourceChunk → List SourceChunk
pending_of finished [] = []
pending_of finished (c ∷ cs) =
    let rest = pending_of finished cs in if contains finished c.id then rest else c ∷ rest

-- `pending[start : start + 8]` for each start; `fuel` is at least the length.
unfoldable pub batches : ℕ → List SourceChunk → List (List SourceChunk)
batches zero cs = []
batches (suc fuel) [] = []
batches (suc fuel) (c ∷ cs) = take 8 (c ∷ cs) ∷ batches fuel (drop 8 (c ∷ cs))

abbrev pub concat : List (List (List ℕ)) → List (List ℕ)
concat [] = []
concat (p ∷ ps) = p ++ concat ps

abbrev pub fail_with {ℓ} : {V : Type 0} {A : Type ℓ} → AppError → Moment V → Progress V A
fail_with e m = stopped (broke (failed e)) m

unfoldable pub passes_if : {V : Type 0} → Bool → AppError → Moment V → Progress V (Unit {0})
passes_if true e m = going tt m
passes_if false e m = fail_with e m

-- A statement under the lease that may raise `LeaseLost`.
unfoldable pub leased : {V : Type 0} → ℕ → Outcome → World V → Progress V (Unit {0})
leased tick committed w = going tt (record { tick = tick; world = w })
leased tick lease_lost w = stopped lost (record { tick = tick; world = w })

unfoldable pub replied {ℓ} : {V : Type 0} {A : Type ℓ} → Reply A → Moment V → Progress V A
replied (fails r) m = stopped (broke r) m
replied (gives a) m = going a m

unfoldable pub is_hybrid : Mode → Bool
is_hybrid keyword = false
is_hybrid hybrid = true

unfoldable pub stage_name : Mode → String
stage_name keyword = "lexical"
stage_name hybrid = "embedding"

module _ {V : Type 0} (worker : Worker V) (claim : Claim) where
  -- A transaction begins: others have had their turns.
  unfoldable pub turn : Moment V → Moment V
  turn m = record { tick = suc m.tick; world = worker.others m.tick m.world }

  unfoldable pub matches : Option (EmbeddingProvider V) → SearchIndex → Bool
  matches none job = false
  matches (some p) job = Model.same_text p.profile job.columns.provider_profile

  unfoldable pub found_job : Option SearchIndex → Moment V → Progress V SearchIndex
  found_job none m = stopped lost m
  found_job (some job) m = going job m

  -- The first transaction: the job with its chunks that have no document yet.
  unfoldable pub load : Moment V → Progress V (SearchIndex × List SourceChunk)
  unfolding turn matches found_job passes_if is_hybrid pending_of done_ids
  load m =
      after_step
        (found_job (find (λ (r : SearchIndex). r.id) claim.job_id (turn m).world.jobs) (turn m))
        (λ job n.
          after_step
            (passes_if (Model.same_text job.columns.pipeline_version version)
              (app_error "search_version_mismatch" 409) n)
            (λ x o.
              after_step
                (passes_if (not (is_hybrid job.columns.mode) || matches worker.provider job)
                  (app_error "embedding_configuration" 409) o)
                (λ y p.
                  going
                    (
                      job,
                      pending_of (done_ids claim.job_id p.world.documents)
                          (worker.chunks job.columns.source_index_id),
                    )
                    p)))

  unfoldable pub tokenizer : Mode → Option (EmbeddingProvider V) → Text → List (List ℕ)
  tokenizer hybrid (some p) = p.tokenize
  tokenizer hybrid none = worker.token_parts
  tokenizer keyword p = worker.token_parts

  unfoldable pub parts_of : Mode → SourceChunk → List (List ℕ)
  unfolding tokenizer
  parts_of mode c = tokenizer mode worker.provider c.text

  unfoldable pub required : Mode → List SourceChunk → ℕ
  unfolding sum parts_of
  required mode pending = sum (map (λ (c : SourceChunk). token_count (parts_of mode c)) pending)

  unfoldable pub check_budget : SearchIndex → List SourceChunk → Moment V → Progress V (Unit {0})
  unfolding required is_hybrid passes_if
  check_budget job pending m =
      passes_if
        (not (
          is_hybrid job.columns.mode
          && ltb job.columns.token_budget
              (job.columns.reserved_tokens + required job.columns.mode pending)))
        (app_error "embedding_budget_exceeded" 409) m

  unfoldable pub set_stage_of : SearchIndex → Moment V → Progress V (Unit {0})
  unfolding turn leased stage_name
  set_stage_of job m =
      let (outcome, jobs) =
        report_stage (worker.clock m.tick) claim (stage_name job.columns.mode)
          (turn m).world.jobs in
      leased (turn m).tick outcome (record { jobs = jobs; documents = (turn m).world.documents })

  unfoldable pub reserved_tokens : Result (List SearchIndex) → Moment V → Progress V (Unit {0})
  reserved_tokens (err e) m = fail_with e m
  reserved_tokens (ok jobs) m = going tt (record m { world = record m.world { jobs = jobs } })

  -- The vector of each chunk, from those of its parts
  unfoldable pub aggregates : EmbeddingProvider V → List V → List (List (List ℕ)) → List (Option V)
  aggregates provider vectors [] = []
  aggregates provider vectors (document ∷ parts) =
      some (provider.aggregate (take (length document) vectors) (map length document))
      ∷ aggregates provider (drop (length document) vectors) parts

  unfoldable pub no_vectors : List (List (List ℕ)) → List (Option V)
  no_vectors [] = []
  no_vectors (document ∷ parts) = none ∷ no_vectors parts

  unfoldable pub embed_parts :
      EmbeddingProvider V → List (List (List ℕ)) → Moment V → Progress V (List (Option V) × ℕ)
  unfolding turn reserved_tokens replied passes_if aggregates
  embed_parts provider parts m =
      after_step
        (reserved_tokens
          (reserve (worker.clock m.tick) claim (token_count (concat parts)) (turn m).world.jobs)
          (turn m))
        (λ x n. after_step (replied (provider.embed (concat parts)) n) (λ response o.
          after_step
            (passes_if
              (length response.vectors == length (concat parts)
                && response.input_tokens == token_count (concat parts))
              (app_error "embedding_invalid" 502) o)
            (λ y p. going (aggregates provider response.vectors parts, response.input_tokens) p)))

  unfoldable pub embed_batch :
      Mode
      → Option (EmbeddingProvider V)
      → List (List (List ℕ))
      → Moment V
      → Progress V (List (Option V) × ℕ)
  unfolding embed_parts no_vectors
  embed_batch keyword provider parts m = going (no_vectors parts, 0) m
  embed_batch hybrid none parts m = fail_with (app_error "embedding_configuration" 409) m
  embed_batch hybrid (some provider) parts m = embed_parts provider parts m

  unfoldable pub new_document : SearchIndex → SourceChunk → Option V → SearchDocument V
  unfolding parts_of
  new_document job c vector = record {
    search_index_id = claim.job_id;
    source_index_id = job.columns.source_index_id;
    chunk_id = c.id;
    search_text = worker.lexical_text c.text;
    input_hash = worker.sha256 c.text;
    token_count = token_count (parts_of job.columns.mode c);
    embedding = vector;
  }

  -- `zip(..., strict=True)`; the lists are of one length.
  unfoldable pub documents_of :
      SearchIndex → List SourceChunk → List (Option V) → List (SearchDocument V)
  unfolding new_document
  documents_of job [] vectors = []
  documents_of job (c ∷ cs) [] = []
  documents_of job (c ∷ cs) (v ∷ vectors) = new_document job c v ∷ documents_of job cs vectors

  unfoldable pub store_documents : List (SearchDocument V) → ℕ → Moment V → Progress V (Unit {0})
  unfolding turn leased
  store_documents documents usage m =
      let (outcome, jobs, stored) =
        checkpoint (worker.clock m.tick) claim documents usage (turn m).world.jobs
          (turn m).world.documents in
      leased (turn m).tick outcome (record { jobs = jobs; documents = stored })

  unfoldable pub run_batch : SearchIndex → List SourceChunk → Moment V → Progress V (Unit {0})
  unfolding embed_batch parts_of documents_of store_documents
  run_batch job batch m =
      after_step
        (embed_batch job.columns.mode worker.provider (map (parts_of job.columns.mode) batch) m)
        (λ made n. store_documents (documents_of job batch made.0) made.1 n)

  unfoldable pub run_batches :
      SearchIndex → List (List SourceChunk) → Moment V → Progress V (Unit {0})
  unfolding run_batch
  run_batches job [] m = going tt m
  run_batches job (batch ∷ rest) m =
      after_step (run_batch job batch m) (λ x n. run_batches job rest n)

  unfoldable pub complete_job : Moment V → Progress V (Unit {0})
  unfolding turn leased
  complete_job m =
      let (outcome, jobs) =
        publish (worker.clock m.tick) (worker.clock m.tick) claim (λ c. c) (turn m).world.jobs in
      leased (turn m).tick outcome (record { jobs = jobs; documents = (turn m).world.documents })

  -- The `try` block
  unfoldable pub prepare : Moment V → Progress V (Unit {0})
  unfolding load check_budget set_stage_of run_batches batches complete_job
  prepare m = after_step (load m) (λ loaded n. after_step (check_budget loaded.0 loaded.1 n) (λ x o.
      after_step (set_stage_of loaded.0 o) (λ y p.
        after_step (run_batches loaded.0 (batches (length loaded.1) loaded.1) p)
          (λ z q. complete_job q))))

  unfoldable pub failure_code : Raised → String
  failure_code (failed e) = e.code
  failure_code (usage_error e i o) = e.code
  failure_code timeout = "search_timeout"
  failure_code invalid = "search_preparation_failed"

  unfoldable pub failure_of : Raised → ImportFailure
  unfolding failure_code
  failure_of r = record {
    code = failure_code r;
    message = worker.message (failure_code r);
    retryable = false;
  }

  -- The `except` clauses
  unfoldable pub handled : Progress V (Unit {0}) → World V
  unfolding turn failure_of
  handled (going x m) = m.world
  handled (stopped lost m) = m.world
  handled (stopped (broke r) m) = record {
    jobs =
        record_abandon (worker.clock m.tick) (worker.clock m.tick) claim (failure_of r)
          (turn m).world.jobs;
    documents = (turn m).world.documents;
  }

  unfoldable pub run_claimed : Moment V → World V
  unfolding prepare handled
  run_claimed m = handled (prepare m)

module _ {V : Type 0} (worker : Worker V) where
  unfoldable pub run_if : Option Claim → World V → World V
  unfolding run_claimed
  run_if none w = w
  run_if (some claim) w = run_claimed worker claim (record { tick = 1; world = w })

  -- `run_preparation`; `lease` is the new token.
  unfoldable pub run_preparation : List Repository → ℕ → ℕ → World V → World V
  unfolding run_if
  run_preparation repositories lease job_id w =
      let (claim, jobs) = claim_job repositories (worker.clock 0) lease job_id w.jobs in
      run_if claim (record w { jobs = jobs })
