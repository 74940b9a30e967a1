-- ===== src/Preparing/Tests.antt =====
-- A preparation that goes on after one document.
use ai_powered_codebase_engi.Prelude.{
  ℕ, ◌≡◌, refl, true, none, some, List, [], ◌∷◌, map, length, All,
}
use ai_powered_codebase_engi.Sql.{contains, find, select_where, update_where}
use ai_powered_codebase_engi.Jobs.Model.{Claim, running}
use ai_powered_codebase_engi.Jobs.Lease.{
  lease_condition, fenced, set_stage, report_stage, complete, publish,
}
use ai_powered_codebase_engi.Search.Model.{keyword, SearchIndex, version}
use ai_powered_codebase_engi.Search.Preparation.{add_usage, checkpoint}
use ai_powered_codebase_engi.Preparing.Model.{
  SourceChunk, SearchDocument, Moment, Progress, stopped, going, Worker, document_id, done_ids,
  chunk_id, pending_of, batches, passes_if, leased, is_hybrid, stage_name, turn, matches, found_job,
  load, tokenizer, parts_of, required, check_budget, set_stage_of, no_vectors, embed_batch,
  new_document, documents_of, store_documents, run_batch, run_batches, complete_job, prepare,
}
use ai_powered_codebase_engi.Searching.Service.{sum, token_count}
use ai_powered_codebase_engi.Preparing.Documents.{stored_ids, Stores}
use ai_powered_codebase_engi.Preparing.Resuming.{prepare-Stores, prepare_completes}

abbrev row : SearchIndex
row = record {
  id = 4;
  repository_id = 7;
  is_current = true;
  status = running;
  stage = "starting";
  attempts = 2;
  error_code = none;
  error_message = none;
  lease_token = some 9;
  lease_expires_at = some 500;
  last_dispatched_at = none;
  available_at = 0;
  started_at = some 20;
  finished_at = none;
  created_at = 0;
  columns = record {
    source_index_id = 5;
    commit_sha = "abc";
    pipeline_version = version;
    mode = keyword;
    provider_profile = "none";
    documents_stored = 1;
    reserved_tokens = 0;
    input_tokens = 0;
    token_budget = 0;
  };
}

abbrev source_chunks : List SourceChunk
source_chunks = record { id = 60; text = 97 ∷ [] } ∷ record { id = 61; text = 98 ∷ [] } ∷ []

abbrev worker : Worker ℕ
worker = record {
  clock = λ t. 100;
  others = λ t w. w;
  chunks = λ source. source_chunks;
  lexical_text = λ t. t;
  sha256 = length;
  token_parts = λ t. t ∷ [];
  provider = none;
  message = λ code. code;
}

abbrev claim : Claim
claim = record {
  job_id = 4;
  repository_id = 7;
  lease_token = 9;
  owner = "octo";
  name = "demo";
  attempt = 2;
}

abbrev document : SearchDocument ℕ
document = record {
  search_index_id = 4;
  source_index_id = 5;
  chunk_id = 60;
  search_text = 97 ∷ [];
  input_hash = 1;
  token_count = 1;
  embedding = none;
}

abbrev moment : Moment ℕ
moment = record { tick = 1; world = record { jobs = row ∷ []; documents = document ∷ [] } }

abbrev moment_of : Progress ℕ (Unit {0}) → Moment ℕ
moment_of (stopped e m) = m
moment_of (going x m) = m

found : find (λ (r : SearchIndex). r.id) 4 (turn worker claim moment).world.jobs ≡ some row
unfolding find turn
found = refl

completes : prepare worker claim moment ≡ going tt (moment_of (prepare worker claim moment))
unfolding find select_where update_where lease_condition fenced set_stage report_stage complete
    publish add_usage checkpoint document_id done_ids pending_of batches passes_if leased is_hybrid
    stage_name turn matches found_job load tokenizer parts_of required check_budget set_stage_of
    no_vectors embed_batch new_document documents_of store_documents run_batch run_batches
    complete_job prepare sum token_count
completes = refl

prepare-Stores_example :
    Stores 4
      (stored_ids 4 moment)
      (map chunk_id (pending_of (stored_ids 4 moment) source_chunks))
      (prepare worker claim moment)
prepare-Stores_example = prepare-Stores worker claim (λ t w. refl) moment row found

prepare_completes_example :
    All
      (λ (c : SourceChunk).
        contains (stored_ids 4 (moment_of (prepare worker claim moment))) c.id ≡ true)
      source_chunks
prepare_completes_example =
    prepare_completes worker claim (λ t w. refl) moment row found
      {n = moment_of (prepare worker claim moment)} completes
