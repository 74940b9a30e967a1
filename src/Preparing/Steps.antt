-- ===== src/Preparing/Steps.antt =====
-- The steps of `run_preparation` of jobs/prepare_search.py, by what they do to the documents.
use mathlib.Core.List.{append-nil, map-append}
use ai_powered_codebase_engi.Prelude.{
  ℕ, zero, suc, ◌≤◌, ◌≡◌, refl, sym, ap, ◌∙◌, subst, ◌&&◌, ◌||◌, not, Option, none, some, List, [],
  ◌∷◌, ◌++◌, map, arith, length, length-drop, length-map, take, drop, take-append-drop, ◌==◌,
  ==_refl,
}
use ai_powered_codebase_engi.Prelude.Result.{Result, ok, err, app_error}
use ai_powered_codebase_engi.Sql.{find, select_where, select_where-append}
use ai_powered_codebase_engi.Jobs.Model.{Claim}
use ai_powered_codebase_engi.Jobs.Lease.{Outcome, committed, lease_lost, fenced}
use ai_powered_codebase_engi.Search.Model
use ai_powered_codebase_engi.Search.Model.{Mode, keyword, hybrid, SearchIndex, version, reserve}
use ai_powered_codebase_engi.Search.Preparation.{checkpoint, added}
use ai_powered_codebase_engi.Searching.Service.{EmbeddingProvider, token_count}
use ai_powered_codebase_engi.Preparing.Model.{
  SourceChunk, SearchDocument, World, Moment, going, after_step, Worker, document_id, done_ids,
  chunk_id, pending_of, batches, concat, passes_if, leased, replied, is_hybrid, turn, matches,
  found_job, load, parts_of, set_stage_of, reserved_tokens, aggregates, no_vectors, embed_parts,
  embed_batch, new_document, documents_of, store_documents, run_batch, run_batches, complete_job,
}
use ai_powered_codebase_engi.Preparing.Documents.{
  stored_ids, Stores, Keeps, Any, after-Stores, Keeps-Stores, bind-Keeps, passes-Keeps,
  replied-Keeps, leased-Keeps,
}

unfoldable pub concat_batches : List (List SourceChunk) → List SourceChunk
concat_batches [] = []
concat_batches (b ∷ bs) = b ++ concat_batches bs

pub batches-concat :
    (fuel : ℕ) (cs : List SourceChunk) → length cs ≤ fuel → concat_batches (batches fuel cs) ≡ cs
unfolding concat_batches batches
batches-concat zero [] h = refl
batches-concat zero (c ∷ cs) h = absurd (omega (arith, h))
batches-concat (suc fuel) [] h = refl
batches-concat (suc fuel) (c ∷ cs) h =
    ap (λ l. take 8 (c ∷ cs) ++ l)
      (batches-concat fuel (drop 8 (c ∷ cs)) (omega (arith, h, length-drop 8 (c ∷ cs))))
    ∙ take-append-drop 8 (c ∷ cs)

module _ {V : Type 0} (worker : Worker V) (claim : Claim)
    (quiet : (t : ℕ) (w : World V)
      → done_ids claim.job_id (worker.others t w).documents
        ≡ done_ids claim.job_id w.documents) where
  done_ids-append :
      (ds es : List (SearchDocument V))
      → done_ids claim.job_id (ds ++ es) ≡ done_ids claim.job_id ds ++ done_ids claim.job_id es
  unfolding done_ids
  done_ids-append ds es =
      ap (map document_id) (select_where-append _ ds es)
      ∙ map-append document_id (select_where _ ds) (select_where _ es)

  turn_keeps :
      (m : Moment V) → stored_ids claim.job_id (turn worker claim m) ≡ stored_ids claim.job_id m
  unfolding turn
  turn_keeps m = quiet m.tick m.world

  pub stage-Keeps :
      (earlier : List ℕ) (job : SearchIndex) (m : Moment V)
      → stored_ids claim.job_id m ≡ earlier
      → Keeps claim.job_id earlier Any (set_stage_of worker claim job m)
  unfolding set_stage_of
  stage-Keeps earlier job m h = leased-Keeps claim.job_id earlier _ _ _ (turn_keeps m ∙ h)

  pub complete-Keeps :
      (earlier : List ℕ) (m : Moment V)
      → stored_ids claim.job_id m ≡ earlier
      → Keeps claim.job_id earlier Any (complete_job worker claim m)
  unfolding complete_job
  complete-Keeps earlier m h = leased-Keeps claim.job_id earlier _ _ _ (turn_keeps m ∙ h)

  reserved-Keeps :
      (earlier : List ℕ) (r : Result (List SearchIndex)) (m : Moment V)
      → stored_ids claim.job_id m ≡ earlier
      → Keeps claim.job_id earlier Any (reserved_tokens worker claim r m)
  unfolding reserved_tokens
  reserved-Keeps earlier (err e) m h = h
  reserved-Keeps earlier (ok jobs) m h = (h, tt)

  aggregates-length :
      (provider : EmbeddingProvider V) (vectors : List V) (parts : List (List (List ℕ)))
      → length (aggregates worker claim provider vectors parts) ≡ length parts
  unfolding aggregates
  aggregates-length provider vectors [] = refl
  aggregates-length provider vectors (d ∷ parts) =
      ap suc (aggregates-length provider (drop (length d) vectors) parts)

  no_vectors-length :
      (parts : List (List (List ℕ))) → length (no_vectors worker claim parts) ≡ length parts
  unfolding no_vectors
  no_vectors-length [] = refl
  no_vectors-length (d ∷ parts) = ap suc (no_vectors-length parts)

  -- As many vectors as chunks.
  abbrev Fit : List (List (List ℕ)) → List (Option V) × ℕ → Type 0
  Fit parts made = length made.0 ≡ length parts

  embed-Keeps :
      (earlier : List ℕ) (mode : Mode) (provider : Option (EmbeddingProvider V))
      (parts : List (List (List ℕ))) (m : Moment V)
      → stored_ids claim.job_id m ≡ earlier
      → Keeps claim.job_id earlier (Fit parts) (embed_batch worker claim mode provider parts m)
  unfolding embed_batch embed_parts
  embed-Keeps earlier keyword provider parts m h = (h, no_vectors-length parts)
  embed-Keeps earlier hybrid none parts m h = h
  embed-Keeps earlier hybrid (some provider) parts m h =
      bind-Keeps claim.job_id earlier
        (reserved_tokens worker claim
          (reserve (worker.clock m.tick) claim (token_count (concat parts))
            (turn worker claim m).world.jobs)
          (turn worker claim m))
        _ Any (Fit parts) (reserved-Keeps earlier _ (turn worker claim m) (turn_keeps m ∙ h))
        (λ x n k q.
          bind-Keeps claim.job_id earlier (replied (provider.embed (concat parts)) n) _ Any
            (Fit parts) (replied-Keeps claim.job_id earlier _ n k)
            (λ response o l r.
              bind-Keeps claim.job_id earlier
                (passes_if
                  (length response.vectors == length (concat parts)
                    && response.input_tokens == token_count (concat parts))
                  (app_error "embedding_invalid" 502) o)
                _ Any (Fit parts) (passes-Keeps claim.job_id earlier _ _ o l)
                (λ y p i j. (i, aggregates-length provider response.vectors parts))))

  documents-ids :
      (job : SearchIndex) (cs : List SourceChunk) (vectors : List (Option V))
      → length vectors ≡ length cs
      → done_ids claim.job_id (documents_of worker claim job cs vectors) ≡ map chunk_id cs
  unfolding documents_of new_document done_ids select_where document_id
  documents-ids job [] vectors h = refl
  documents-ids job (c ∷ cs) [] h = absurd (omega (arith, h))
  documents-ids job (c ∷ cs) (v ∷ vectors) h =
      rw (==_refl claim.job_id)
        (ap (λ l. c.id ∷ l) (documents-ids job cs vectors (omega (arith, h))))

  store-Stores :
      (earlier : List ℕ) (documents : List (SearchDocument V)) (usage : ℕ) (m : Moment V)
      → stored_ids claim.job_id m ≡ earlier
      → Stores claim.job_id earlier
          (done_ids claim.job_id documents)
          (store_documents worker claim documents usage m)
  unfolding store_documents checkpoint
  store-Stores earlier documents usage m h =
      go (fenced (worker.clock m.tick) claim _ (turn worker claim m).world.jobs)
    where
      go :
          (r : Outcome × List SearchIndex)
          → Stores claim.job_id earlier (done_ids claim.job_id documents) (
              leased (turn worker claim m).tick r.0 (record {
                jobs = r.1;
                documents = added (turn worker claim m).world.documents documents r.0;
              }))
      go (committed, jobs) =
          unfold leased in
          (done_ids-append (turn worker claim m).world.documents documents
            ∙ ap (λ l. l ++ done_ids claim.job_id documents) (turn_keeps m ∙ h))
      go (lease_lost, jobs) =
          unfold leased in
          record {
            stored = [];
            missing = done_ids claim.job_id documents;
            split = refl;
            ids = turn_keeps m ∙ h ∙ sym (append-nil earlier);
          }

  batch-Stores :
      (earlier : List ℕ) (job : SearchIndex) (batch : List SourceChunk) (m : Moment V)
      → stored_ids claim.job_id m ≡ earlier
      → Stores claim.job_id earlier (map chunk_id batch) (run_batch worker claim job batch m)
  unfolding run_batch
  batch-Stores earlier job batch m h =
      Keeps-Stores claim.job_id earlier (map chunk_id batch)
        (embed_batch worker claim job.columns.mode worker.provider
          (map (parts_of worker claim job.columns.mode) batch) m)
        _ (Fit (map (parts_of worker claim job.columns.mode) batch))
        (embed-Keeps earlier job.columns.mode worker.provider
          (map (parts_of worker claim job.columns.mode) batch) m h)
        (λ made n k fit.
          subst
            (λ l.
              Stores claim.job_id earlier l (
                store_documents worker claim (documents_of worker claim job batch made.0) made.1 n))
            (documents-ids job batch made.0 (fit ∙ length-map _ batch))
            (store-Stores earlier (documents_of worker claim job batch made.0) made.1 n k))

  pub batches-Stores :
      (earlier : List ℕ) (job : SearchIndex) (bs : List (List SourceChunk)) (m : Moment V)
      → stored_ids claim.job_id m ≡ earlier
      → Stores claim.job_id earlier
          (map chunk_id (concat_batches bs))
          (run_batches worker claim job bs m)
  unfolding run_batches concat_batches
  batches-Stores earlier job [] m h = h ∙ sym (append-nil earlier)
  batches-Stores earlier job (b ∷ bs) m h =
      subst
        (λ l.
          Stores claim.job_id earlier l (
            after_step (run_batch worker claim job b m) (λ x n. run_batches worker claim job bs n)))
        (sym (map-append chunk_id b (concat_batches bs)))
        (after-Stores claim.job_id earlier (map chunk_id b) (map chunk_id (concat_batches bs))
          (run_batch worker claim job b m) _ (batch-Stores earlier job b m h)
          (λ x n k. batches-Stores (earlier ++ map chunk_id b) job bs n k))

  abbrev pub Loaded : List ℕ → Option SearchIndex → SearchIndex × List SourceChunk → Type 0
  Loaded earlier o loaded =
      (o ≡ some loaded.0)
      × (loaded.1 ≡ pending_of earlier (worker.chunks loaded.0.columns.source_index_id))

  pub load-Keeps :
      (earlier : List ℕ) (m : Moment V)
      → stored_ids claim.job_id m ≡ earlier
      → Keeps claim.job_id earlier
          (Loaded earlier
            (find (λ (r : SearchIndex). r.id) claim.job_id (turn worker claim m).world.jobs))
          (load worker claim m)
  unfolding load
  load-Keeps earlier m h =
      go (find (λ (r : SearchIndex). r.id) claim.job_id (turn worker claim m).world.jobs)
    where
      go :
          (o : Option SearchIndex)
          → Keeps claim.job_id earlier (Loaded earlier o) (
              after_step (found_job worker claim o (turn worker claim m)) (λ job n.
                after_step
                  (passes_if
                    (Model.same_text job.columns.pipeline_version version)
                    (app_error "search_version_mismatch" 409)
                    n)
                  (λ x o.
                    after_step
                      (passes_if
                        (not (is_hybrid job.columns.mode)
                          || matches worker claim worker.provider job)
                        (app_error "embedding_configuration" 409)
                        o)
                      (λ y p.
                        going
                          (
                            job,
                            pending_of
                                (done_ids claim.job_id p.world.documents)
                                (worker.chunks job.columns.source_index_id),
                          )
                          p))))
      go none = unfold found_job in (turn_keeps m ∙ h)
      go (some job) =
          unfold found_job in
          bind-Keeps claim.job_id earlier
            (passes_if (Model.same_text job.columns.pipeline_version version)
              (app_error "search_version_mismatch" 409) (turn worker claim m))
            _ Any (Loaded earlier (some job))
            (passes-Keeps claim.job_id earlier _ _ _ (turn_keeps m ∙ h))
            (λ x o k q.
              bind-Keeps claim.job_id earlier
                (passes_if
                  (not (is_hybrid job.columns.mode) || matches worker claim worker.provider job)
                  (app_error "embedding_configuration" 409) o)
                _ Any (Loaded earlier (some job)) (passes-Keeps claim.job_id earlier _ _ o k)
                (λ y p l r. (
                  l,
                  (refl, ap (λ ids. pending_of ids (worker.chunks job.columns.source_index_id)) l),
                )))
