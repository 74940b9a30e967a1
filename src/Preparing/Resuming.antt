-- ===== src/Preparing/Resuming.antt =====
-- Which chunks `run_preparation` of jobs/prepare_search.py stores.
use mathlib.Core.Option.{some_inj}
use mathlib.Core.List.{append-nil}
use ai_powered_codebase_engi.Prelude.{
  ℕ, ◌+◌, ◌≡◌, refl, sym, ap, ◌∙◌, subst, true, ◌&&◌, not, some, List, [], ◌∷◌, ◌++◌, map, arith,
  length, ==_refl, ltb, Bool-cases, inl, inr, All, All-map,
}
use ai_powered_codebase_engi.Prelude.Result.{app_error}
use ai_powered_codebase_engi.Sql.{contains, find}
use ai_powered_codebase_engi.Jobs.Model.{Claim}
use ai_powered_codebase_engi.Search.Model.{SearchIndex}
use ai_powered_codebase_engi.Preparing.Model.{
  done_ids, SourceChunk, World, Moment, Progress, stopped, going, after_step, Worker, chunk_id,
  pending_of, batches, passes_if, is_hybrid, turn, load, required, check_budget, set_stage_of,
  run_batches, complete_job, prepare,
}
use ai_powered_codebase_engi.Preparing.Documents.{
  stored_ids, Stores, Keeps, Any, stop-Stores, after-Stores, Keeps-Stores, passes-Keeps,
}
use ai_powered_codebase_engi.Preparing.Steps.{
  batches-concat, stage-Keeps, complete-Keeps, batches-Stores, load-Keeps,
}

module _ {V : Type 0} (worker : Worker V) (claim : Claim)
    (quiet : (t : ℕ) (w : World V)
      → done_ids claim.job_id (worker.others t w).documents
        ≡ done_ids claim.job_id w.documents) where
  same_job : {a b : SearchIndex} → some a ≡ some b → a ≡ b
  same_job e = (some_inj).0 e

  loaded-Stores :
      (earlier : List ℕ) (loaded : SearchIndex × List SourceChunk) (m : Moment V)
      → stored_ids claim.job_id m ≡ earlier
      → Stores claim.job_id earlier (map chunk_id loaded.1) (
          after_step (check_budget worker claim loaded.0 loaded.1 m) (λ x o.
            after_step (set_stage_of worker claim loaded.0 o) (λ y p.
              after_step
                (run_batches worker claim loaded.0 (batches (length loaded.1) loaded.1) p)
                (λ z q. complete_job worker claim q))))
  unfolding check_budget
  loaded-Stores earlier (job, pending) m h =
      Keeps-Stores claim.job_id earlier todo
        (passes_if
          (not (
            is_hybrid job.columns.mode
            && ltb job.columns.token_budget
                (job.columns.reserved_tokens + required worker claim job.columns.mode pending)))
          (app_error "embedding_budget_exceeded" 409) m)
        _ Any (passes-Keeps claim.job_id earlier _ _ m h)
        (λ x o k q.
          Keeps-Stores claim.job_id earlier todo (set_stage_of worker claim job o) _ Any
            (stage-Keeps worker claim quiet earlier job o k)
            (λ y p l r.
              subst
                (λ t.
                  Stores claim.job_id earlier t
                    (after_step (batched p) (λ z n. complete_job worker claim n)))
                (append-nil todo)
                (after-Stores claim.job_id earlier todo [] (batched p) _ (all_batches p l)
                  (λ z n i. completed_now n i))))
    where
      todo : List ℕ
      todo = map chunk_id pending

      batched : Moment V → Progress V (Unit {0})
      batched p = run_batches worker claim job (batches (length pending) pending) p

      all_batches :
          (p : Moment V)
          → stored_ids claim.job_id p ≡ earlier
          → Stores claim.job_id earlier todo (batched p)
      all_batches p l =
          subst (λ cs. Stores claim.job_id earlier (map chunk_id cs) (batched p))
            (batches-concat (length pending) pending (omega arith))
            (batches-Stores worker claim quiet earlier job (batches (length pending) pending) p l)

      completed_now :
          (n : Moment V)
          → stored_ids claim.job_id n ≡ earlier ++ todo
          → Stores claim.job_id (earlier ++ todo) [] (complete_job worker claim n)
      completed_now n i =
          as_stores (complete_job worker claim n)
            (complete-Keeps worker claim quiet (earlier ++ todo) n i)
        where
          as_stores :
              (p : Progress V (Unit {0}))
              → Keeps claim.job_id (earlier ++ todo) Any p
              → Stores claim.job_id (earlier ++ todo) [] p
          as_stores (stopped e n) k = stop-Stores claim.job_id (Unit {0}) (earlier ++ todo) [] e n k
          as_stores (going a n) k = k.0 ∙ sym (append-nil (earlier ++ todo))

  -- A preparation resumes where an earlier one stopped: if others leave the documents of the search
  -- index alone, and its row is there when the worker reads it, then what the worker stores, however
  -- it ends, is one document for each chunk of a first part of those that had none, in their order,
  -- and for all of them if it completes.
  pub prepare-Stores :
      (m : Moment V) (job : SearchIndex)
      → find (λ (r : SearchIndex). r.id) claim.job_id (turn worker claim m).world.jobs ≡ some job
      → Stores claim.job_id
          (stored_ids claim.job_id m)
          (map chunk_id
            (pending_of (stored_ids claim.job_id m) (worker.chunks job.columns.source_index_id)))
          (prepare worker claim m)
  unfolding prepare
  prepare-Stores m job found =
      Keeps-Stores claim.job_id (stored_ids claim.job_id m) _ (load worker claim m) _ _
        (load-Keeps worker claim quiet (stored_ids claim.job_id m) m refl)
        (λ loaded n k q.
          subst
            (λ cs.
              Stores claim.job_id (stored_ids claim.job_id m) (map chunk_id cs)
                (after_load loaded n))
            (q.1
              ∙ ap
                  (λ (j : SearchIndex).
                    pending_of (stored_ids claim.job_id m)
                      (worker.chunks j.columns.source_index_id))
                  (same_job (sym q.0 ∙ found)))
            (loaded-Stores (stored_ids claim.job_id m) loaded n k))
    where
      after_load : SearchIndex × List SourceChunk → Moment V → Progress V (Unit {0})
      after_load loaded n = after_step (check_budget worker claim loaded.0 loaded.1 n) (λ x o.
          after_step (set_stage_of worker claim loaded.0 o) (λ y p.
            after_step (run_batches worker claim loaded.0 (batches (length loaded.1) loaded.1) p)
              (λ z q. complete_job worker claim q)))

contains-right : (xs ys : List ℕ) (i : ℕ) → contains ys i ≡ true → contains (xs ++ ys) i ≡ true
contains-right [] ys i h = h
contains-right (x ∷ xs) ys i h = ground (arith, contains-right xs ys i h)

contains-left : (xs ys : List ℕ) (i : ℕ) → contains xs i ≡ true → contains (xs ++ ys) i ≡ true
contains-left [] ys i h = cc
contains-left (x ∷ xs) ys i h = ground (arith, h, contains-left xs ys i)

later_too :
    (ids more : List ℕ) (d : ℕ) (cs : List SourceChunk)
    → All (λ c. contains (ids ++ more) c.id ≡ true) cs
    → All (λ c. contains (ids ++ d ∷ more) c.id ≡ true) cs
later_too ids more d cs h = All-map (λ (c : SourceChunk) k. more_there ids c.id k) cs h
  where
    more_there :
        (xs : List ℕ) (i : ℕ) → contains (xs ++ more) i ≡ true → contains (xs ++ d ∷ more) i ≡ true
    more_there [] i k = ground (arith, k)
    more_there (x ∷ xs) i k = ground (arith, k, more_there xs i)

pending_covers :
    (ids : List ℕ) (cs : List SourceChunk)
    → All (λ c. contains (ids ++ map chunk_id (pending_of ids cs)) c.id ≡ true) cs
unfolding pending_of
pending_covers ids [] = tt
pending_covers ids (c ∷ cs) = elim (Bool-cases (contains ids c.id)) [
  | inl e ↦
      let same : pending_of ids (c ∷ cs) ≡ pending_of ids cs = rw e refl in
      subst (λ l. All (λ d. contains (ids ++ map chunk_id l) d.id ≡ true) (c ∷ cs)) (sym same)
        (contains-left ids _ c.id e, pending_covers ids cs)
  | inr e ↦
      let more : pending_of ids (c ∷ cs) ≡ c ∷ pending_of ids cs = rw e refl in
      subst (λ l. All (λ d. contains (ids ++ map chunk_id l) d.id ≡ true) (c ∷ cs)) (sym more)
        (
          contains-right ids (c.id ∷ map chunk_id (pending_of ids cs)) c.id
              (rw (==_refl c.id) refl),
          later_too ids (map chunk_id (pending_of ids cs)) c.id cs (pending_covers ids cs),
        )
]

-- A preparation that completes leaves every chunk of the source with a document, if others leave the
-- documents of the search index alone and its row is there when the worker reads it.
pub prepare_completes :
    {V : Type 0} (worker : Worker V) (claim : Claim)
    → ((t : ℕ) (w : World V)
        → done_ids claim.job_id (worker.others t w).documents ≡ done_ids claim.job_id w.documents)
    → (m : Moment V) (job : SearchIndex)
    → find (λ (r : SearchIndex). r.id) claim.job_id (turn worker claim m).world.jobs ≡ some job
    → {n : Moment V} → prepare worker claim m ≡ going tt n
    → All
        (λ c. contains (stored_ids claim.job_id n) c.id ≡ true)
        (worker.chunks job.columns.source_index_id)
prepare_completes worker claim quiet m job found {n} e =
    let stores =
      subst
        (λ p.
          Stores claim.job_id (stored_ids claim.job_id m)
            (map chunk_id
              (pending_of (stored_ids claim.job_id m) (worker.chunks job.columns.source_index_id)))
            p)
        e (prepare-Stores worker claim quiet m job found) in
    subst (λ ids. All (λ c. contains ids c.id ≡ true) (worker.chunks job.columns.source_index_id))
      (sym stores)
      (pending_covers (stored_ids claim.job_id m) (worker.chunks job.columns.source_index_id))
