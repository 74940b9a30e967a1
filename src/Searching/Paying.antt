-- ===== src/Searching/Paying.antt =====
-- The log of calls of services/search.py.
use ai_powered_codebase_engi.Prelude.{
  ℕ, ◌≡◌, refl, sym, ap, ◌∙◌, subst, Bool, true, false, ◌||◌, not, Option, none, some, List, [],
  ◌∷◌, ◌++◌, is_some, ◌==◌, length, map, ◌⊎◌, inl, inr, String,
}
use ai_powered_codebase_engi.Prelude.Result.{AppError, app_error}
use ai_powered_codebase_engi.Limits.Model.{Limit}
use ai_powered_codebase_engi.Runs.Model.{Text}
use ai_powered_codebase_engi.Receipts.Model.{query_embedding}
use ai_powered_codebase_engi.Search.Model
use ai_powered_codebase_engi.Search.Model.{Mode, keyword, hybrid, SearchIndex}
use ai_powered_codebase_engi.Ranking.Model.{Ranked, fuse, distinct_from}
use ai_powered_codebase_engi.Calls.Model.{
  failed, usage_error, timeout, invalid, checked_owner, checked_limits, embedded, Action, raised,
  done, ◌>>=◌, call, ask, fail_if, begin_if, finish_if, settle_usage,
}
use ai_powered_codebase_engi.Calls.Conduct.{
  unpaid, settled, Stage, bill, set_bill, allowed, same_limits, same_limits_refl, advance, run,
  Leads, bind-Leads, call-Leads, ask-Leads, fail_if-Leads, done-Leads,
}
use ai_powered_codebase_engi.Calls.Paying.{
  IsBegun, IsCalled, begin_if-Leads, finish_if-Leads, settle_usage-Leads,
}
use ai_powered_codebase_engi.Searching.Model.{SearchRequest, SearchHit, build_context}
use ai_powered_codebase_engi.Searching.Service.{
  SearchService, Source, ChunkRow, EmbeddingProvider, QueryEmbedding, token_count, require_index,
  require_chunk, chunk_of, hits_of, ids_of, rescue_timeout, tie_of, embedding_of, embed_parts,
  embed_with, embed_query, response_of, search_limits, rank_candidates, or_hybrid, search_calls,
}

-- Before the search: the answer's quota was checked.
pub record IsStart (search_quota : List Limit) (s : Stage) : Type 0 where
  pub admitted : s.admitted ≡ true
  pub quota : s.search_quota ≡ search_quota
  pub embedding : s.embedding ≡ unpaid
  pub generating : s.generating ≡ unpaid

pub or_true : (b : Bool) → (b || true) ≡ true
or_true true = refl
or_true false = refl

-- After it: nothing is owed, and the quota was checked.
pub record IsSearched (s : Stage) : Type 0 where
  pub admitted : s.admitted ≡ true
  pub paid : (s.embedding ≡ unpaid) ⊎ (s.embedding ≡ settled)
  pub generating : s.generating ≡ unpaid

module _ {T V : Type 0} (service : SearchService T V) where
  abbrev kept : Bool
  kept = is_some service.receipts

  -- A search may be made thirty times a minute by a user.
  abbrev pub quota : List Limit
  quota = record { key = service.user_key; count = 30; seconds = 60 } ∷ []

  -- A step that logs nothing.
  abbrev Silent {ℓ} : {A : Type ℓ} → Action A → Type 0
  Silent (raised es r) = es ≡ []
  Silent (done es a) = es ≡ []

  Silent-Leads {ℓ} :
      {A : Type ℓ} (act : Action A) (s : Stage) → Silent act → Leads kept s act (λ _ t. t ≡ s)
  Silent-Leads (raised es r) s h = (s, unfold run in ap (λ l. run kept l s) h)
  Silent-Leads (done es a) s h = (s, unfold run in ap (λ l. run kept l s) h, refl)

  hits_of-Silent : (chunks : List ChunkRow) (items : List Ranked) → Silent (hits_of chunks items)
  unfolding hits_of
  hits_of-Silent chunks [] = refl
  hits_of-Silent chunks (item ∷ items) =
      first (require_chunk item (chunk_of item.chunk_id chunks))
        (require-Silent (chunk_of item.chunk_id chunks)) (hits_of chunks items)
        (hits_of-Silent chunks items)
    where
      require-Silent : (o : Option ChunkRow) → Silent (require_chunk item o)
      require-Silent none = unfold require_chunk in refl
      require-Silent (some c) = unfold require_chunk in refl

      first :
          (act : Action SearchHit)
          → Silent act
          → (rest : Action (List SearchHit)) → Silent rest
          → Silent (act >>= λ hit. rest >>= λ hits. done [] (hit ∷ hits))
      first (raised es r) h rest k = h
      first (done es a) h (raised fs r) k = ap (λ l. l ++ fs) h ∙ k
      first (done es a) h (done fs b) k = ap (λ l. l ++ (fs ++ [])) h ∙ ap (λ l. l ++ []) k

  rank_candidates-Leads :
      (request : SearchRequest) (source : Source) (index : SearchIndex) (e : QueryEmbedding)
      (channels : List (String × List ℕ)) (s : Stage)
      → IsSearched s
      → Leads kept s (rank_candidates service request source index e channels) (λ _ t. IsSearched t)
  unfolding rank_candidates
  rank_candidates-Leads request source index e channels s h =
      bind-Leads kept s (ask (service.chunks source.id (distinct_from [] (ids_of channels)))) _
        (λ _ t. t ≡ s) (λ _ t. IsSearched t) (ask-Leads kept s _)
        (λ chunks t q.
          bind-Leads kept t (hits_of chunks (fuse (tie_of service chunks) channels request.top_k)) _
            (λ _ u. u ≡ t) (λ _ t. IsSearched t) (Silent-Leads _ t (hits_of-Silent chunks _))
            (λ hits u r.
              done-Leads kept u
                (response_of service request source index e hits (
                  build_context service.tokens source.commit_sha request.context_token_budget hits))
                (λ _ t. IsSearched t) (subst IsSearched (sym (r ∙ q)) h)))

  -- The embedding is settled as soon as its result is known.
  embed_parts-Leads :
      (provider : EmbeddingProvider V) (index_id : ℕ) (parts : List (List ℕ)) (s : Stage)
      → IsStart quota s
      → s.limited ≡ true
      → Leads kept s (embed_parts service provider index_id parts) (λ _ t. IsSearched t)
  unfolding embed_parts
  embed_parts-Leads provider index_id parts s h a =
      bind-Leads kept s
        (begin_if service.receipts query_embedding provider.profile service.embedding_price 0) _
        (IsBegun service.receipts query_embedding s) (λ _ t. IsSearched t)
        (begin_if-Leads service.receipts query_embedding provider.profile service.embedding_price 0
          s both open_bill)
        (λ id t b.
          bind-Leads kept t
            (settle_usage service.receipts query_embedding id
              (call (embedded parts) (provider.embed parts)))
            _ (λ _ u. IsCalled service.receipts query_embedding s id u) (λ _ t. IsSearched t)
            (settle_usage-Leads service.receipts query_embedding id s t (embedded parts)
              (provider.embed parts) both open_bill (λ v. unfold advance in refl) b)
            (λ response u c.
              bind-Leads kept u
                (finish_if service.receipts query_embedding id response.input_tokens 0) _
                (λ _ v. v ≡ set_bill query_embedding settled s) (λ _ t. IsSearched t)
                (finish_if-Leads service.receipts query_embedding id response.input_tokens 0 s u c)
                (λ x v q.
                  bind-Leads kept v
                    (fail_if
                      (not (length response.vectors == length parts)
                        || not (response.input_tokens == token_count parts))
                      (app_error "embedding_invalid" 502))
                    _ (λ _ w. w ≡ v) (λ _ t. IsSearched t) (fail_if-Leads kept v _ _)
                    (λ y w r.
                      bind-Leads kept w
                        (ask (
                          service.vector index_id
                            (provider.aggregate response.vectors (map length parts))))
                        _ (λ _ z. z ≡ w) (λ _ t. IsSearched t) (ask-Leads kept w _)
                        (λ found z k.
                          done-Leads kept z (embedding_of service found response)
                            (λ _ t. IsSearched t) (subst IsSearched (sym (k ∙ r ∙ q)) after))))))
    where
      both : allowed query_embedding s ≡ true
      both = rw (h.admitted, a) refl

      open_bill : bill query_embedding s ≡ unpaid
      open_bill = unfold bill in h.embedding

      after : IsSearched (set_bill query_embedding settled s)
      after =
          unfold set_bill in
          record { admitted = h.admitted; paid = inr refl; generating = h.generating }

  embed_query-Leads :
      (mode : Mode) (index : SearchIndex) (query : Text) (s : Stage)
      → IsStart quota s
      → s.limited ≡ true
      → Leads kept s (embed_query service mode index query) (λ _ t. IsSearched t)
  unfolding embed_query
  embed_query-Leads keyword index query s h a =
      unfold run in
      (s, refl, record { admitted = h.admitted; paid = inl h.embedding; generating = h.generating })
  embed_query-Leads hybrid index query s h a = with_provider service.provider
    where
      with_provider :
          (o : Option (EmbeddingProvider V))
          → Leads kept s (embed_with service o index query) (λ _ t. IsSearched t)
      with_provider none = unfold embed_with in unfold run in (s, refl)
      with_provider (some provider) =
          unfold embed_with in
          bind-Leads kept s
            (fail_if (not service.embeddings_enabled) (app_error "embeddings_disabled" 409)) _
            (λ _ t. t ≡ s) (λ _ t. IsSearched t) (fail_if-Leads kept s _ _)
            (λ x t q.
              bind-Leads kept t
                (fail_if (not (Model.same_text provider.profile index.columns.provider_profile))
                  (app_error "embedding_profile_mismatch" 409))
                _ (λ _ u. u ≡ t) (λ _ t. IsSearched t) (fail_if-Leads kept t _ _)
                (λ y u r.
                  embed_parts-Leads provider index.id (provider.tokenize query) u
                    (subst (IsStart quota) (sym (r ∙ q)) h)
                    (ap (λ (z : Stage). z.limited) (r ∙ q) ∙ a)))

  pub search_calls-Leads :
      (request : SearchRequest) (s : Stage)
      → IsStart quota s
      → Leads kept s (search_calls service request) (λ _ t. IsSearched t)
  unfolding search_calls search_limits
  search_calls-Leads request s h =
      bind-Leads kept s (call checked_owner service.source) _ (λ _ t. t ≡ s1) (λ _ t. IsSearched t)
        (call-Leads kept s checked_owner service.source (unfold advance in refl))
        (λ source t q.
          bind-Leads kept t (require_index (index_for source)) _ (λ _ u. u ≡ t)
            (λ _ t. IsSearched t) (Silent-Leads _ t (require-Silent (index_for source)))
            (λ index u r.
              bind-Leads kept u
                (call (checked_limits (search_limits service))
                  (service.check_limits (search_limits service)))
                _ (λ _ v. v ≡ s2) (λ _ t. IsSearched t)
                (call-Leads kept u _ _ (
                  ap (λ z. advance kept z (checked_limits (search_limits service))) (r ∙ q)
                  ∙ admits))
                (λ x v k.
                  bind-Leads kept v
                    (ask (service.lexical index.id (service.query_terms request.query))) _
                    (λ _ w. w ≡ v) (λ _ t. IsSearched t) (ask-Leads kept v _)
                    (λ lexical w l.
                      bind-Leads kept w
                        (ask (service.symbols index.id (service.query_terms request.query))) _
                        (λ _ z. z ≡ w) (λ _ t. IsSearched t) (ask-Leads kept w _)
                        (λ symbols z m.
                          bind-Leads kept z (embed_query service request.mode index request.query) _
                            (λ _ t. IsSearched t) (λ _ t. IsSearched t)
                            (embed_query-Leads request.mode index request.query z
                              (subst (IsStart quota) (sym (m ∙ l ∙ k)) start2)
                              (ap (λ (y : Stage). y.limited) (m ∙ l ∙ k)))
                            (λ embedding y i.
                              rank_candidates-Leads request source index embedding
                                (("lexical", lexical) ∷ ("symbol", symbols) ∷ embedding.channels) y
                                i))))))
    where
      s1 : Stage
      s1 = record s { owned = true }

      s2 : Stage
      s2 = record s { owned = true; admitted = true; limited = true }

      admits : advance kept s1 (checked_limits (search_limits service)) ≡ some s2
      admits =
          unfold advance in
          ap
            (λ b. some (record s1 {
              admitted = b || same_limits quota s.answer_quota;
              limited = s.limited || same_limits quota s.search_quota;
            }))
            h.admitted
          ∙ ap (λ b. some (record s1 { admitted = true; limited = b }))
              (ap (λ q. s.limited || same_limits quota q) h.quota
                ∙ rw (same_limits_refl quota) (or_true s.limited))

      start2 : IsStart quota s2
      start2 = record {
        admitted = refl;
        quota = h.quota;
        embedding = h.embedding;
        generating = h.generating;
      }

      index_for : Source → Option SearchIndex
      index_for source =
          or_hybrid request.mode
            (Model.active service.repository_id source.id request.mode service.indexes)
            (Model.active service.repository_id source.id hybrid service.indexes)

      require-Silent : (o : Option SearchIndex) → Silent (require_index o)
      require-Silent none = unfold require_index in refl
      require-Silent (some index) = unfold require_index in refl

-- A failure that is named anew leaves the log as it was.
pub rescue_timeout-Leads {ℓ} :
    {A : Type ℓ} (k : Bool) (error : AppError) (act : Action A) (s : Stage) (P : A → Stage → Type 0)
    → Leads k s act P
    → Leads k s (rescue_timeout error act) P
unfolding rescue_timeout
rescue_timeout-Leads k error (raised es timeout) s P h = h
rescue_timeout-Leads k error (raised es (failed e)) s P h = h
rescue_timeout-Leads k error (raised es (usage_error e i o)) s P h = h
rescue_timeout-Leads k error (raised es invalid) s P h = h
rescue_timeout-Leads k error (done es a) s P h = h
