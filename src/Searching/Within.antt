-- ===== src/Searching/Within.antt =====
-- The context that a search returns: retrieval/context.py in services/search.py.
use ai_powered_codebase_engi.Prelude.{
  ℕ, suc, ◌+◌, ◌≤◌, ◌≡◌, refl, subst, String, List, [], ◌∷◌, ◌++◌, arith, length, leb, leb→le,
  Bool-cases, inl, inr,
}
use ai_powered_codebase_engi.Prelude.Result.{AppError}
use ai_powered_codebase_engi.Search.Model
use ai_powered_codebase_engi.Search.Model.{SearchIndex, hybrid}
use ai_powered_codebase_engi.Ranking.Model.{distinct_from, fuse}
use ai_powered_codebase_engi.Calls.Model.{
  failed, usage_error, timeout, invalid, Effect, Action, raised, done, call, ask, checked_owner,
  checked_limits, >>=-eq-done, done-value,
}
use ai_powered_codebase_engi.Searching.Model.{
  SearchRequest, SearchHit, Evidence, candidate, add_candidate, collect, build_context,
}
use ai_powered_codebase_engi.Searching.Service.{
  SearchService, SearchResponse, Source, QueryEmbedding, response_of, ids_of, hits_of, tie_of,
  require_index, or_hybrid, search_limits, embed_query, rank_candidates, rescue_timeout,
  search_calls, search,
}

-- Citation ids that count up from a number.
abbrev pub CountsFrom : ℕ → List Evidence → Type 0
CountsFrom n [] = Unit
CountsFrom n (e ∷ es) = (e.citation_id ≡ suc n) × CountsFrom (suc n) es

CountsFrom-append :
    (n : ℕ) (es : List Evidence) (e : Evidence)
    → CountsFrom n es
    → e.citation_id ≡ suc (n + length es)
    → CountsFrom n (es ++ e ∷ [])
CountsFrom-append n [] e h s = (omega (arith, s), tt)
CountsFrom-append n (f ∷ es) e h s = (h.0, CountsFrom-append (suc n) es e h.1 (omega (arith, s)))

pub record IsContext (tokens : List Evidence → ℕ) (budget : ℕ) (es : List Evidence) : Type 0 where
  pub counted : CountsFrom 0 es
  pub small : tokens es ≤ budget

module _ (tokens : List Evidence → ℕ) (commit_sha : String) (budget : ℕ) where
  add-IsContext :
      (es : List Evidence) (hit : SearchHit)
      → IsContext tokens budget es
      → IsContext tokens budget (add_candidate tokens commit_sha budget es hit)
  unfolding add_candidate
  add-IsContext es hit h =
      let more = es ++ candidate (suc (length es)) commit_sha hit ∷ [] in
      elim (Bool-cases (leb (tokens more) budget)) [
        | inl e ↦ rw e (record {
          counted =
              CountsFrom-append 0 es (candidate (suc (length es)) commit_sha hit) h.counted
                (unfold candidate in omega arith);
          small = leb→le (tokens more) budget e;
        })
        | inr e ↦ rw e h
      ]

  collect-IsContext :
      (hits : List SearchHit) (es : List Evidence)
      → IsContext tokens budget es
      → IsContext tokens budget (collect tokens commit_sha budget hits es)
  unfolding collect
  collect-IsContext [] es h = h
  collect-IsContext (hit ∷ hits) es h = collect-IsContext hits _ (add-IsContext es hit h)

pub rescue_timeout-eq-done {ℓ} :
    {A : Type ℓ} (error : AppError) (act : Action A) {es : List Effect} {a : A}
    → rescue_timeout error act ≡ done es a
    → act ≡ done es a
unfolding rescue_timeout
rescue_timeout-eq-done error (raised es timeout) e = cc
rescue_timeout-eq-done error (raised es (failed f)) e = e
rescue_timeout-eq-done error (raised es (usage_error f i o)) e = e
rescue_timeout-eq-done error (raised es invalid) e = e
rescue_timeout-eq-done error (done es a) e = e

module _ {T V : Type 0} (service : SearchService T V) where
  -- A context that is numbered and measured.
  pub record IsBudgeted (request : SearchRequest) (r : SearchResponse) : Type 0 where
    pub counted : CountsFrom 0 r.context
    pub measured : r.context_tokens ≡ service.tokens r.context
    pub small : r.context_tokens ≤ request.context_token_budget

  response-IsBudgeted :
      (request : SearchRequest) (source : Source) (index : SearchIndex) (e : QueryEmbedding)
      (hits : List SearchHit)
      → service.tokens [] ≤ request.context_token_budget
      → IsBudgeted request (
          response_of service request source index e hits
            (build_context service.tokens source.commit_sha request.context_token_budget hits))
  unfolding response_of build_context
  response-IsBudgeted request source index e hits small =
      let k =
        collect-IsContext service.tokens source.commit_sha request.context_token_budget hits []
          (record { counted = tt; small = small }) in
      record { counted = k.counted; measured = refl; small = k.small }

  ranked-IsBudgeted :
      (request : SearchRequest) (source : Source) (index : SearchIndex) (e : QueryEmbedding)
      (channels : List (String × List ℕ)) {es : List Effect} {r : SearchResponse}
      → service.tokens [] ≤ request.context_token_budget
      → rank_candidates service request source index e channels ≡ done es r
      → IsBudgeted request r
  unfolding rank_candidates
  ranked-IsBudgeted request source index e channels small q =
      let (chunks, _, _, _, q1) =
        >>=-eq-done (ask (service.chunks source.id (distinct_from [] (ids_of channels)))) _ q in
      let (hits, _, _, _, q2) =
        >>=-eq-done (hits_of chunks (fuse (tie_of service chunks) channels request.top_k)) _ q1 in
      subst (IsBudgeted request) (done-value q2)
        (response-IsBudgeted request source index e hits small)

  -- What `search` returns, for every reply of the database and the provider: the evidence is
  -- numbered from 1 without gaps, `context_tokens` is its count of tokens, and that is within the
  -- request's budget, if an empty context is.
  pub search-IsBudgeted :
      (request : SearchRequest) {es : List Effect} {r : SearchResponse}
      → service.tokens [] ≤ request.context_token_budget
      → search service request ≡ done es r
      → IsBudgeted request r
  unfolding search search_calls
  search-IsBudgeted request small q =
      let (source, _, _, _, q1) =
        >>=-eq-done (call checked_owner service.source) _
          (rescue_timeout-eq-done _ (search_calls service request) q) in
      let (index, _, _, _, q2) =
        >>=-eq-done
          (require_index (
            or_hybrid request.mode
              (Model.active service.repository_id source.id request.mode service.indexes)
              (Model.active service.repository_id source.id hybrid service.indexes)))
          _ q1 in
      let (_, _, _, _, q3) =
        >>=-eq-done
          (call (checked_limits (search_limits service))
            (service.check_limits (search_limits service)))
          _ q2 in
      let (lexical, _, _, _, q4) =
        >>=-eq-done (ask (service.lexical index.id (service.query_terms request.query))) _ q3 in
      let (symbols, _, _, _, q5) =
        >>=-eq-done (ask (service.symbols index.id (service.query_terms request.query))) _ q4 in
      let (embedding, _, _, _, q6) =
        >>=-eq-done (embed_query service request.mode index request.query) _ q5 in
      ranked-IsBudgeted request source index embedding
        (("lexical", lexical) ∷ ("symbol", symbols) ∷ embedding.channels) small q6
