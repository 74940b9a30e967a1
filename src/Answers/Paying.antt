-- ===== src/Answers/Paying.antt =====
-- The log of calls of services/answers.py.
use ai_powered_codebase_engi.Prelude.{
  ℕ, ◌≡◌, refl, sym, ap, ◌∙◌, subst, Bool, true, not, Option, none, some, List, [], ◌∷◌, is_some,
  ◌⊎◌, inl, inr,
}
use ai_powered_codebase_engi.Prelude.Result.{AppError, app_error}
use ai_powered_codebase_engi.Limits.Model.{Limit}
use ai_powered_codebase_engi.Runs.Model.{Text, HistoryTurn}
use ai_powered_codebase_engi.Receipts.Model.{generation}
use ai_powered_codebase_engi.Context.Model as Context
use ai_powered_codebase_engi.Context.Model.{bounded_history}
use ai_powered_codebase_engi.Calls.Model.{
  failed, usage_error, timeout, invalid, checked_owner, checked_limits, generated, Action, raised,
  done, call, ask, of_result, fail_if, begin_if, finish_if, settle_usage,
}
use ai_powered_codebase_engi.Calls.Conduct.{
  unpaid, settled, Stage, fresh, same_limits, same_limits_refl, bill, set_bill, advance, run, Leads,
  bind-Leads, call-Leads, ask-Leads, fail_if-Leads, done-Leads,
}
use ai_powered_codebase_engi.Calls.Paying.{
  IsBegun, IsCalled, begin_if-Leads, finish_if-Leads, settle_usage-Leads,
}
use ai_powered_codebase_engi.Searching.Model.{SearchRequest, Evidence}
use ai_powered_codebase_engi.Searching.Service.{rescue_timeout, search_calls, search}
use ai_powered_codebase_engi.Searching.Paying
use ai_powered_codebase_engi.Searching.Paying.{
  IsStart, IsSearched, search_calls-Leads, rescue_timeout-Leads,
}
use ai_powered_codebase_engi.Answers.Model.{
  AnswerRequest, AnswerProvider, AnswerService, is_other_source, check_citations, generate_with,
  validated, rescue_invalid, generation_of, require_provider, answer_limits, generate_paid,
  generate_from, response_of, request_of, answer_calls, answer,
}
use ai_powered_codebase_engi.Answers.Contracts.{is_result}

rescue_invalid-Leads {ℓ} :
    {A : Type ℓ} (k : Bool) (error : AppError) (act : Action A) (s : Stage) (P : A → Stage → Type 0)
    → Leads k s act P
    → Leads k s (rescue_invalid error act) P
unfolding rescue_invalid
rescue_invalid-Leads k error (raised es timeout) s P h = h
rescue_invalid-Leads k error (raised es (failed e)) s P h = h
rescue_invalid-Leads k error (raised es (usage_error e i o)) s P h = h
rescue_invalid-Leads k error (raised es invalid) s P h = h
rescue_invalid-Leads k error (done es a) s P h = h

-- After an answer nothing is owed.
pub record IsSettled (s : Stage) : Type 0 where
  pub embedding : (s.embedding ≡ unpaid) ⊎ (s.embedding ≡ settled)
  pub generating : (s.generating ≡ unpaid) ⊎ (s.generating ≡ settled)

module _ {T V : Type 0} (service : AnswerService T V)
    (shared : service.search.receipts ≡ service.receipts) where
  abbrev keeps : Bool
  keeps = is_some service.receipts

  -- What admits an answer: five a minute and thirty a day for the user, and the day's limit of the
  -- deployment.
  abbrev pub quota : List Limit
  quota =
      record { key = service.minute_key; count = 5; seconds = 60 }
      ∷ record { key = service.day_key; count = 30; seconds = 86400 }
      ∷ record {
        key = "answer:deployment:day";
        count = service.daily_request_limit;
        seconds = 86400;
      }
      ∷ []

  abbrev pub start : Stage
  start = fresh quota (Paying.quota service.search)

  generate_paid-Leads :
      (on_delta : Bool) (provider : AnswerProvider) (evidence : List Evidence) (payload : Text)
      (included : List HistoryTurn) (s : Stage)
      → IsSearched s
      → Leads keeps s
          (generate_paid service on_delta provider evidence payload included)
          (λ _ t. IsSettled t)
  unfolding generate_paid
  generate_paid-Leads on_delta provider evidence payload included s h =
      bind-Leads keeps s
        (begin_if service.receipts generation provider.model service.input_price
          service.output_price)
        _ (IsBegun service.receipts generation s) (λ _ t. IsSettled t)
        (begin_if-Leads service.receipts generation provider.model service.input_price
          service.output_price s h.admitted open_bill)
        (λ id t b.
          bind-Leads keeps t
            (settle_usage service.receipts generation id
              (call (generated payload) (generate_with on_delta provider payload)))
            _ (λ _ u. IsCalled service.receipts generation s id u) (λ _ t. IsSettled t)
            (settle_usage-Leads service.receipts generation id s t (generated payload)
              (generate_with on_delta provider payload) h.admitted open_bill
              (λ v. unfold advance in refl) b)
            (λ result u c.
              bind-Leads keeps u (ask (validated (is_result service.blank result))) _ (λ _ v. v ≡ u)
                (λ _ t. IsSettled t) (ask-Leads keeps u _)
                (λ x v q.
                  bind-Leads keeps v
                    (finish_if service.receipts generation id result.input_tokens
                      result.output_tokens)
                    _ (λ _ w. w ≡ set_bill generation settled s) (λ _ t. IsSettled t)
                    (finish_if-Leads service.receipts generation id result.input_tokens
                      result.output_tokens s v
                      (subst (IsCalled service.receipts generation s id) (sym q) c))
                    (λ y w r.
                      bind-Leads keeps w (ask (of_result (check_citations result.draft evidence))) _
                        (λ _ z. z ≡ w) (λ _ t. IsSettled t) (ask-Leads keeps w _)
                        (λ found z k.
                          done-Leads keeps z (generation_of service result included)
                            (λ _ t. IsSettled t) (subst IsSettled (sym (k ∙ r)) after))))))
    where
      open_bill : bill generation s ≡ unpaid
      open_bill = unfold bill in h.generating

      after : IsSettled (set_bill generation settled s)
      after = unfold set_bill in record { embedding = h.paid; generating = inr refl }

  generate_from-Leads :
      (on_delta : Bool) (provider : AnswerProvider) (question : Text) (history : List HistoryTurn)
      (evidence : List Evidence) (s : Stage)
      → IsSearched s
      → Leads keeps s
          (generate_from service on_delta provider question history evidence)
          (λ _ t. IsSettled t)
  unfolding generate_from
  generate_from-Leads on_delta provider question history [] s h =
      unfold run in (s, refl, record { embedding = h.paid; generating = inl h.generating })
  generate_from-Leads on_delta provider question history (e ∷ evidence) s h =
      bind-Leads keeps s
        (ask (of_result (Context.build_context service.encoder question (e ∷ evidence) history))) _
        (λ _ t. t ≡ s) (λ _ t. IsSettled t) (ask-Leads keeps s _)
        (λ built t q.
          generate_paid-Leads on_delta provider (e ∷ evidence) built.0 built.1 t
            (subst IsSearched (sym q) h))

  search-Leads :
      (request : SearchRequest) (s : Stage)
      → IsStart (Paying.quota service.search) s
      → Leads keeps s (search service.search request) (λ _ t. IsSearched t)
  unfolding search
  search-Leads request s h =
      subst
        (λ w.
          Leads (is_some w) s
            (rescue_timeout (app_error "retrieval_timeout" 503)
              (search_calls service.search request))
            (λ _ t. IsSearched t))
        shared
        (rescue_timeout-Leads (is_some service.search.receipts) _
          (search_calls service.search request) s _ (search_calls-Leads service.search request s h))

  require-Leads :
      (o : Option AnswerProvider) (s : Stage)
      → Leads keeps s (require_provider service o) (λ _ t. t ≡ s)
  unfolding require_provider
  require-Leads none s = unfold run in (s, refl)
  require-Leads (some provider) s =
      bind-Leads keeps s (fail_if (not service.answers_enabled) (app_error "answers_disabled" 409))
        _ (λ _ t. t ≡ s) (λ _ t. t ≡ s) (fail_if-Leads keeps s _ _)
        (λ x t q. done-Leads keeps t provider (λ _ u. u ≡ s) q)

  calls-Leads :
      (answer_id : ℕ) (request : AnswerRequest) (expected : Option ℕ) (history : List HistoryTurn)
      (on_delta : Bool)
      → Leads keeps start
          (answer_calls service answer_id request expected history on_delta)
          (λ _ t. IsSettled t)
  unfolding answer_calls answer_limits
  calls-Leads answer_id request expected history on_delta =
      bind-Leads keeps start (call checked_owner service.owned) _ (λ _ t. t ≡ s1)
        (λ _ t. IsSettled t)
        (call-Leads keeps start checked_owner service.owned (unfold advance in refl))
        (λ x t q.
          bind-Leads keeps t (require_provider service service.provider) _ (λ _ u. u ≡ t)
            (λ _ t. IsSettled t) (require-Leads service.provider t)
            (λ provider u r.
              bind-Leads keeps u
                (call (checked_limits (answer_limits service))
                  (service.check_limits (answer_limits service)))
                _ (λ _ v. v ≡ s2) (λ _ t. IsSettled t)
                (call-Leads keeps u _ _ (
                  ap (λ z. advance keeps z (checked_limits (answer_limits service))) (r ∙ q)
                  ∙ admits))
                (λ y v k.
                  bind-Leads keeps v
                    (ask (service.validated_request (request_of service request history))) _
                    (λ _ w. w ≡ v) (λ _ t. IsSettled t) (ask-Leads keeps v _)
                    (λ wanted w l.
                      bind-Leads keeps w (search service.search wanted) _ (λ _ t. IsSearched t)
                        (λ _ t. IsSettled t)
                        (search-Leads wanted w
                          (subst (IsStart (Paying.quota service.search)) (sym (l ∙ k)) start2))
                        (λ retrieved z i.
                          bind-Leads keeps z
                            (fail_if (is_other_source expected retrieved.source_index_id)
                              (app_error "answer_source_changed" 409))
                            _ (λ _ j. j ≡ z) (λ _ t. IsSettled t) (fail_if-Leads keeps z _ _)
                            (λ n j m.
                              bind-Leads keeps j
                                (generate_from service on_delta provider request.question history
                                  retrieved.context)
                                _ (λ _ t. IsSettled t) (λ _ t. IsSettled t)
                                (generate_from-Leads on_delta provider request.question history
                                  retrieved.context j (subst IsSearched (sym m) i))
                                (λ g o p.
                                  done-Leads keeps o
                                    (response_of service answer_id retrieved history g)
                                    (λ _ t. IsSettled t) p)))))))
    where
      s1 : Stage
      s1 = record start { owned = true }

      s2 : Stage
      s2 = record start {
        owned = true;
        admitted = true;
        limited = same_limits quota (Paying.quota service.search);
      }

      admits : advance keeps s1 (checked_limits (answer_limits service)) ≡ some s2
      admits =
          unfold advance in
          ap
            (λ b. some (record s1 {
              admitted = b;
              limited = same_limits quota (Paying.quota service.search);
            }))
            (same_limits_refl quota)

      start2 : IsStart (Paying.quota service.search) s2
      start2 = record { admitted = refl; quota = refl; embedding = refl; generating = refl }

  -- Whatever the database, the limiter and the providers reply, and wherever a timeout strikes, if
  -- the search service has the same receipts: no provider is called before the owner is checked
  -- and the answer's three limits are, and none is asked for an embedding before the search's limit
  -- is checked too; each kind of call is made at most once, with receipts only after one of its kind
  -- has begun; a receipt is finished at most once and only after its call; and when an answer is
  -- returned no receipt that has begun is left open.
  pub answer-Leads :
      (answer_id : ℕ) (request : AnswerRequest) (expected : Option ℕ) (history : List HistoryTurn)
      (on_delta : Bool)
      → Leads keeps start
          (answer service answer_id request expected history on_delta)
          (λ _ t. IsSettled t)
  unfolding answer
  answer-Leads answer_id request expected history on_delta =
      rescue_invalid-Leads keeps _ _ start (λ _ t. IsSettled t)
        (rescue_timeout-Leads keeps (app_error "answer_timeout" 503)
          (answer_calls service answer_id request expected (bounded_history service.encoder history)
            on_delta)
          start (λ _ t. IsSettled t)
          (calls-Leads answer_id request expected (bounded_history service.encoder history)
            on_delta))
