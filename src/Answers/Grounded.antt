-- ===== src/Answers/Grounded.antt =====
-- The answers that services/answers.py returns.
use ai_powered_codebase_engi.Prelude.{
  ℕ, ◌≤◌, ◌≡◌, refl, ap, ◌∙◌, subst, Bool, true, false, ◌&&◌, Option, none, some, List, [], ◌∷◌,
  arith, length, leb, leb→le, all, All, is_none,
}
use ai_powered_codebase_engi.Prelude.Result.{AppError, Result, ok, err, app_error}
use ai_powered_codebase_engi.Runs.Model.{Text, HistoryTurn}
use ai_powered_codebase_engi.Context.Model as Context
use ai_powered_codebase_engi.Context.Model.{bounded_history, validate_citations}
use ai_powered_codebase_engi.Context.Citations.{IsCited, validate_citations_iff}
use ai_powered_codebase_engi.Calls.Model.{
  failed, usage_error, timeout, invalid, Effect, Action, raised, done, call, ask, of_result,
  fail_if, checked_owner, checked_limits, generated, begin_if, finish_if, settle_usage, >>=-eq-done,
  done-value,
}
use ai_powered_codebase_engi.Receipts.Model.{generation}
use ai_powered_codebase_engi.Searching.Model.{Evidence}
use ai_powered_codebase_engi.Searching.Service.{search}
use ai_powered_codebase_engi.Searching.Within.{rescue_timeout-eq-done}
use ai_powered_codebase_engi.Answers.Contracts.{
  AnswerDraft, DraftStatus, is_answered, is_some_claim, same_bool, within, is_claim, is_draft,
  is_optional_draft, is_result, GenerationResult,
}
use ai_powered_codebase_engi.Answers.Model.{
  AnswerRequest, AnswerProvider, AnswerService, AnswerStatus, AnswerResponse, Generation,
  generation_of, citations_of, evidence_ids, check_citations, claims_of, draft_of, status_of,
  status_or, status_of_draft, is_refused, validated, generate_with, require_provider, answer_limits,
  request_of, is_other_source, generate_paid, generate_from, response_of, answer_calls,
  rescue_invalid, answer,
}

abbrev pub says_answered : AnswerStatus → Bool
says_answered AnswerStatus.answered = true
says_answered AnswerStatus.insufficient_evidence = false
says_answered AnswerStatus.refused = false

rescue_invalid-eq-done {ℓ} :
    {A : Type ℓ} (error : AppError) (act : Action A) {es : List Effect} {a : A}
    → rescue_invalid error act ≡ done es a
    → act ≡ done es a
unfolding rescue_invalid
rescue_invalid-eq-done error (raised es invalid) e = cc
rescue_invalid-eq-done error (raised es (failed f)) e = e
rescue_invalid-eq-done error (raised es (usage_error f i o)) e = e
rescue_invalid-eq-done error (raised es timeout) e = e
rescue_invalid-eq-done error (done es a) e = e

and_true : (a b : Bool) → (a && b) ≡ true → (a ≡ true) × (b ≡ true)
and_true true b e = (refl, e)
and_true false b e = cc

-- What a generation comes to, beside its evidence.
record IsSupported (evidence : List Evidence) (result : Option GenerationResult) : Type 0 where
  cited : All (IsCited (evidence_ids evidence)) (citations_of (claims_of (draft_of result)))
  few : length (claims_of (draft_of result)) ≤ 8
  status : says_answered (status_of result) ≡ is_some_claim (claims_of (draft_of result))

nothing-IsSupported : (evidence : List Evidence) → IsSupported evidence none
unfolding citations_of claims_of draft_of status_of is_refused status_or
nothing-IsSupported evidence = record { cited = tt; few = omega arith; status = refl }

same_bool-eq : (a b : Bool) → same_bool a b ≡ true → a ≡ b
same_bool-eq true true e = refl
same_bool-eq true false e = cc
same_bool-eq false true e = cc
same_bool-eq false false e = refl

status_of_draft-eq : (s : DraftStatus) → says_answered (status_of_draft s) ≡ is_answered s
unfolding status_of_draft
status_of_draft-eq DraftStatus.answered = refl
status_of_draft-eq DraftStatus.insufficient_evidence = refl

draft-fits :
    (blank : Text → Bool) (d : AnswerDraft)
    → is_draft blank d ≡ true
    → (length d.claims ≤ 8) × (is_answered d.status ≡ is_some_claim d.claims)
unfolding is_draft
draft-fits blank d e =
    let (_, e1) = and_true (all (is_claim blank) d.claims) _ e in
    let (few, e2) = and_true (leb (length d.claims) 8) _ e1 in
    let (_, e3) = and_true (leb (length d.limitation) 1200) _ e2 in
    let (status, _) = and_true (same_bool (is_answered d.status) (is_some_claim d.claims)) _ e3 in
    (leb→le (length d.claims) 8 few, same_bool-eq _ _ status)

draft_there :
    (blank : Text → Bool) (d : AnswerDraft)
    → is_optional_draft blank (some d) ≡ true
    → is_draft blank d ≡ true
unfolding is_optional_draft
draft_there blank d e = e

result-IsSupported :
    (blank : Text → Bool) (evidence : List Evidence) (r : GenerationResult)
    → is_result blank r ≡ true
    → check_citations r.draft evidence ≡ ok tt
    → IsSupported evidence (some r)
unfolding is_result
result-IsSupported blank evidence r e c =
    let (_, e1) = and_true (within 1 100 (length r.model)) _ e in
    let (draft, refusal) = and_true (is_optional_draft blank r.draft) _ e1 in
    go r.draft r.refused draft refusal c
  where
    go :
        (d : Option AnswerDraft) (b : Bool)
        → is_optional_draft blank d ≡ true
        → same_bool b (is_none d) ≡ true
        → check_citations d evidence ≡ ok tt
        → IsSupported evidence (some (record r { draft = d; refused = b }))
    go none b f g h =
        unfold citations_of in
        unfold claims_of in
        unfold draft_of in
        unfold status_of in
        unfold is_refused in
        record { cited = tt; few = omega arith; status = rw (same_bool-eq b true g) refl }
    go (some d) b f g h =
        unfold citations_of in
        unfold claims_of in
        unfold draft_of in
        unfold status_of in
        unfold is_refused in
        let (few, status) = draft-fits blank d (draft_there blank d f) in
        let accepted : validate_citations (citations_of d.claims) (evidence_ids evidence) ≡ ok tt =
          unfold check_citations in h in
        record {
          cited =
              ((validate_citations_iff (citations_of d.claims) (evidence_ids evidence)).0
                accepted).1;
          few = few;
          status =
              rw (same_bool-eq b false g)
                (unfold status_or in (status_of_draft-eq d.status ∙ status));
        }

validated-eq :
    (b : Bool) {es : List Effect} {u : Unit {0}} → ask (validated b) ≡ done es u → b ≡ true
unfolding validated
validated-eq true e = refl
validated-eq false e = cc

of_result-eq :
    (r : Result (Unit {0})) {es : List Effect} {u : Unit {0}}
    → ask (of_result r) ≡ done es u
    → r ≡ ok tt
of_result-eq (ok tt) e = refl
of_result-eq (err f) e = cc

module _ {T V : Type 0} (service : AnswerService T V) where
  paid-IsSupported :
      (on_delta : Bool) (provider : AnswerProvider) (evidence : List Evidence) (payload : Text)
      (included : List HistoryTurn) {es : List Effect} {g : Generation}
      → generate_paid service on_delta provider evidence payload included ≡ done es g
      → IsSupported evidence g.result
  unfolding generate_paid
  paid-IsSupported on_delta provider evidence payload included {es} {g} q =
      let (receipt, _, _, _, q1) =
        >>=-eq-done
          (begin_if service.receipts generation provider.model service.input_price
            service.output_price)
          _ q in
      let (result, _, _, _, q2) =
        >>=-eq-done
          (settle_usage service.receipts generation receipt
            (call (generated payload) (generate_with on_delta provider payload)))
          _ q1 in
      let (_, _, _, valid, q3) =
        >>=-eq-done (ask (validated (is_result service.blank result))) _ q2 in
      let (_, _, _, _, q4) =
        >>=-eq-done
          (finish_if service.receipts generation receipt result.input_tokens result.output_tokens) _
          q3 in
      let (_, _, _, checked, q5) =
        >>=-eq-done (ask (of_result (check_citations result.draft evidence))) _ q4 in
      let made : generation_of service result included ≡ g = done-value q5 in
      let same : some result ≡ g.result =
        unfold generation_of in ap (λ (x : Generation). x.result) made in
      subst (IsSupported evidence) same (
        result-IsSupported service.blank evidence result (validated-eq _ valid)
          (of_result-eq _ checked))

  from-IsSupported :
      (on_delta : Bool) (provider : AnswerProvider) (question : Text) (history : List HistoryTurn)
      (evidence : List Evidence) {es : List Effect} {g : Generation}
      → generate_from service on_delta provider question history evidence ≡ done es g
      → IsSupported evidence g.result
  unfolding generate_from
  from-IsSupported on_delta provider question history [] {es} {g} q =
      subst (IsSupported []) (ap (λ (x : Generation). x.result) (done-value q))
        (nothing-IsSupported [])
  from-IsSupported on_delta provider question history (e ∷ evidence) q =
      let (built, _, _, _, q1) =
        >>=-eq-done
          (ask (of_result (Context.build_context service.encoder question (e ∷ evidence) history)))
          _ q in
      paid-IsSupported on_delta provider (e ∷ evidence) built.0 built.1 q1

  pub record IsGrounded (r : AnswerResponse) : Type 0 where
    pub cited : All (IsCited (evidence_ids r.evidence)) (citations_of r.claims)
    pub few : length r.claims ≤ 8
    pub status : says_answered r.status ≡ is_some_claim r.claims

  calls-IsGrounded :
      (answer_id : ℕ) (request : AnswerRequest) (expected : Option ℕ) (history : List HistoryTurn)
      (on_delta : Bool) {es : List Effect} {r : AnswerResponse}
      → answer_calls service answer_id request expected history on_delta ≡ done es r
      → IsGrounded r
  unfolding answer_calls
  calls-IsGrounded answer_id request expected history on_delta {es} {r} q =
      let (_, _, _, _, q1) = >>=-eq-done (call checked_owner service.owned) _ q in
      let (provider, _, _, _, q2) = >>=-eq-done (require_provider service service.provider) _ q1 in
      let (_, _, _, _, q3) =
        >>=-eq-done
          (call (checked_limits (answer_limits service))
            (service.check_limits (answer_limits service)))
          _ q2 in
      let (wanted, _, _, _, q4) =
        >>=-eq-done (ask (service.validated_request (request_of service request history))) _ q3 in
      let (retrieved, _, _, _, q5) = >>=-eq-done (search service.search wanted) _ q4 in
      let (_, _, _, _, q6) =
        >>=-eq-done
          (fail_if (is_other_source expected retrieved.source_index_id)
            (app_error "answer_source_changed" 409))
          _ q5 in
      let (g, _, _, made, q7) =
        >>=-eq-done
          (generate_from service on_delta provider request.question history retrieved.context) _
          q6 in
      let s = from-IsSupported on_delta provider request.question history retrieved.context made in
      subst IsGrounded (done-value q7)
        (unfold response_of in record { cited = s.cited; few = s.few; status = s.status })

  -- An answer that is returned is grounded, for every reply of every callee: each claim cites only
  -- ids of the evidence that is shown and none twice, there are eight claims at most, and the status
  -- is answered exactly if there is a claim.
  pub answer-IsGrounded :
      (answer_id : ℕ) (request : AnswerRequest) (expected : Option ℕ) (history : List HistoryTurn)
      (on_delta : Bool) {es : List Effect} {r : AnswerResponse}
      → answer service answer_id request expected history on_delta ≡ done es r
      → IsGrounded r
  unfolding answer
  answer-IsGrounded answer_id request expected history on_delta q =
      calls-IsGrounded answer_id request expected (bounded_history service.encoder history) on_delta
        (rescue_timeout-eq-done _ _ (rescue_invalid-eq-done _ _ q))
