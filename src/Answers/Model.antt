-- ===== src/Answers/Model.antt =====
-- `answer` and `_answer` of services/answers.py. The provider, the owner check, the limiter and
-- pydantic's check of the search request are a record of functions; what a sink of deltas does is
-- left out, and so are the clock and the response's own validation. A cost is in a millionth of the
-- prices' unit.
use ai_powered_codebase_engi.Prelude.{
  ℕ, ◌+◌, ◌*◌, not, String, Bool, true, false, Option, none, some, List, [], ◌∷◌, map, ◌==◌,
  if◌then◌else◌, codes,
}
use ai_powered_codebase_engi.Prelude.Result.{AppError, Result, ok, app_error}
use ai_powered_codebase_engi.Runs.Model.{Text, HistoryTurn}
use ai_powered_codebase_engi.Limits.Model.{Limit}
use ai_powered_codebase_engi.Receipts.Model.{generation}
use ai_powered_codebase_engi.Search.Model.{Mode}
use ai_powered_codebase_engi.Context.Model
use ai_powered_codebase_engi.Context.Model.{
  Encoder, bounded_history, history_tokens, retrieval_question, validate_citations,
}
use ai_powered_codebase_engi.Calls.Model.{
  failed, usage_error, timeout, invalid, Reply, fails, gives, checked_owner, checked_limits,
  generated, Action, raised, done, ◌>>=◌, ◌>>◌, call, ask, of_result, fail_if, Writer, begin_if,
  finish_if, settle_usage,
}
use ai_powered_codebase_engi.Searching.Model.{SearchRequest, Evidence}
use ai_powered_codebase_engi.Searching.Service.{
  SearchService, SearchResponse, search, rescue_timeout,
}
use ai_powered_codebase_engi.Answers.Contracts.{
  Claim, DraftStatus, AnswerDraft, GenerationResult, is_result,
}

pub record AnswerRequest : Type 0 where
  pub question : Text
  pub mode : Mode

-- `generate_stream` is there for a provider that streams.
pub record AnswerProvider : Type 0 where
  pub model : String
  pub generate : Text → Reply GenerationResult
  pub generate_stream : Option (Text → Reply GenerationResult)

pub record AnswerService (T V : Type 0) : Type 0 where
  pub owned : Reply (Unit {0})
  pub search : SearchService T V
  pub check_limits : List Limit → Reply (Unit {0})
  pub minute_key : String
  pub day_key : String
  pub daily_request_limit : ℕ
  pub answers_enabled : Bool
  pub input_price : ℕ
  pub output_price : ℕ
  pub provider : Option AnswerProvider
  pub receipts : Option Writer
  pub encoder : Encoder Evidence
  pub blank : Text → Bool
  pub validated_request : SearchRequest → Reply SearchRequest

pub data AnswerStatus : Type 0 where
  answered insufficient_evidence refused : AnswerStatus

pub record AnswerResponse : Type 0 where
  pub answer_id : ℕ
  pub status : AnswerStatus
  pub claims : List Claim
  pub limitation : Text
  pub evidence : List Evidence
  pub source_index_id : ℕ
  pub search_index_id : ℕ
  pub commit_sha : String
  pub retrieval_mode : Mode
  pub retrieval_version : String
  pub embedding_profile : String
  pub context_tokens : ℕ
  pub context_omitted : ℕ
  pub model : Option Text
  pub input_tokens : ℕ
  pub output_tokens : ℕ
  pub estimated_generation_cost : ℕ
  pub estimated_retrieval_cost : ℕ
  pub history_turn_ids : List ℕ
  pub history_tokens : ℕ
  pub with_history : Bool

-- The generation: its result, the turns that were included and the cost.
pub record Generation : Type 0 where
  pub result : Option GenerationResult
  pub included : List HistoryTurn
  pub cost : ℕ

unfoldable pub status_of_draft : DraftStatus → AnswerStatus
status_of_draft DraftStatus.answered = AnswerStatus.answered
status_of_draft DraftStatus.insufficient_evidence = AnswerStatus.insufficient_evidence

unfoldable pub draft_of : Option GenerationResult → Option AnswerDraft
draft_of none = none
draft_of (some r) = r.draft

unfoldable pub is_refused : Option GenerationResult → Bool
is_refused none = false
is_refused (some r) = r.refused

unfoldable pub status_or : Option AnswerDraft → AnswerStatus
unfolding status_of_draft
status_or none = AnswerStatus.insufficient_evidence
status_or (some d) = status_of_draft d.status

unfoldable pub status_of : Option GenerationResult → AnswerStatus
unfolding draft_of is_refused status_or
status_of result = if is_refused result then refused else status_or (draft_of result)

unfoldable pub limitation_of : Option GenerationResult → Option AnswerDraft → Text
limitation_of result (some d) = d.limitation
limitation_of (some r) none = codes "The model declined this request."
limitation_of none none =
    codes "No source evidence was retrieved. Try a function name or hybrid search."

unfoldable pub claims_of : Option AnswerDraft → List Claim
claims_of none = []
claims_of (some d) = d.claims

unfoldable pub model_of : Option GenerationResult → Option Text
model_of none = none
model_of (some r) = some r.model

unfoldable pub input_tokens_of : Option GenerationResult → ℕ
input_tokens_of none = 0
input_tokens_of (some r) = r.input_tokens

unfoldable pub output_tokens_of : Option GenerationResult → ℕ
output_tokens_of none = 0
output_tokens_of (some r) = r.output_tokens

unfoldable pub is_other_source : Option ℕ → ℕ → Bool
is_other_source none id = false
is_other_source (some expected) id = not (id == expected)

unfoldable pub citations_of : List Claim → List (List ℕ)
citations_of claims = map (λ (c : Claim). c.citation_ids) claims

unfoldable pub evidence_ids : List Evidence → List ℕ
evidence_ids evidence = map (λ (e : Evidence). e.citation_id) evidence

-- `if result.draft: validate_citations(...)`
unfoldable pub check_citations : Option AnswerDraft → List Evidence → Result (Unit {0})
unfolding citations_of evidence_ids
check_citations none evidence = ok tt
check_citations (some d) evidence =
    validate_citations (citations_of d.claims) (evidence_ids evidence)

-- `model_validate`
unfoldable pub validated : Bool → Reply (Unit {0})
validated true = gives tt
validated false = fails invalid

unfoldable pub generate_with : Bool → AnswerProvider → Text → Reply GenerationResult
generate_with on_delta provider payload = chosen on_delta provider.generate_stream
  where
    chosen : Bool → Option (Text → Reply GenerationResult) → Reply GenerationResult
    chosen true (some stream) = stream payload
    chosen true none = provider.generate payload
    chosen false stream = provider.generate payload

-- `except ValidationError` of `answer`, after its timeout
unfoldable pub rescue_invalid {ℓ} : {A : Type ℓ} → AppError → Action A → Action A
rescue_invalid error (raised es invalid) = raised es (failed error)
rescue_invalid error (raised es timeout) = raised es timeout
rescue_invalid error (raised es (failed e)) = raised es (failed e)
rescue_invalid error (raised es (usage_error e i o)) = raised es (usage_error e i o)
rescue_invalid error (done es a) = done es a

module _ {T V : Type 0} (service : AnswerService T V) where
  unfoldable pub cost_of : GenerationResult → ℕ
  cost_of r = r.input_tokens * service.input_price + r.output_tokens * service.output_price

  unfoldable pub generation_of : GenerationResult → List HistoryTurn → Generation
  unfolding cost_of
  generation_of result included = record {
    result = some result;
    included = included;
    cost = cost_of result;
  }

  unfoldable pub require_provider : Option AnswerProvider → Action AnswerProvider
  require_provider none = raised [] (failed (app_error "answers_disabled" 409))
  require_provider (some provider) = do
    fail_if (not service.answers_enabled) (app_error "answers_disabled" 409)
    done [] provider

  unfoldable pub answer_limits : List Limit
  answer_limits =
      record { key = service.minute_key; count = 5; seconds = 60 }
      ∷ record { key = service.day_key; count = 30; seconds = 86400 }
      ∷ record {
        key = "answer:deployment:day";
        count = service.daily_request_limit;
        seconds = 86400;
      }
      ∷ []

  -- The paid call, for a payload.
  unfoldable pub generate_paid :
      Bool → AnswerProvider → List Evidence → Text → List HistoryTurn → Action Generation
  unfolding begin_if settle_usage finish_if generate_with generation_of check_citations validated
  generate_paid on_delta provider evidence payload included = do
    receipt ←
        begin_if service.receipts generation provider.model service.input_price service.output_price
    result ←
        settle_usage service.receipts generation receipt
          (call (generated payload) (generate_with on_delta provider payload))
    ask (validated (is_result service.blank result))
    finish_if service.receipts generation receipt result.input_tokens result.output_tokens
    ask (of_result (check_citations result.draft evidence))
    done [] (generation_of result included)

  -- `if retrieved.context: ... else: ...`
  unfoldable pub generate_from :
      Bool → AnswerProvider → Text → List HistoryTurn → List Evidence → Action Generation
  unfolding generate_paid
  generate_from on_delta provider question history [] =
      done [] (record { result = none; included = []; cost = 0 })
  generate_from on_delta provider question history (e ∷ evidence) = do
    built ← ask (of_result (Model.build_context service.encoder question (e ∷ evidence) history))
    generate_paid on_delta provider (e ∷ evidence) built.0 built.1

  unfoldable pub response_of : ℕ → SearchResponse → List HistoryTurn → Generation → AnswerResponse
  unfolding status_of draft_of claims_of limitation_of model_of input_tokens_of output_tokens_of
  response_of answer_id retrieved history g = record {
    answer_id = answer_id;
    status = status_of g.result;
    claims = claims_of (draft_of g.result);
    limitation = limitation_of g.result (draft_of g.result);
    evidence = retrieved.context;
    source_index_id = retrieved.source_index_id;
    search_index_id = retrieved.search_index_id;
    commit_sha = retrieved.commit_sha;
    retrieval_mode = retrieved.mode;
    retrieval_version = retrieved.pipeline_version;
    embedding_profile = retrieved.provider_profile;
    context_tokens = retrieved.context_tokens;
    context_omitted = retrieved.context_omitted;
    model = model_of g.result;
    input_tokens = input_tokens_of g.result;
    output_tokens = output_tokens_of g.result;
    estimated_generation_cost = g.cost;
    estimated_retrieval_cost = retrieved.estimated_query_cost;
    history_turn_ids = map (λ (t : HistoryTurn). t.turn_id) g.included;
    history_tokens = history_tokens service.encoder g.included;
    with_history = is_some_turn history;
  }
    where
      is_some_turn : List HistoryTurn → Bool
      is_some_turn [] = false
      is_some_turn (t ∷ ts) = true

  unfoldable pub request_of : AnswerRequest → List HistoryTurn → SearchRequest
  unfolding retrieval_question
  request_of request history = record {
    query = retrieval_question request.question history;
    mode = request.mode;
    top_k = 8;
    context_token_budget = 6000;
  }

  -- `_answer`
  unfoldable pub answer_calls :
      ℕ → AnswerRequest → Option ℕ → List HistoryTurn → Bool → Action AnswerResponse
  unfolding require_provider answer_limits request_of is_other_source generate_from response_of
  answer_calls answer_id request expected_source_id history on_delta = do
    call checked_owner service.owned
    provider ← require_provider service.provider
    call (checked_limits answer_limits) (service.check_limits answer_limits)
    wanted ← ask (service.validated_request (request_of request history))
    retrieved ← search service.search wanted
    fail_if (is_other_source expected_source_id retrieved.source_index_id)
        (app_error "answer_source_changed" 409)
    g ← generate_from on_delta provider request.question history retrieved.context
    done [] (response_of answer_id retrieved history g)

  -- `answer`
  unfoldable pub answer :
      ℕ → AnswerRequest → Option ℕ → List HistoryTurn → Bool → Action AnswerResponse
  unfolding answer_calls rescue_timeout rescue_invalid bounded_history
  answer answer_id request expected_source_id history on_delta =
      rescue_invalid (app_error "model_invalid" 502) (
        rescue_timeout (app_error "answer_timeout" 503) (
          answer_calls answer_id request expected_source_id
            (bounded_history service.encoder history) on_delta))
