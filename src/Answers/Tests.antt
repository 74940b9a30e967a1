-- ===== src/Answers/Tests.antt =====
-- A question that is answered with a paid model.
use ai_powered_codebase_engi.Prelude.{
  ℕ, ◌≡◌, refl, true, false, none, some, List, [], ◌∷◌, ◌++◌, length,
}
use ai_powered_codebase_engi.Search.Model.{keyword, version}
use ai_powered_codebase_engi.Context.Model.{
  Encoder, retrieval_question, bounded_history, shorten, history_tokens, build_context,
  context_from, fits, set_of, insert_id, is_subset, cites_badly, check_claims, validate_citations,
}
use ai_powered_codebase_engi.Receipts.Model.{generation}
use ai_powered_codebase_engi.Calls.Model.{
  gives, Effect, checked_owner, checked_limits, began, generated, finished, done, logged_begin,
  begin_if, finish_if, settle_usage,
}
use ai_powered_codebase_engi.Searching.Service.{rescue_timeout}
use ai_powered_codebase_engi.Calls.Conduct.{Leads}
use ai_powered_codebase_engi.Searching.Model.{Evidence}
use ai_powered_codebase_engi.Searching.Tests.{writer, searching, evidence, found, log}
use ai_powered_codebase_engi.Answers.Contracts.{
  DraftStatus, GenerationResult, is_claim, is_draft, is_optional_draft, is_result,
}
use ai_powered_codebase_engi.Answers.Model.{
  AnswerRequest, AnswerProvider, AnswerService, AnswerStatus, AnswerResponse, status_of_draft,
  draft_of, is_refused, status_or, status_of, limitation_of, claims_of, model_of, input_tokens_of,
  output_tokens_of, is_other_source, citations_of, evidence_ids, check_citations, validated,
  generate_with, rescue_invalid, cost_of, generation_of, require_provider, answer_limits,
  generate_paid, generate_from, response_of, request_of, answer_calls, answer,
}
use ai_powered_codebase_engi.Answers.Paying.{start, IsSettled, answer-Leads}
use ai_powered_codebase_engi.Answers.Grounded.{IsGrounded, answer-IsGrounded}

abbrev encoder : Encoder Evidence
encoder = record {
  history_json = λ turns. [];
  payload = λ question evidence turns. question;
  count_tokens = length;
  bytes = length;
  instructions = [];
}

abbrev model_result : GenerationResult
model_result = record {
  model = 109 ∷ [];
  draft = some (record {
    status = DraftStatus.answered;
    claims = record { text = 99 ∷ []; citation_ids = 1 ∷ [] } ∷ [];
    limitation = [];
  });
  refused = false;
  input_tokens = 100;
  output_tokens = 20;
}

abbrev model_provider : AnswerProvider
model_provider = record {
  model = "model";
  generate = λ payload. gives model_result;
  generate_stream = none;
}

abbrev answering : AnswerService ℕ ℕ
answering = record {
  owned = gives tt;
  search = searching;
  check_limits = λ limits. gives tt;
  minute_key = "answer:user:minute:1";
  day_key = "answer:user:day:1";
  daily_request_limit = 100;
  answers_enabled = true;
  input_price = 5;
  output_price = 7;
  provider = some model_provider;
  receipts = some writer;
  encoder = encoder;
  blank = λ t. false;
  validated_request = λ r. gives r;
}

abbrev question : AnswerRequest
question = record { question = 113 ∷ []; mode = keyword }

answer-Leads_example :
    Leads true
      (start answering refl)
      (answer answering 90 question none [] false)
      (λ r t. IsSettled t)
answer-Leads_example = answer-Leads answering refl 90 question none [] false

abbrev answer_response : AnswerResponse
answer_response = record {
  answer_id = 90;
  status = AnswerStatus.answered;
  claims = record { text = 99 ∷ []; citation_ids = 1 ∷ [] } ∷ [];
  limitation = [];
  evidence = evidence ∷ [];
  source_index_id = 5;
  search_index_id = 4;
  commit_sha = "abc";
  retrieval_mode = keyword;
  retrieval_version = version;
  embedding_profile = "none";
  context_tokens = 1;
  context_omitted = 0;
  model = some (109 ∷ []);
  input_tokens = 100;
  output_tokens = 20;
  estimated_generation_cost = 640;
  estimated_retrieval_cost = 0;
  history_turn_ids = [];
  history_tokens = 0;
  with_history = false;
}

-- The log of the answer: checks, then a receipt, the call and its usage.
abbrev answer_log : List Effect
answer_log =
    checked_owner
      ∷ checked_limits (
          record { key = "answer:user:minute:1"; count = 5; seconds = 60 }
          ∷ record { key = "answer:user:day:1"; count = 30; seconds = 86400 }
          ∷ record { key = "answer:deployment:day"; count = 100; seconds = 86400 }
          ∷ [])
      ∷ log
    ++ began generation 80 ∷ generated (113 ∷ []) ∷ finished generation 80 100 20 ∷ []

answers : answer answering 90 question none [] false ≡ done answer_log answer_response
unfolding retrieval_question bounded_history shorten history_tokens build_context context_from fits
    set_of insert_id is_subset cites_badly check_claims validate_citations logged_begin begin_if
    finish_if settle_usage rescue_timeout is_claim is_draft is_optional_draft is_result
    status_of_draft draft_of is_refused status_or status_of limitation_of claims_of model_of
    input_tokens_of output_tokens_of is_other_source citations_of evidence_ids check_citations
    validated generate_with rescue_invalid cost_of generation_of require_provider answer_limits
    generate_paid generate_from response_of request_of answer_calls answer
answers = rw (found) refl

answer-IsGrounded_example : IsGrounded answering answer_response
answer-IsGrounded_example = answer-IsGrounded answering 90 question none [] false answers
