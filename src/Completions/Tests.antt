-- ===== src/Completions/Tests.antt =====
-- A stream of two deltas and its completion.
use ai_powered_codebase_engi.Prelude.{ℕ, ◌≡◌, refl, false, none, some, List, [], ◌∷◌, length, arith}
use ai_powered_codebase_engi.Runs.Model.{Text}
use ai_powered_codebase_engi.Calls.Model.{gives}
use ai_powered_codebase_engi.Answers.Contracts.{GenerationResult}
use ai_powered_codebase_engi.Completions.Model.{
  TextDelta, ProviderEvent, text_delta, completed, other, Client, beginning, is_stale, same_stream,
  is_foreign, content_at, is_text, is_streamed, checked, compare_text, complete, report_failure,
  send, take_delta, on_event, consume, consume_stream,
}
use ai_powered_codebase_engi.Completions.Streaming.{IsFaithful, consume_stream-IsFaithful}

abbrev result : GenerationResult
result = record {
  model = 109 ∷ [];
  draft = none;
  refused = false;
  input_tokens = 100;
  output_tokens = 20;
}

abbrev client : Client ℕ
client = record {
  validate_response = λ response. gives result;
  parse =
      λ response. gives (record { id = some (7 ∷ []); content = some (97 ∷ 98 ∷ []) ∷ [] } ∷ []);
  bytes = length;
  on_delta = λ text. gives tt;
}

abbrev delta : Text → TextDelta
delta text = record { item_id = 7 ∷ []; output_index = 0; content_index = 0; delta = text }

abbrev events : List (ProviderEvent ℕ)
events =
    other 0 ∷ text_delta 1 (delta (97 ∷ [])) ∷ text_delta 2 (delta (98 ∷ [])) ∷ completed 5 80 ∷ []

consumed : consume_stream client events ≡ ((97 ∷ []) ∷ (98 ∷ []) ∷ [], gives result)
unfolding beginning is_stale same_stream is_foreign content_at is_text is_streamed checked
    compare_text complete report_failure send take_delta on_event consume consume_stream
consumed = refl

consume_stream-IsFaithful_example : IsFaithful client events result ((97 ∷ []) ∷ (98 ∷ []) ∷ [])
consume_stream-IsFaithful_example =
    consume_stream-IsFaithful client events ((97 ∷ []) ∷ (98 ∷ []) ∷ []) result (omega arith) refl
      consumed
