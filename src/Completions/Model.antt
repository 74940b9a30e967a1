-- ===== src/Completions/Model.antt =====
-- `consume_stream` of generation/openai_stream.py over the events that `frames` yields, as pydantic
-- reads them. A response is a parameter with its checks, and a text's size in bytes is one.
use ai_powered_codebase_engi.Prelude.{
  ℕ, suc, ◌&&◌, ◌||◌, not, Bool, true, false, Option, none, some, List, [], ◌∷◌, ◌++◌, ltb, leb,
  ◌==◌, get_elem?, same_text, if◌then◌else◌,
}
use ai_powered_codebase_engi.Prelude.Result.{app_error}
use ai_powered_codebase_engi.Runs.Model.{Text}
use ai_powered_codebase_engi.Calls.Model.{Raised, failed, usage_error, invalid, Reply, fails, gives}
use ai_powered_codebase_engi.Answers.Contracts.{GenerationResult}

pub record OutputItem : Type 0 where
  pub id : Option Text
  pub content : List (Option Text)

pub record TextDelta : Type 0 where
  pub item_id : Text
  pub output_index : ℕ
  pub content_index : ℕ
  pub delta : Text

-- An event: one that reports a failure, with its response if there is one; a delta, the completion,
-- or another, with their numbers; or one that the validators refuse.
pub data ProviderEvent (R : Type 0) : Type 0 where
  failure : Option R → ProviderEvent R
  text_delta : ℕ → TextDelta → ProviderEvent R
  completed : ℕ → R → ProviderEvent R
  other : ℕ → ProviderEvent R
  malformed : ProviderEvent R

-- `validate_response`, `ResponsePayload.model_validate`, `len(text.encode())` and `on_delta`
pub record Client (R : Type 0) : Type 0 where
  pub validate_response : R → Reply GenerationResult
  pub parse : R → Reply (List OutputItem)
  pub bytes : Text → ℕ
  pub on_delta : Text → Reply (Unit {0})

-- The local variables; `sequence` is none before the first event.
pub record Reading : Type 0 where
  pub sequence : Option ℕ
  pub identity : Option TextDelta
  pub accumulated : Text
  pub count : ℕ

unfoldable pub beginning : Reading
beginning = record { sequence = none; identity = none; accumulated = []; count = 0 }

-- The deltas that were sent on, and how it ended.
abbrev pub Consumed : Type 0
Consumed = List Text × Reply GenerationResult

abbrev pub ends_with : Raised → Consumed
ends_with r = ([], fails r)

abbrev pub incomplete : Raised
incomplete = failed (app_error "model_incomplete" 502)

unfoldable pub is_stale : Option ℕ → ℕ → Bool
is_stale none number = false
is_stale (some last) number = leb number last

-- The fields of an identity are those of its first delta.
unfoldable pub same_stream : TextDelta → TextDelta → Bool
same_stream d e =
    same_text d.item_id e.item_id
    && (d.output_index == e.output_index && d.content_index == e.content_index)

unfoldable pub is_foreign : Option TextDelta → TextDelta → Bool
unfolding same_stream
is_foreign none d = false
is_foreign (some first) d = not (same_stream d first)

unfoldable pub is_text : Option Text → Text → Bool
is_text none t = false
is_text (some s) t = same_text s t

abbrev pub flat : Option (Option Text) → Option Text
flat none = none
flat (some o) = o

unfoldable pub content_at : Option OutputItem → TextDelta → Option Text
unfolding is_text
content_at none d = none
content_at (some item) d =
    if is_text item.id d.item_id then flat (get_elem? item.content d.content_index) else none

-- The completed text against the one that was streamed
unfoldable pub is_streamed : Option TextDelta → List OutputItem → Text → Bool
unfolding content_at is_text
is_streamed none output text = false
is_streamed (some d) output text = is_text (content_at (get_elem? output d.output_index) d) text

unfoldable pub checked : Bool → GenerationResult → Reply GenerationResult
checked true result = gives result
checked false result =
    fails (usage_error (app_error "model_invalid" 502) result.input_tokens result.output_tokens)

unfoldable pub report : Reply GenerationResult → Consumed
report (fails r) = ends_with r
report (gives result) = ends_with incomplete

module _ {R : Type 0} (client : Client R) where
  unfoldable pub compare_text :
      Reading → GenerationResult → Reply (List OutputItem) → Reply GenerationResult
  unfolding checked is_streamed
  compare_text s result (fails r) = fails r
  compare_text s result (gives output) =
      checked (result.refused || is_streamed s.identity output s.accumulated) result

  unfoldable pub complete : Reading → R → Reply GenerationResult → Reply GenerationResult
  unfolding compare_text
  complete s response (fails r) = fails r
  complete s response (gives result) = compare_text s result (client.parse response)

  unfoldable pub report_failure : Option R → Consumed
  unfolding report
  report_failure none = ends_with incomplete
  report_failure (some response) = report (client.validate_response response)

  unfoldable pub send : Text → Reply (Unit {0}) → Consumed → Consumed
  send text (fails r) rest = ends_with r
  send text (gives x) rest = (text ∷ rest.0, rest.1)

  unfoldable pub take_delta : (Reading → Consumed) → Reading → TextDelta → Consumed
  unfolding is_foreign send
  take_delta next s d =
      let t = record s { identity = some d; accumulated = s.accumulated ++ d.delta } in
      if is_foreign s.identity d
      then ends_with invalid
      else (if ltb 65536 (client.bytes t.accumulated)
          then ends_with invalid
          else send d.delta (client.on_delta d.delta) (next t))

  unfoldable pub on_event : (Reading → Consumed) → Reading → ProviderEvent R → Consumed
  unfolding report_failure is_stale take_delta complete
  on_event next s (failure response) = report_failure response
  on_event next s malformed = ends_with invalid
  on_event next s (other number) =
      if is_stale s.sequence number
      then ends_with invalid
      else next (record s { sequence = some number })
  on_event next s (text_delta number d) =
      if is_stale s.sequence number
      then ends_with invalid
      else take_delta next (record s { sequence = some number }) d
  on_event next s (completed number response) =
      if is_stale s.sequence number then ends_with invalid else (
        [],
        complete (record s { sequence = some number }) response (client.validate_response response),
      )

  unfoldable pub consume : Reading → List (ProviderEvent R) → Consumed
  unfolding on_event
  consume s [] = ends_with incomplete
  consume s (e ∷ es) =
      if ltb 12000 (suc s.count)
      then ends_with invalid
      else on_event (λ t. consume t es) (record s { count = suc s.count }) e

  unfoldable pub consume_stream : List (ProviderEvent R) → Consumed
  unfolding consume beginning
  consume_stream events = consume beginning events
