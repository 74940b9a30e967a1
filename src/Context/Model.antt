-- ===== src/Context/Model.antt =====
-- generation/history.py and generation/context.py. JSON and the tokenizer are parameters.
use ai_powered_codebase_engi.Prelude.{
  ℕ, ◌*◌, ◌-◌, ◌&&◌, ◌||◌, not, Bool, true, false, List, [], ◌∷◌, ◌++◌, ltb, leb, ◌==◌, length,
  drop, take, all, any, if◌then◌else◌,
}
use ai_powered_codebase_engi.Prelude.Result.{Result, ok, err, app_error, raise_if, ◌>>◌}
use ai_powered_codebase_engi.Runs.Model.{Text, HistoryTurn}

-- What the module asks of json and of the tokenizer: `history_json` as UTF-8, `dumps` of the payload,
-- the number of tokens and the number of bytes of a text, and the instructions' text.
pub record Encoder (E : Type 0) : Type 0 where
  pub history_json : List HistoryTurn → Text
  pub payload : Text → List E → List HistoryTurn → Text
  pub count_tokens : Text → ℕ
  pub bytes : Text → ℕ
  pub instructions : Text

module _ {E : Type 0} (encoder : Encoder E) where
  unfoldable pub history_tokens : List HistoryTurn → ℕ
  history_tokens [] = 0
  history_tokens (t ∷ ts) = encoder.count_tokens (encoder.history_json (t ∷ ts))

  -- the condition of the loop, for turns that are not empty
  unfoldable pub over_limit : List HistoryTurn → Bool
  unfolding history_tokens
  over_limit turns =
      ltb 1000 (history_tokens turns) || ltb 8192 (encoder.bytes (encoder.history_json turns))

  unfoldable pub shorten : List HistoryTurn → List HistoryTurn
  unfolding over_limit
  shorten [] = []
  shorten (t ∷ ts) = if over_limit (t ∷ ts) then shorten ts else t ∷ ts

  -- `turns[-3:]`, then the loop
  unfoldable pub bounded_history : List HistoryTurn → List HistoryTurn
  unfolding shorten
  bounded_history turns = shorten (drop (length turns - 3) turns)

  module _ (question : Text) (evidence : List E) where
    unfoldable pub fits : List HistoryTurn → Bool
    fits selected =
        leb (encoder.bytes (encoder.payload question evidence selected)) (64 * 1024)
        && leb
            (encoder.count_tokens
              (encoder.instructions ++ encoder.payload question evidence selected))
            8000

    -- The loop of `build_context`
    unfoldable pub context_from : List HistoryTurn → Result (Text × List HistoryTurn)
    unfolding fits
    context_from [] =
        if fits []
        then ok (encoder.payload question evidence [], [])
        else err (app_error "answer_context_limit" 422)
    context_from (t ∷ ts) =
        if fits (t ∷ ts)
        then ok (encoder.payload question evidence (t ∷ ts), t ∷ ts)
        else context_from ts

    unfoldable pub build_context : List HistoryTurn → Result (Text × List HistoryTurn)
    unfolding context_from bounded_history
    build_context history = context_from (bounded_history history)

last_question : List HistoryTurn → Text
last_question [] = []
last_question (t ∷ []) = t.question
last_question (t ∷ u ∷ ts) = last_question (u ∷ ts)

is_empty : List HistoryTurn → Bool
is_empty [] = true
is_empty (t ∷ ts) = false

-- `retrieval_question`: the search text is the question with the last user text, cut to the limit.
unfoldable pub retrieval_question : Text → List HistoryTurn → Text
unfolding last_question is_empty
retrieval_question question turns =
    if is_empty turns || leb 510 (length question)
    then question
    else question ++ (10 ∷ take (511 - length question) (last_question turns))

-- A set of ids as a list without repetition
unfoldable pub insert_id : ℕ → List ℕ → List ℕ
insert_id i ids = if any (λ j. i == j) ids then ids else i ∷ ids

unfoldable pub set_of : List ℕ → List ℕ
unfolding insert_id
set_of [] = []
set_of (i ∷ ids) = insert_id i (set_of ids)

unfoldable pub is_subset : List ℕ → List ℕ → Bool
is_subset ids known = all (λ i. any (λ j. i == j) known) ids

-- The citations of one claim
unfoldable pub cites_badly : List ℕ → List ℕ → Bool
unfolding set_of is_subset
cites_badly known ids =
    not (length (set_of ids) == length ids) || not (is_subset (set_of ids) known)

unfoldable pub check_claims : List ℕ → List (List ℕ) → Result (Unit {0})
unfolding cites_badly
check_claims known [] = ok tt
check_claims known (ids ∷ claims) = do
  raise_if (cites_badly known ids) (app_error "answer_citation_invalid" 502)
  check_claims known claims

-- `validate_citations`: a claim stands for its `citation_ids`, an item of evidence for its id.
unfoldable pub validate_citations : List (List ℕ) → List ℕ → Result (Unit {0})
unfolding set_of check_claims
validate_citations claims evidence = do
  raise_if (not (length (set_of evidence) == length evidence))
      (app_error "answer_evidence_invalid" 409)
  check_claims (set_of evidence) claims
