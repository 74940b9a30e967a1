-- ===== src/Context/Tests.antt =====
-- A dialogue of two turns, and a draft with two claims.
use ai_powered_codebase_engi.Prelude.{
  ℕ, ◌*◌, ◌-◌, ◌≤◌, ◌≡◌, ◌↔◌, List, [], ◌∷◌, ◌++◌, All, length, drop,
}
use ai_powered_codebase_engi.Prelude.Result.{ok}
use ai_powered_codebase_engi.Runs.Model.{Text, HistoryTurn}
use ai_powered_codebase_engi.Context.Model.{
  Encoder, bounded_history, build_context, validate_citations,
}
use ai_powered_codebase_engi.Context.Longest.{
  IsLongest, within, bounded_history-IsLongest, IsContext, build_context-IsContext,
}
use ai_powered_codebase_engi.Context.Citations.{HasNoRepeat, IsCited, validate_citations_iff}

-- Every turn is encoded by its answer, every item of evidence by itself.
answers : List HistoryTurn → Text
answers [] = []
answers (t ∷ ts) = t.answer ++ answers ts

abbrev plain : Encoder ℕ
plain = record {
  history_json = answers;
  payload = λ question evidence turns. question ++ evidence ++ answers turns;
  count_tokens = λ text. 600 * length text;
  bytes = length;
  instructions = [];
}

abbrev turn : ℕ → HistoryTurn
turn id = record { turn_id = id; question = 81 ∷ []; answer = id ∷ [] }

abbrev dialogue : List HistoryTurn
dialogue = turn 1 ∷ turn 2 ∷ []

bounded_history-IsLongest_example :
    IsLongest (within plain) (drop (length dialogue - 3) dialogue) (bounded_history plain dialogue)
    × (length (bounded_history plain dialogue) ≤ 3)
bounded_history-IsLongest_example = bounded_history-IsLongest plain dialogue

build_context-IsContext_example :
    IsContext plain
      (81 ∷ [])
      (5 ∷ 6 ∷ [])
      (bounded_history plain dialogue)
      (build_context plain (81 ∷ []) (5 ∷ 6 ∷ []) dialogue)
build_context-IsContext_example = build_context-IsContext plain (81 ∷ []) (5 ∷ 6 ∷ []) dialogue

validate_citations_iff_example :
    (validate_citations ((5 ∷ []) ∷ (6 ∷ 5 ∷ []) ∷ []) (5 ∷ 6 ∷ []) ≡ ok tt)
    ↔ (HasNoRepeat (5 ∷ 6 ∷ []) × All (IsCited (5 ∷ 6 ∷ [])) ((5 ∷ []) ∷ (6 ∷ 5 ∷ []) ∷ []))
validate_citations_iff_example = validate_citations_iff ((5 ∷ []) ∷ (6 ∷ 5 ∷ []) ∷ []) (5 ∷ 6 ∷ [])
