-- ===== src/Context/Longest.antt =====
-- The loops of generation/history.py and generation/context.py, which drop the oldest turns.
use ai_powered_codebase_engi.Prelude.{
  ◌-◌, ◌≤◌, ◌≡◌, refl, sym, ap, ◌∙◌, not, Bool, true, false, List, [], ◌∷◌, ◌++◌, arith, length,
  drop, length-drop, length-append, Bool-cases, inl, inr, ◌⊎◌,
}
use ai_powered_codebase_engi.Prelude.Result.{Result, ok, err, app_error}
use ai_powered_codebase_engi.Runs.Model.{Text, HistoryTurn}
use ai_powered_codebase_engi.Context.Model.{
  Encoder, over_limit, shorten, bounded_history, fits, context_from, build_context,
}

-- Turns of which the test refused every longer rest.
abbrev pub Refused : (List HistoryTurn → Bool) → List HistoryTurn → List HistoryTurn → Type 0
Refused fit [] selected = Unit
Refused fit (t ∷ ts) selected = (fit (t ∷ ts ++ selected) ≡ false) × Refused fit ts selected

-- The longest rest of the turns that passes the test; the empty rest need not be tested.
pub record IsLongest (fit : List HistoryTurn → Bool) (turns selected : List HistoryTurn)
    : Type 0 where
  pub dropped : List HistoryTurn
  pub split : turns ≡ dropped ++ selected
  pub refused : Refused fit dropped selected
  pub accepted : (selected ≡ []) ⊎ (fit selected ≡ true)

module _ {E : Type 0} (encoder : Encoder E) where
  abbrev pub within : List HistoryTurn → Bool
  within turns = not (over_limit encoder turns)

  shorten-IsLongest : (turns : List HistoryTurn) → IsLongest within turns (shorten encoder turns)
  unfolding shorten
  shorten-IsLongest [] = record { dropped = []; split = refl; refused = tt; accepted = inl refl }
  shorten-IsLongest (t ∷ ts) = elim (Bool-cases (over_limit encoder (t ∷ ts))) [
    | inl e ↦
        let k = shorten-IsLongest ts in
        rw e (record {
          dropped = t ∷ k.dropped;
          split = ap (λ l. t ∷ l) k.split;
          refused =
              (ap (λ l. not (over_limit encoder (t ∷ l))) (sym k.split) ∙ ap not e, k.refused);
          accepted = k.accepted;
        })
    | inr e ↦ rw e (record { dropped = []; split = refl; refused = tt; accepted = inr (ap not e) })
  ]

  -- The dialogue that is kept is the longest rest of the last three turns within 1000 tokens and 8192
  -- bytes, or nothing.
  pub bounded_history-IsLongest :
      (turns : List HistoryTurn)
      → IsLongest within (drop (length turns - 3) turns) (bounded_history encoder turns)
        × (length (bounded_history encoder turns) ≤ 3)
  unfolding bounded_history
  bounded_history-IsLongest turns =
      let last = drop (length turns - 3) turns in
      let k = shorten-IsLongest last in
      (
        k,
        omega (
          arith,
          length-drop (length turns - 3) turns,
          ap length k.split,
          length-append k.dropped (shorten encoder last),
        ),
      )

  module _ (question : Text) (evidence : List E) where
    -- What `build_context` returns for the turns it starts from.
    abbrev pub IsContext : List HistoryTurn → Result (Text × List HistoryTurn) → Type 0
    IsContext turns (ok (payload, selected)) =
        (payload ≡ encoder.payload question evidence selected)
        × (fits encoder question evidence selected ≡ true)
        × IsLongest (fits encoder question evidence) turns selected
    IsContext turns (err failure) =
        (failure ≡ app_error "answer_context_limit" 422)
        × (fits encoder question evidence [] ≡ false)
        × IsLongest (fits encoder question evidence) turns []

    context_from-IsContext :
        (turns : List HistoryTurn) → IsContext turns (context_from encoder question evidence turns)
    unfolding context_from
    context_from-IsContext [] = elim (Bool-cases (fits encoder question evidence [])) [
      | inl e ↦
          rw e (refl, e, record { dropped = []; split = refl; refused = tt; accepted = inl refl })
      | inr e ↦
          rw e (refl, e, record { dropped = []; split = refl; refused = tt; accepted = inl refl })
    ]
    context_from-IsContext (t ∷ ts) = elim (Bool-cases (fits encoder question evidence (t ∷ ts))) [
      | inl e ↦
          rw e (refl, e, record { dropped = []; split = refl; refused = tt; accepted = inr e })
      | inr e ↦
          rw e (more e (context_from encoder question evidence ts) (context_from-IsContext ts))
    ]
      where
        longer :
            fits encoder question evidence (t ∷ ts) ≡ false
            → (selected : List HistoryTurn) → IsLongest (fits encoder question evidence) ts selected
            → IsLongest (fits encoder question evidence) (t ∷ ts) selected
        longer e selected k = record {
          dropped = t ∷ k.dropped;
          split = ap (λ l. t ∷ l) k.split;
          refused = (ap (λ l. fits encoder question evidence (t ∷ l)) (sym k.split) ∙ e, k.refused);
          accepted = k.accepted;
        }

        more :
            fits encoder question evidence (t ∷ ts) ≡ false
            → (out : Result (Text × List HistoryTurn)) → IsContext ts out
            → IsContext (t ∷ ts) out
        more e (ok (payload, selected)) (a, b, k) = (a, b, longer e selected k)
        more e (err failure) (a, b, k) = (a, b, longer e [] k)

    -- For every history `build_context` returns the payload with the longest rest of the bounded
    -- history that keeps it within 65536 bytes and 8000 tokens; it fails, with
    -- `answer_context_limit`, only where even the payload without history is too large.
    pub build_context-IsContext :
        (history : List HistoryTurn)
        → IsContext
            (bounded_history encoder history)
            (build_context encoder question evidence history)
    unfolding build_context
    build_context-IsContext history = context_from-IsContext (bounded_history encoder history)
