-- ===== src/Ranking/Tests.antt =====
-- Two channels that agree on one chunk.
use ai_powered_codebase_engi.Prelude.{ℕ, ◌≡◌, refl, String, List, [], ◌∷◌, map}
use ai_powered_codebase_engi.Ranking.Floats.{
  is_less, digits_from, round_half_even, round_at, rounded, plus,
}
use ai_powered_codebase_engi.Ranking.Model.{
  Ranked, distinct_from, add_rank, add_ids, add_channels, text_before, ranks_before, insert_ranked,
  sort_ranked, fuse, add_reciprocal, no_score,
}

abbrev channels : List (String × List ℕ)
channels = ("lexical", 5 ∷ 6 ∷ 5 ∷ []) ∷ ("symbol", 6 ∷ []) ∷ []

fused : map (λ (r : Ranked). r.chunk_id) (fuse (λ id. id ∷ []) channels 8) ≡ 6 ∷ 5 ∷ []
unfolding is_less digits_from round_half_even round_at rounded plus distinct_from add_rank add_ids
    add_channels text_before ranks_before insert_ranked sort_ranked fuse add_reciprocal no_score
fused = refl
