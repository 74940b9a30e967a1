-- ===== src/Ranking/Model.antt =====
-- `fuse` of retrieval/ranking.py.
use ai_powered_codebase_engi.Prelude.{
  ℕ, suc, ◌+◌, ◌&&◌, ◌||◌, not, String, Bool, true, false, List, [], ◌∷◌, ◌++◌, ltb, ◌==◌,
  if◌then◌else◌, take,
}
use ai_powered_codebase_engi.Sql.{contains}
use ai_powered_codebase_engi.Runs.Model.{Text}
use ai_powered_codebase_engi.Ranking.Floats.{Score, is_less, rounded, plus}

unfoldable pub no_score : Score
no_score = record { numerator = 0; denominator = 1 }

-- `score + 1 / (60 + position)`
unfoldable pub add_reciprocal : ℕ → Score → Score
unfolding rounded plus
add_reciprocal position s = plus s (rounded (record { numerator = 1; denominator = 60 + position }))

pub record Ranked : Type 0 where
  pub chunk_id : ℕ
  pub score : Score
  pub channel_ranks : List (String × ℕ)

-- `dict.fromkeys(ids)`: the first of each, in order; `before` is what has been met.
unfoldable pub distinct_from : List ℕ → List ℕ → List ℕ
distinct_from before [] = []
distinct_from before (id ∷ ids) =
    let rest = distinct_from before ids in
    let later = distinct_from (id ∷ before) ids in if contains before id then rest else id ∷ later

-- `scores` and `ranks` as one table, in the order in which ids are met
unfoldable pub add_rank : String → ℕ → ℕ → List Ranked → List Ranked
unfolding add_reciprocal no_score
add_rank channel position id [] =
    record {
      chunk_id = id;
      score = add_reciprocal position no_score;
      channel_ranks = (channel, position) ∷ [];
    }
    ∷ []
add_rank channel position id (r ∷ rs) =
    let rest = add_rank channel position id rs in
    if r.chunk_id == id
    then record r {
      score = add_reciprocal position r.score;
      channel_ranks = r.channel_ranks ++ (channel, position) ∷ [];
    }
      ∷ rs
    else r ∷ rest

unfoldable pub add_ids : String → ℕ → List ℕ → List Ranked → List Ranked
unfolding add_rank
add_ids channel position [] table = table
add_ids channel position (id ∷ ids) table =
    add_ids channel (suc position) ids (add_rank channel position id table)

unfoldable pub add_channels : List (String × List ℕ) → List Ranked → List Ranked
unfolding add_ids distinct_from
add_channels [] table = table
add_channels ((channel, ids) ∷ channels) table =
    add_channels channels (add_ids channel 1 (distinct_from [] ids) table)

unfoldable pub text_before : Text → Text → Bool
text_before [] [] = false
text_before [] (d ∷ ds) = true
text_before (c ∷ cs) [] = false
text_before (c ∷ cs) (d ∷ ds) = ltb c d || c == d && text_before cs ds

-- The order of the sort keys; `tie` gives `tie_keys.get(key, str(key))`.
module _ (tie : ℕ → Text) where
  unfoldable pub ranks_before : Ranked → Ranked → Bool
  unfolding is_less text_before
  ranks_before r s =
      is_less s.score r.score
      || (not (is_less r.score s.score) && text_before (tie r.chunk_id) (tie s.chunk_id))

  -- `sorted`, as a stable insertion
  unfoldable pub insert_ranked : Ranked → List Ranked → List Ranked
  unfolding ranks_before
  insert_ranked r [] = r ∷ []
  insert_ranked r (s ∷ rest) =
      let later = insert_ranked r rest in if ranks_before s r then s ∷ later else r ∷ s ∷ rest

  unfoldable pub sort_ranked : List Ranked → List Ranked
  unfolding insert_ranked
  sort_ranked [] = []
  sort_ranked (r ∷ rest) = insert_ranked r (sort_ranked rest)

  unfoldable pub fuse : List (String × List ℕ) → ℕ → List Ranked
  unfolding add_channels sort_ranked
  fuse channels limit = take limit (sort_ranked (add_channels channels []))
