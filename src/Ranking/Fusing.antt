-- ===== src/Ranking/Fusing.antt =====
-- What `fuse` of retrieval/ranking.py returns.
use ai_powered_codebase_engi.Prelude.{
  ℕ, ◌≡◌, ◌≢◌, String, true, false, List, [], ◌∷◌, All, take, map, ◌++◌,
}
use ai_powered_codebase_engi.Runs.Model.{Text}
use ai_powered_codebase_engi.Sql.{contains}
use ai_powered_codebase_engi.Ranking.Model.{Ranked, ranks_before}
use ai_powered_codebase_engi.Ranking.Table.{IsScored, DistinctChunks, IsTable, ranks_of}

-- The next never comes before the one ahead of it.
module _ (tie : ℕ → Text) where
  abbrev pub IsOrdered : List Ranked → Type 0
  IsOrdered [] = Unit
  IsOrdered (r ∷ []) = Unit
  IsOrdered (r ∷ s ∷ rs) = (ranks_before tie s r ≡ false) × IsOrdered (s ∷ rs)

abbrev pub ids_in : List Ranked → List ℕ
ids_in rs = map (λ (r : Ranked). r.chunk_id) rs

module _ (tie : ℕ → Text) where
  record IsSorting (rs sorted : List Ranked) : Type 0 where
    table : IsTable sorted
    ordered : IsOrdered tie sorted
    same_ids : (id : ℕ) → contains (ids_in sorted) id ≡ contains (ids_in rs) id

  -- What is returned is the front of a list of all the chunks of the channels, in order.
  pub record IsRanking (channels : List (String × List ℕ)) (limit : ℕ) (rs : List Ranked)
      : Type 0 where
    pub others : List Ranked
    pub front : take limit (rs ++ others) ≡ rs
    pub ordered : IsOrdered tie (rs ++ others)
    pub distinct : DistinctChunks (rs ++ others)
    pub scored : All IsScored (rs ++ others)
    pub ranked : All (λ r. r.channel_ranks ≡ ranks_of r.chunk_id channels) (rs ++ others)
    pub occurring : All (λ r. r.channel_ranks ≢ []) (rs ++ others)
    pub complete : (id : ℕ) → ranks_of id channels ≢ [] → contains (ids_in (rs ++ others)) id ≡ true
