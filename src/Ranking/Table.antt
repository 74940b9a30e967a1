-- ===== src/Ranking/Table.antt =====
-- The table of ranks that `fuse` of retrieval/ranking.py builds.
use mathlib.Core.List.{append_assoc, append-nil}
use ai_powered_codebase_engi.Prelude.{
  ℕ, suc, ◌≡◌, ◌≢◌, refl, sym, ap, ◌∙◌, String, List, [], ◌∷◌, ◌++◌, arith, ◌==◌, ==_ne, ==_refl,
  Bool, true, false, if◌then◌else◌, map, Bool-cases, inl, inr, All,
}
use ai_powered_codebase_engi.Sql.{contains}
use ai_powered_codebase_engi.Ranking.Floats.{Score}
use ai_powered_codebase_engi.Ranking.Model.{
  no_score, add_reciprocal, Ranked, distinct_from, add_rank, add_ids, add_channels,
}

-- The sum of the reciprocals that a chunk's ranks stand for.
unfoldable pub reciprocal_sum : Score → List (String × ℕ) → Score
reciprocal_sum s [] = s
reciprocal_sum s ((channel, position) ∷ ranks) = reciprocal_sum (add_reciprocal position s) ranks

abbrev pub IsScored : Ranked → Type 0
IsScored r = r.score ≡ reciprocal_sum no_score r.channel_ranks

reciprocal_sum-append :
    (s : Score) (ranks : List (String × ℕ)) (channel : String) (position : ℕ)
    → reciprocal_sum s (ranks ++ (channel, position) ∷ [])
      ≡ add_reciprocal position (reciprocal_sum s ranks)
unfolding reciprocal_sum
reciprocal_sum-append s [] channel position = refl
reciprocal_sum-append s ((c, p) ∷ ranks) channel position =
    reciprocal_sum-append (add_reciprocal p s) ranks channel position

-- No chunk stands twice.
abbrev pub DistinctChunks : List Ranked → Type 0
DistinctChunks [] = Unit
DistinctChunks (r ∷ rs) = All (λ s. r.chunk_id ≢ s.chunk_id) rs × DistinctChunks rs

pub record IsTable (rs : List Ranked) : Type 0 where
  pub scored : All IsScored rs
  pub distinct : DistinctChunks rs

add_rank-other :
    (channel : String) (position id other : ℕ) (rs : List Ranked)
    → other ≢ id
    → All (λ s. other ≢ s.chunk_id) rs
    → All (λ s. other ≢ s.chunk_id) (add_rank channel position id rs)
unfolding add_rank
add_rank-other channel position id other [] ne h = (ne, tt)
add_rank-other channel position id other (r ∷ rs) ne h = elim (Bool-cases (r.chunk_id == id)) [
  | inl e ↦ rw e (h.0, h.1)
  | inr e ↦ rw e (h.0, add_rank-other channel position id other rs ne h.1)
]

add_rank-IsTable :
    (channel : String) (position id : ℕ) (rs : List Ranked)
    → IsTable rs
    → IsTable (add_rank channel position id rs)
unfolding add_rank
add_rank-IsTable channel position id [] h = record {
  scored = ((unfold reciprocal_sum in refl), tt);
  distinct = (tt, tt);
}
add_rank-IsTable channel position id (r ∷ rs) h = elim (Bool-cases (r.chunk_id == id)) [
  | inl e ↦ rw e (record {
    scored = (
      ap (add_reciprocal position) h.scored.0
          ∙ sym (reciprocal_sum-append no_score r.channel_ranks channel position),
      h.scored.1,
    );
    distinct = h.distinct;
  })
  | inr e ↦
      let rest =
        add_rank-IsTable channel position id rs
          (record { scored = h.scored.1; distinct = h.distinct.1 }) in
      rw e (record {
        scored = (h.scored.0, rest.scored);
        distinct = (
          add_rank-other channel position id r.chunk_id rs (ground (arith, e)) h.distinct.0,
          rest.distinct,
        );
      })
]

add_ids-IsTable :
    (channel : String) (position : ℕ) (ids : List ℕ) (rs : List Ranked)
    → IsTable rs
    → IsTable (add_ids channel position ids rs)
unfolding add_ids
add_ids-IsTable channel position [] rs h = h
add_ids-IsTable channel position (id ∷ ids) rs h =
    add_ids-IsTable channel (suc position) ids _ (add_rank-IsTable channel position id rs h)

pub add_channels-IsTable :
    (channels : List (String × List ℕ)) (rs : List Ranked)
    → IsTable rs
    → IsTable (add_channels channels rs)
unfolding add_channels
add_channels-IsTable [] rs h = h
add_channels-IsTable ((channel, ids) ∷ channels) rs h =
    add_channels-IsTable channels _ (add_ids-IsTable channel 1 (distinct_from [] ids) rs h)

-- The ranks of a chunk in a table, and those that channels give to it: its position among the ids of
-- each channel.
unfoldable pub ranks_in : ℕ → List Ranked → List (String × ℕ)
ranks_in id [] = []
ranks_in id (r ∷ rs) =
    let rest = ranks_in id rs in if r.chunk_id == id then r.channel_ranks else rest

unfoldable pub rank_here : String → ℕ → Bool → List (String × ℕ)
rank_here channel position true = (channel, position) ∷ []
rank_here channel position false = []

unfoldable pub ranks_among : String → ℕ → ℕ → List ℕ → List (String × ℕ)
unfolding rank_here
ranks_among channel position id [] = []
ranks_among channel position id (j ∷ js) =
    rank_here channel position (j == id) ++ ranks_among channel (suc position) id js

unfoldable pub ranks_of : ℕ → List (String × List ℕ) → List (String × ℕ)
unfolding ranks_among
ranks_of id [] = []
ranks_of id ((channel, ids) ∷ channels) =
    ranks_among channel 1 id (distinct_from [] ids) ++ ranks_of id channels

add_rank-ranks_in :
    (channel : String) (position j id : ℕ) (rs : List Ranked)
    → ranks_in id (add_rank channel position j rs)
      ≡ ranks_in id rs ++ rank_here channel position (j == id)
unfolding add_rank ranks_in rank_here
add_rank-ranks_in channel position j id [] = elim (Bool-cases (j == id)) [
  | inl e ↦ rw e refl
  | inr e ↦ rw e refl
]
add_rank-ranks_in channel position j id (r ∷ rs) = elim (Bool-cases (r.chunk_id == j)) [
  | inl e ↦ elim (Bool-cases (r.chunk_id == id)) [
    | inl f ↦ let both : (j == id) ≡ true = ground (arith, e, f) in rw (e, f, both) refl
    | inr f ↦
        let other : (j == id) ≡ false = ground (arith, e, f) in
        rw (e, f, other) (sym (append-nil (ranks_in id rs)))
  ]
  | inr e ↦ elim (Bool-cases (r.chunk_id == id)) [
    | inl f ↦
        let other : (j == id) ≡ false = ground (arith, e, f) in
        rw (e, f, other) (sym (append-nil r.channel_ranks))
    | inr f ↦ rw (e, f) (add_rank-ranks_in channel position j id rs)
  ]
]

add_ids-ranks_in :
    (channel : String) (position : ℕ) (ids : List ℕ) (id : ℕ) (rs : List Ranked)
    → ranks_in id (add_ids channel position ids rs)
      ≡ ranks_in id rs ++ ranks_among channel position id ids
unfolding add_ids ranks_among
add_ids-ranks_in channel position [] id rs = sym (append-nil (ranks_in id rs))
add_ids-ranks_in channel position (j ∷ js) id rs =
    add_ids-ranks_in channel (suc position) js id (add_rank channel position j rs)
    ∙ ap (λ l. l ++ ranks_among channel (suc position) id js)
        (add_rank-ranks_in channel position j id rs)
    ∙ append_assoc (ranks_in id rs) (rank_here channel position (j == id))
        (ranks_among channel (suc position) id js)

pub add_channels-ranks_in :
    (channels : List (String × List ℕ)) (id : ℕ) (rs : List Ranked)
    → ranks_in id (add_channels channels rs) ≡ ranks_in id rs ++ ranks_of id channels
unfolding add_channels ranks_of
add_channels-ranks_in [] id rs = sym (append-nil (ranks_in id rs))
add_channels-ranks_in ((channel, ids) ∷ channels) id rs =
    let first = distinct_from [] ids in
    add_channels-ranks_in channels id (add_ids channel 1 first rs)
    ∙ ap (λ l. l ++ ranks_of id channels) (add_ids-ranks_in channel 1 first id rs)
    ∙ append_assoc (ranks_in id rs) (ranks_among channel 1 id first) (ranks_of id channels)

later_ranks :
    (r : Ranked) (rs qs : List Ranked)
    → All (λ s. r.chunk_id ≢ s.chunk_id) qs
    → All (λ s. ranks_in s.chunk_id rs ≡ s.channel_ranks) qs
    → All (λ s. ranks_in s.chunk_id (r ∷ rs) ≡ s.channel_ranks) qs
unfolding ranks_in
later_ranks r rs [] n h = tt
later_ranks r rs (q ∷ qs) n h =
    (rw (==_ne r.chunk_id q.chunk_id n.0) h.0, later_ranks r rs qs n.1 h.1)

-- In a table without repetition each row has the ranks of its chunk.
pub own_ranks :
    (rs : List Ranked) → DistinctChunks rs → All (λ s. ranks_in s.chunk_id rs ≡ s.channel_ranks) rs
unfolding ranks_in
own_ranks [] h = tt
own_ranks (r ∷ rs) h = (rw (==_refl r.chunk_id) refl, later_ranks r rs rs h.0 (own_ranks rs h.1))

pub ranked-contains :
    (id : ℕ) (rs : List Ranked)
    → ranks_in id rs ≢ []
    → contains (map (λ (r : Ranked). r.chunk_id) rs) id ≡ true
unfolding ranks_in
ranked-contains id [] h = absurd (h refl)
ranked-contains id (r ∷ rs) h = elim (Bool-cases (r.chunk_id == id)) [
  | inl e ↦ rw e refl
  | inr e ↦ rw e (ranked-contains id rs (λ q. h (rw e q)))
]

-- Each row of a table has a rank.
add_rank-ranked :
    (channel : String) (position id : ℕ) (rs : List Ranked)
    → All (λ s. s.channel_ranks ≢ []) rs
    → All (λ s. s.channel_ranks ≢ []) (add_rank channel position id rs)
unfolding add_rank
add_rank-ranked channel position id [] h = ((λ e. cc), tt)
add_rank-ranked channel position id (r ∷ rs) h = elim (Bool-cases (r.chunk_id == id)) [
  | inl e ↦ rw e (append-not_nil r.channel_ranks, h.1)
  | inr e ↦ rw e (h.0, add_rank-ranked channel position id rs h.1)
]
  where
    append-not_nil : (xs : List (String × ℕ)) → xs ++ (channel, position) ∷ [] ≢ []
    append-not_nil [] e = cc
    append-not_nil (x ∷ xs) e = cc

add_ids-ranked :
    (channel : String) (position : ℕ) (ids : List ℕ) (rs : List Ranked)
    → All (λ s. s.channel_ranks ≢ []) rs
    → All (λ s. s.channel_ranks ≢ []) (add_ids channel position ids rs)
unfolding add_ids
add_ids-ranked channel position [] rs h = h
add_ids-ranked channel position (id ∷ ids) rs h =
    add_ids-ranked channel (suc position) ids _ (add_rank-ranked channel position id rs h)

pub add_channels-ranked :
    (channels : List (String × List ℕ)) (rs : List Ranked)
    → All (λ s. s.channel_ranks ≢ []) rs
    → All (λ s. s.channel_ranks ≢ []) (add_channels channels rs)
unfolding add_channels
add_channels-ranked [] rs h = h
add_channels-ranked ((channel, ids) ∷ channels) rs h =
    add_channels-ranked channels _ (add_ids-ranked channel 1 (distinct_from [] ids) rs h)

pub renamed_ranks :
    (table : List Ranked) (ranks : ℕ → List (String × ℕ))
    → ((id : ℕ) → ranks_in id table ≡ ranks id)
    → (rs : List Ranked) → All (λ s. ranks_in s.chunk_id table ≡ s.channel_ranks) rs
    → All (λ s. s.channel_ranks ≡ ranks s.chunk_id) rs
renamed_ranks table ranks same [] h = tt
renamed_ranks table ranks same (r ∷ rs) h =
    (sym h.0 ∙ same r.chunk_id, renamed_ranks table ranks same rs h.1)
