-- ===== src/Limits/Counting.antt =====
-- What a check of core/rate_limits.py counts.
use ai_powered_codebase_engi.Prelude.{
  ◌+◌, ◌≤◌, ◌<◌, ◌≡◌, ◌≢◌, refl, sym, ap, ◌∙◌, String, true, false, List, [], ◌∷◌, arith, ◌==◌, any,
  All, All-map, All-zip, Bool-cases, inl, inr,
}
use ai_powered_codebase_engi.Prelude.Result.{Result, ok, err, app_error}
use ai_powered_codebase_engi.Limits.Model.{
  Limit, Redis, IsRedis, is_full, take_one, take_all_of, script, refusal, answer, check,
}

-- The keys of one check differ.
abbrev pub HasDistinctKeys : List Limit → Type 0
HasDistinctKeys [] = Unit
HasDistinctKeys (l ∷ ls) = All (λ (m : Limit). l.key ≢ m.key) ls × HasDistinctKeys ls

module _ {R : Type 0} (redis : Redis R) (law : IsRedis redis) where
  take_one_self :
      (l : Limit) (r : R)
      → 0 < l.seconds
      → redis.get l.key (take_one redis l r) ≡ redis.get l.key r + 1
  unfolding take_one
  take_one_self l r lasts = elim (Bool-cases (redis.get l.key (redis.incr l.key r) == 1)) [
    | inl e ↦ rw e (law.get_expire l.key l.key l.seconds _ lasts ∙ law.get_incr l.key r)
    | inr e ↦ rw e (law.get_incr l.key r)
  ]

  take_one_ne :
      (l : Limit) (k : String) (r : R)
      → l.key ≢ k
      → 0 < l.seconds
      → redis.get k (take_one redis l r) ≡ redis.get k r
  unfolding take_one
  take_one_ne l k r ne lasts = elim (Bool-cases (redis.get l.key (redis.incr l.key r) == 1)) [
    | inl e ↦ rw e (law.get_expire l.key k l.seconds _ lasts ∙ law.get_incr_ne l.key k r ne)
    | inr e ↦ rw e (law.get_incr_ne l.key k r ne)
  ]

  take_all_of_ne :
      (ls : List Limit) (k : String) (r : R)
      → All (λ (m : Limit). k ≢ m.key) ls
      → All (λ (m : Limit). 0 < m.seconds) ls
      → redis.get k (take_all_of redis ls r) ≡ redis.get k r
  unfolding take_all_of
  take_all_of_ne [] k r h lasts = refl
  take_all_of_ne (l ∷ ls) k r h lasts =
      take_all_of_ne ls k (take_one redis l r) h.1 lasts.1
      ∙ take_one_ne l k r (λ e. h.0 (sym e)) lasts.0

  counted_each :
      (ls : List Limit) (r : R)
      → HasDistinctKeys ls
      → All (λ (m : Limit). 0 < m.seconds) ls
      → All (λ (m : Limit). redis.get m.key (take_all_of redis ls r) ≡ redis.get m.key r + 1) ls
  unfolding take_all_of
  counted_each [] r h lasts = tt
  counted_each (l ∷ ls) r h lasts = (
    take_all_of_ne ls l.key (take_one redis l r) h.0 lasts.1 ∙ take_one_self l r lasts.0,
    All-map (λ m k. k.0 ∙ ap (λ n. n + 1) (take_one_ne l m.key r k.1 lasts.0)) ls
        (All-zip _ _ ls (counted_each ls (take_one redis l r) h.1 lasts.1) h.0),
  )

  room_left :
      (ls : List Limit) (r : R)
      → any (is_full redis r) ls ≡ false
      → All (λ (m : Limit). redis.get m.key r + 1 ≤ m.count) ls
  unfolding is_full
  room_left [] r e = tt
  room_left (l ∷ ls) r e = (ground arith, room_left ls r (ground arith))

  -- What a check comes to: it is refused and counts nothing, or it counts one for each of its keys
  -- and none of them passes its limit.
  abbrev pub IsChecked : List Limit → R → Result (Unit {0}) × R → Type 0
  IsChecked ls r (ok u, after) =
      All
        (λ (m : Limit).
          (redis.get m.key after ≡ redis.get m.key r + 1) × (redis.get m.key after ≤ m.count))
        ls
      × ((k : String) → All (λ (m : Limit). k ≢ m.key) ls → redis.get k after ≡ redis.get k r)
  IsChecked ls r (err failure, after) =
      (after ≡ r) × (any (is_full redis r) ls ≡ true) × (failure ≡ app_error (refusal redis ls) 429)

  -- For limits on different keys and over a second or more a check either is refused, since some counter has reached its limit,
  -- and then changes nothing, or it is passed, and then every counter named has gone up by one and is
  -- within its limit, and no other counter has changed.
  pub check-IsChecked :
      (ls : List Limit) (r : R)
      → HasDistinctKeys ls
      → All (λ (m : Limit). 0 < m.seconds) ls
      → IsChecked ls r (check redis ls r)
  unfolding check script answer
  check-IsChecked ls r h lasts = elim (Bool-cases (any (is_full redis r) ls)) [
    | inl e ↦ rw e (refl, e, refl)
    | inr e ↦ rw e (
      All-map (λ m k. (k.0, omega (arith, k.0, k.1))) ls
          (All-zip _ _ ls (counted_each ls r h lasts) (room_left ls r e)),
      λ k other. take_all_of_ne ls k r other lasts,
    )
  ]
