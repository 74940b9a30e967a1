-- ===== src/Limits/Tests.antt =====
-- A store of counters as a function, and a check of two limits on it.
use mathlib.Core.Bool.{false≢true}
use text.Mathlib.TextEquality.{eq_iff}
use ai_powered_codebase_engi.Prelude.{
  ℕ, ◌+◌, ◌≡◌, ◌≢◌, refl, String, false, List, [], ◌∷◌, if◌then◌else◌, Bool-cases, inl, inr, arith,
}
use ai_powered_codebase_engi.Search.Model.{same_text}
use ai_powered_codebase_engi.Limits.Model.{Limit, Redis, IsRedis, check}
use ai_powered_codebase_engi.Limits.Counting.{IsChecked, check-IsChecked}

abbrev counters : Redis (String → ℕ)
counters = record {
  get = λ k r. r k;
  incr = λ k r l. if same_text k l then r l + 1 else r l;
  expire = λ k n r. r;
}

same_text_ne : (k l : String) → k ≢ l → same_text k l ≡ false
same_text_ne k l ne = elim (Bool-cases (same_text k l)) [
  | inl e ↦ absurd (ne ((eq_iff k l).0 e))
  | inr e ↦ e
]

counters-IsRedis : IsRedis counters
counters-IsRedis = record {
  get_incr = λ k r. rw ((eq_iff k k).1 refl) refl;
  get_incr_ne = λ k l r ne. rw (same_text_ne k l ne) refl;
  get_expire = λ k l n r lasts. refl;
}

abbrev minute : String
minute = "minute:1"

abbrev day : String
day = "day:1"

abbrev two_limits : List Limit
two_limits =
    record { key = minute; count = 10; seconds = 60 }
    ∷ record { key = day; count = 60; seconds = 86400 }
    ∷ []

keys_differ : minute ≢ day
keys_differ e = false≢true ((eq_iff minute day).1 e)

check-IsChecked_example :
    IsChecked counters counters-IsRedis two_limits (λ k. 3) (check counters two_limits (λ k. 3))
check-IsChecked_example =
    check-IsChecked counters counters-IsRedis two_limits (λ k. 3) ((keys_differ, tt), (tt, tt))
      (omega arith, (omega arith, tt))
