-- ===== src/Ranking/Floats.antt =====
-- The floating-point numbers of `fuse` in retrieval/ranking.py: binary64, for numbers that are not
-- negative and below 2 ^ 53. A number is a fraction.
use ai_powered_codebase_engi.Prelude.{
  ℕ, zero, suc, ◌+◌, ◌*◌, ◌/◌, ◌%◌, ◌^◌, ◌&&◌, ◌||◌, Bool, true, false, leb, ltb, ◌==◌,
  if◌then◌else◌,
}

pub record Score : Type 0 where
  pub numerator : ℕ
  pub denominator : ℕ

unfoldable pub is_less : Score → Score → Bool
is_less s t = ltb (s.numerator * t.denominator) (t.numerator * s.denominator)

-- The least exponent that gives the number 53 binary digits, up to that of the subnormal numbers.
unfoldable pub digits_from : ℕ → ℕ → Score → ℕ
digits_from zero e s = e
digits_from (suc fuel) e s = elim (leb (s.denominator * 2 ^ 52) (s.numerator * 2 ^ e)) [
  | true ↦ e
  | false ↦ digits_from fuel (suc e) s
]

-- To the nearest, and of two to the even one
unfoldable pub round_half_even : ℕ → ℕ → ℕ
round_half_even n d =
    let q = n / d in
    let r = n % d in if ltb d (2 * r) || (2 * r == d && q % 2 == 1) then q + 1 else q

unfoldable pub round_at : ℕ → Score → Score
unfolding round_half_even
round_at e s = record {
  numerator = round_half_even (s.numerator * 2 ^ e) s.denominator;
  denominator = 2 ^ e;
}

unfoldable pub rounded : Score → Score
unfolding digits_from round_at
rounded s = round_at (digits_from 1074 0 s) s

unfoldable pub plus : Score → Score → Score
unfolding rounded
plus s t = rounded (record {
  numerator = s.numerator * t.denominator + t.numerator * s.denominator;
  denominator = s.denominator * t.denominator;
})
