-- ===== src/Chunks/Lines.antt =====
-- The line offsets of `chunk_source` in indexing/chunks.py, and the regions made from them.
use ai_powered_codebase_engi.Prelude.{
  ℕ, zero, suc, ◌+◌, ◌≤◌, ◌≡◌, refl, Bool, true, false, Option, none, some, List, [], ◌∷◌, arith,
  length, get_elem?, All, Bool-cases, inl, inr, subst,
}
use ai_powered_codebase_engi.Sql.{none≢some}
use ai_powered_codebase_engi.Chunks.Model.{Text, Symbol, breaks}
use ai_powered_codebase_engi.Chunks.Spans.{
  line_ends, line_starts, start_of, or_end, end_of, Region, region_at, ancestors, keep_region,
  is_definition, is_shadowed, regions_from, ◌>>=◌,
}
use ai_powered_codebase_engi.Chunks.Tiling.{IsRegion}

-- Numbers in order, from `low` to `high`.
abbrev pub Ascending : ℕ → ℕ → List ℕ → Type 0
Ascending low high [] = low ≤ high
Ascending low high (x ∷ xs) = (low ≤ x) × Ascending x high xs

Ascending-weaken :
    (low lower high : ℕ) (xs : List ℕ)
    → lower ≤ low
    → Ascending low high xs
    → Ascending lower high xs
Ascending-weaken low lower high [] h k = omega arith
Ascending-weaken low lower high (x ∷ xs) h k = (omega (arith, k.0), k.1)

line_ends-Ascending :
    (i high : ℕ) (content : Text)
    → i + length content ≡ high
    → Ascending i high (line_ends i content)
unfolding line_ends
line_ends-Ascending i high [] e = omega arith
line_ends-Ascending i high (c ∷ rest) e =
    let k = line_ends-Ascending (suc i) high rest (omega arith) in
    elim (Bool-cases (breaks c rest)) [
      | inl b ↦ rw b (omega arith, k)
      | inr b ↦ rw b (Ascending-weaken (suc i) i high _ (omega arith) k)
    ]

Ascending-order : (low high : ℕ) (xs : List ℕ) → Ascending low high xs → low ≤ high
Ascending-order low high [] h = h
Ascending-order low high (x ∷ xs) h = omega (arith, h.0, Ascending-order x high xs h.1)

Ascending-get :
    (low high i : ℕ) (xs : List ℕ) {x : ℕ}
    → Ascending low high xs
    → get_elem? xs i ≡ some x
    → (low ≤ x) × (x ≤ high)
Ascending-get low high i [] h e = absurd (none≢some e)
Ascending-get low high zero (y ∷ ys) {x} h e =
    let same : y ≡ x = cc in omega (arith, same, h.0, Ascending-order y high ys h.1)
Ascending-get low high (suc i) (y ∷ ys) h e =
    let k = Ascending-get y high i ys h.1 e in (omega (arith, h.0, k.0), k.1)

Ascending-or_end :
    (low high j : ℕ) (xs : List ℕ)
    → Ascending low high xs
    → (low ≤ or_end high (get_elem? xs j)) × (or_end high (get_elem? xs j) ≤ high)
unfolding or_end
Ascending-or_end low high j [] h = (h, omega arith)
Ascending-or_end low high zero (y ∷ ys) h = (h.0, Ascending-order y high ys h.1)
Ascending-or_end low high (suc j) (y ∷ ys) h =
    let k = Ascending-or_end y high j ys h.1 in (omega (arith, h.0, k.0), k.1)

-- An earlier line starts no later.
Ascending-mono :
    (low high i j : ℕ) (xs : List ℕ) {x : ℕ}
    → Ascending low high xs
    → i ≤ j
    → get_elem? xs i ≡ some x
    → (x ≤ or_end high (get_elem? xs j)) × (or_end high (get_elem? xs j) ≤ high)
Ascending-mono low high i j [] h k e = absurd (none≢some e)
Ascending-mono low high zero j (y ∷ ys) {x} h k e =
    let same : y ≡ x = cc in
    subst
      (λ z. (z ≤ or_end high (get_elem? (y ∷ ys) j)) × (or_end high (get_elem? (y ∷ ys) j) ≤ high))
      same (Ascending-or_end y high j (y ∷ ys) (omega arith, h.1))
Ascending-mono low high (suc i) zero (y ∷ ys) h k e = absurd (omega (arith, k))
Ascending-mono low high (suc i) (suc j) (y ∷ ys) h k e =
    Ascending-mono y high i j ys h.1 (omega arith) e

-- The lines of a symbol as the parser gives them: counted from 1, the first no later than the last.
abbrev pub IsPlaced : Symbol → Type 0
IsPlaced s = (1 ≤ s.start_line) × (s.start_line ≤ s.end_line)

start_of-bounds :
    (content : Text) (line last : ℕ) {x : ℕ}
    → 1 ≤ line
    → line ≤ last
    → start_of (line_starts content) line ≡ some x
    → (x ≤ end_of (line_starts content) content last)
      × (end_of (line_starts content) content last ≤ length content)
unfolding start_of end_of line_starts
start_of-bounds content zero last h k e = absurd (omega (arith, h))
start_of-bounds content (suc i) last h k e =
    Ascending-mono 0 (length content) i last (0 ∷ line_ends 0 content)
      (omega arith, line_ends-Ascending 0 (length content) content (omega arith)) (omega arith) e

pub bind-eq-some {ℓ κ} :
    {A : Type ℓ} {B : Type κ} (found : Option A) (use_it : A → Option B) {b : B}
    → (found >>= use_it) ≡ some b
    → (a : A) × (found ≡ some a) × (use_it a ≡ some b)
bind-eq-some none use_it e = absurd (none≢some e)
bind-eq-some (some a) use_it e = (a, refl, e)

some_injective {ℓ} : {A : Type ℓ} {a b : A} → some a ≡ some b → a ≡ b
some_injective e = cc

region_at-IsRegion :
    (content : Text) (symbols : List Symbol) (i : ℕ) (s : Symbol) {r : Region}
    → IsPlaced s
    → region_at content symbols i s ≡ some r
    → IsRegion (length content) r
unfolding region_at
region_at-IsRegion content symbols i s {r} h e =
    let (begin, found, made) = bind-eq-some (start_of (line_starts content) s.start_line) _ e in
    subst (IsRegion (length content)) (some_injective made)
      (start_of-bounds content s.start_line s.end_line h.0 h.1 found)

keep_region-IsRegion :
    (size : ℕ) (skip : Bool) (region : Option Region) (later : Option (List Region))
    {rs : List Region}
    → ((r : Region) → region ≡ some r → IsRegion size r)
    → ((qs : List Region) → later ≡ some qs → All (IsRegion size) qs)
    → keep_region skip region later ≡ some rs
    → All (IsRegion size) rs
unfolding keep_region
keep_region-IsRegion size true region later h k e = k _ e
keep_region-IsRegion size false region later h k e =
    let (r, found, rest) = bind-eq-some region _ e in
    let (qs, others, made) = bind-eq-some later _ rest in
    subst (All (IsRegion size)) (some_injective made) (h r found, k qs others)

pub regions_from-IsRegion :
    (content : Text) (symbols : List Symbol) (i : ℕ) (ss : List Symbol) {rs : List Region}
    → All IsPlaced ss
    → regions_from content symbols i ss ≡ some rs
    → All (IsRegion (length content)) rs
unfolding regions_from
regions_from-IsRegion content symbols i [] h e = subst (All _) (some_injective e) tt
regions_from-IsRegion content symbols i (s ∷ ss) {rs} h e =
    elim (Bool-cases (is_definition s.kind)) [
      | inl d ↦
          let (above, found, rest) =
            bind-eq-some (ancestors symbols (length symbols) s.parent) _ (rw d at e) in
          keep_region-IsRegion (length content) (is_shadowed content symbols i s above) _ _
            (λ r k. region_at-IsRegion content symbols i s h.0 k)
            (λ qs k. regions_from-IsRegion content symbols (suc i) ss h.1 k) rest
      | inr d ↦ regions_from-IsRegion content symbols (suc i) ss h.1 (rw d at e)
    ]
