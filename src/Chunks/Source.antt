-- ===== src/Chunks/Source.antt =====
-- `chunk_source` of indexing/chunks.py as a whole.
use ai_powered_codebase_engi.Prelude.{
  ℕ, zero, suc, ◌+◌, ◌-◌, ◌≤◌, ◌<◌, ◌≡◌, refl, ◌∙◌, String, Bool, true, false, Option, none, some,
  List, [], ◌∷◌, arith, length, get_elem?, All, Bool-cases, inl, inr, ltb, take-all, subst,
}
use ai_powered_codebase_engi.Sql.{none≢some}
use ai_powered_codebase_engi.Chunks.Model.{Text, Symbol, Chunk, slice}
use ai_powered_codebase_engi.Chunks.Spans.{
  line_starts, start_of, end_of, ancestors, keep_region, region_at, is_definition, is_shadowed,
  regions_from, Region, sorted, spans_from, chunk_spans, chunk_source,
}
use ai_powered_codebase_engi.Chunks.Tiling.{
  Covers, IsRegion, spans_from-Tiles, sorted-All, chunk_spans-Covers, joined, joined-Covers,
}
use ai_powered_codebase_engi.Chunks.Lines.{IsPlaced, regions_from-IsRegion}

get_elem_some {ℓ} :
    {A : Type ℓ} (i : ℕ) (xs : List A) → i < length xs → (x : A) × (get_elem? xs i ≡ some x)
get_elem_some i [] h = absurd (omega (arith, h))
get_elem_some zero (x ∷ xs) h = (x, refl)
get_elem_some (suc i) (x ∷ xs) h = get_elem_some i xs (omega arith)

-- A parent comes before its members, as the parser appends them.
abbrev pub IsUnder : ℕ → Option ℕ → Type 0
IsUnder i none = Unit
IsUnder i (some p) = p < i

abbrev pub IsTree : ℕ → List Symbol → Type 0
IsTree i [] = Unit
IsTree i (s ∷ ss) = IsUnder i s.parent × IsTree (suc i) ss

IsTree-get :
    (i j p : ℕ) (ss : List Symbol) {s : Symbol}
    → i + p ≡ j
    → IsTree i ss
    → get_elem? ss p ≡ some s
    → IsUnder j s.parent
IsTree-get i j p [] e h k = absurd (none≢some k)
IsTree-get i j zero (t ∷ ss) {s} e h k =
    let same : t ≡ s = cc in
    let at : i ≡ j = omega (arith, e) in
    subst (λ (q : Symbol). IsUnder j q.parent) same (subst (λ n. IsUnder n t.parent) at h.0)
IsTree-get i j (suc p) (t ∷ ss) e h k = IsTree-get (suc i) j p ss (omega arith) h.1 k

IsUnder-mono : (i j : ℕ) (parent : Option ℕ) → i ≤ j → IsUnder i parent → IsUnder j parent
IsUnder-mono i j none h k = tt
IsUnder-mono i j (some p) h k = omega (arith, h, k)

-- With as much fuel as there are symbols the chain of parents ends.
ancestors_end :
    (symbols : List Symbol) (fuel : ℕ) (parent : Option ℕ)
    → IsTree 0 symbols
    → IsUnder fuel parent
    → fuel ≤ length symbols
    → (above : List Symbol) × (ancestors symbols fuel parent ≡ some above)
unfolding ancestors
ancestors_end symbols fuel none h k l = ([], refl)
ancestors_end symbols zero (some p) h k l = absurd (omega (arith, k))
ancestors_end symbols (suc fuel) (some p) h k l =
    let (s, found) = get_elem_some p symbols (omega (arith, k, l)) in
    let under = IsTree-get 0 p p symbols (omega arith) h found in
    let (above, rest) =
      ancestors_end symbols fuel s.parent h (IsUnder-mono p fuel s.parent (omega (arith, k)) under)
        (omega (arith, l)) in
    (s ∷ above, rw (found, rest) refl)

abbrev pub IsOnLine : Text → Symbol → Type 0
IsOnLine content s = s.start_line ≤ length (line_starts content)

start_of-some :
    (content : Text) (line : ℕ)
    → 1 ≤ line
    → line ≤ length (line_starts content)
    → (x : ℕ) × (start_of (line_starts content) line ≡ some x)
unfolding start_of line_starts
start_of-some content zero h k = absurd (omega (arith, h))
start_of-some content (suc i) h k = get_elem_some i (line_starts content) (omega (arith, k))

region_at-some :
    (content : Text) (symbols : List Symbol) (i : ℕ) (s : Symbol)
    → IsPlaced s
    → IsOnLine content s
    → (r : Region) × (region_at content symbols i s ≡ some r)
unfolding region_at
region_at-some content symbols i s h k =
    let (x, found) = start_of-some content s.start_line h.0 k in
    (
      record { begin = x; end = end_of (line_starts content) content s.end_line; symbol = i },
      rw found refl,
    )

keep_region-some :
    (skip : Bool) (region : Option Region) (later : Option (List Region)) {r : Region}
    {rs : List Region}
    → region ≡ some r
    → later ≡ some rs
    → (qs : List Region) × (keep_region skip region later ≡ some qs)
unfolding keep_region
keep_region-some true region later {r} {rs} h k = (rs, k)
keep_region-some false region later {r} {rs} h k = (r ∷ rs, rw (h, k) refl)

regions_from-some :
    (content : Text) (symbols : List Symbol) (i : ℕ) (ss : List Symbol)
    → IsTree 0 symbols
    → All (λ s. IsUnder (length symbols) s.parent) ss
    → All IsPlaced ss
    → All (IsOnLine content) ss
    → (rs : List Region) × (regions_from content symbols i ss ≡ some rs)
unfolding regions_from
regions_from-some content symbols i [] t u h k = ([], refl)
regions_from-some content symbols i (s ∷ ss) t u h k =
    let (rest, later) = regions_from-some content symbols (suc i) ss t u.1 h.1 k.1 in
    elim (Bool-cases (is_definition s.kind)) [
      | inl d ↦
          let (above, found) =
            ancestors_end symbols (length symbols) s.parent t u.0 (omega arith) in
          let (r, region) = region_at-some content symbols i s h.0 k.0 in
          let (qs, kept) =
            keep_region-some (is_shadowed content symbols i s above) (region_at content symbols i s)
              (regions_from content symbols (suc i) ss) region later in
          (qs, rw (d, found) kept)
      | inr d ↦ (rest, rw d later)
    ]

IsTree-IsUnder :
    (i size : ℕ) (ss : List Symbol)
    → i + length ss ≤ size
    → IsTree i ss
    → All (λ s. IsUnder size s.parent) ss
IsTree-IsUnder i size [] h k = tt
IsTree-IsUnder i size (s ∷ ss) h k = (
  IsUnder-mono i size s.parent (omega (arith, h)) k.0,
  IsTree-IsUnder (suc i) size ss (omega (arith, h)) k.1,
)

-- For symbols as the parser lists them, each after its parent and on lines that exist, and for a
-- limit of at least four bytes, `chunk_source` returns chunks that follow one another from the first
-- code point to the last, none empty and none over the limit, each with the text between its
-- offsets; their texts joined are the source.
pub chunk_source_partitions :
    (hash : Text → ℕ) (content : Text) (symbols : List Symbol) (mode : String) (max_bytes : ℕ)
    → 4 ≤ max_bytes
    → IsTree 0 symbols
    → All IsPlaced symbols
    → All (IsOnLine content) symbols
    → (ks : List Chunk) × (chunk_source hash content symbols mode max_bytes ≡ some ks)
      × Covers content max_bytes 0 (length content) ks
      × (joined ks ≡ content)
unfolding chunk_source
chunk_source_partitions hash content symbols mode max_bytes enough tree placed lines =
    let (rs, found) =
      regions_from-some content symbols 0 symbols tree
        (IsTree-IsUnder 0 (length symbols) symbols (omega arith) tree) placed lines in
    let good =
      sorted-All (IsRegion (length content)) rs
        (regions_from-IsRegion content symbols 0 symbols placed found) in
    let ks =
      chunk_spans hash content mode max_bytes 0 (spans_from 0 (length content) (sorted rs)) in
    let covers : Covers content max_bytes 0 (length content) ks =
      chunk_spans-Covers hash content mode max_bytes 0 0 (length content) _ enough
        (spans_from-Tiles 0 (length content) (sorted rs) (omega arith) good) (omega arith) in
    let wide : ltb max_bytes 4 ≡ false = ground arith in
    (
      ks,
      rw (wide, found) refl,
      covers,
      joined-Covers content max_bytes 0 (length content) ks covers ∙ whole,
    )
  where
    whole : slice content 0 (length content) ≡ content
    whole = unfold slice in take-all (length content - 0) content (omega arith)
