-- ===== src/Chunks/Tiling.antt =====
-- The outer loops of `chunk_source` in indexing/chunks.py: chunks and spans side by side.
use ai_powered_codebase_engi.Prelude.{
  ℕ, zero, suc, ◌+◌, ◌-◌, ◌≤◌, ◌<◌, ◌≡◌, refl, sym, ap, ◌∙◌, String, Option, List, [], ◌∷◌, ◌++◌,
  arith, ltb, length, take, drop, All, drop-drop, Bool-cases, inl, inr, subst,
}
use ai_powered_codebase_engi.Chunks.Model.{
  Text, Chunk, bytes, slice, chunk_stop, chunk_at, chunk_span,
}
use ai_powered_codebase_engi.Chunks.Spans.{
  Region, Span, region_before, insert_region, line_starts, sorted, spans_from, chunk_spans,
}
use ai_powered_codebase_engi.Chunks.Cutting.{chunk_stop-IsChunkEnd}

-- Chunks that begin at `begin`, follow one another and end at `end`, each with the text between its
-- offsets, none empty, and none over the limit.
abbrev pub Covers : Text → ℕ → ℕ → ℕ → List Chunk → Type 0
Covers content max_bytes begin end [] = begin ≡ end
Covers content max_bytes begin end (k ∷ ks) =
    (k.start_offset ≡ begin)
    × (begin < k.end_offset)
    × (k.content ≡ slice content begin k.end_offset)
    × (bytes k.content ≤ max_bytes)
    × Covers content max_bytes k.end_offset end ks

pub Covers-append :
    (content : Text) (max_bytes begin middle end : ℕ) (ks ls : List Chunk)
    → Covers content max_bytes begin middle ks
    → Covers content max_bytes middle end ls
    → Covers content max_bytes begin end (ks ++ ls)
Covers-append content max_bytes begin middle end [] ls h k =
    subst (λ b. Covers content max_bytes b end ls) (sym h) k
Covers-append content max_bytes begin middle end (c ∷ ks) ls (a, b, d, e, h) k =
    (a, b, d, e, Covers-append content max_bytes c.end_offset middle end ks ls h k)

module _ (hash : Text → ℕ) (content : Text) (starts : List ℕ) (mode : String) (max_bytes : ℕ)
    (enough : 4 ≤ max_bytes) where
  pub chunk_span-Covers :
      (fuel : ℕ) (symbol : Option ℕ) (ordinal begin end : ℕ)
      → begin ≤ end
      → end ≤ length content
      → end - begin ≤ fuel
      → Covers content max_bytes begin end
          (chunk_span hash content starts mode max_bytes fuel symbol ordinal begin end)
  unfolding chunk_span
  chunk_span-Covers zero symbol ordinal begin end h inside f = omega arith
  chunk_span-Covers (suc fuel) symbol ordinal begin end h inside f =
      elim (Bool-cases (ltb begin end)) [
        | inl e ↦
            let k =
              chunk_stop-IsChunkEnd content max_bytes begin end enough inside (ground arith) in
            rw e (
              unfold chunk_at in
              (
                refl,
                k.moves,
                refl,
                k.fits,
                chunk_span-Covers fuel symbol (suc ordinal) (chunk_stop content max_bytes begin end)
                    end k.within inside (omega (arith, f, k.moves)),
              ))
        | inr e ↦ rw e (ground arith)
      ]

-- Spans side by side from `begin` to `end`.
abbrev pub Tiles : ℕ → ℕ → List Span → Type 0
Tiles begin end [] = begin ≡ end
Tiles begin end (s ∷ ss) = (s.begin ≡ begin) × (begin ≤ s.end) × Tiles s.end end ss

Tiles-order : (begin end : ℕ) (ss : List Span) → Tiles begin end ss → begin ≤ end
Tiles-order begin end [] h = omega (arith, h)
Tiles-order begin end (s ∷ ss) (a, b, h) = omega (arith, b, Tiles-order s.end end ss h)

abbrev pub IsRegion : ℕ → Region → Type 0
IsRegion size r = (r.begin ≤ r.end) × (r.end ≤ size)

pub spans_from-Tiles :
    (cursor size : ℕ) (rs : List Region)
    → cursor ≤ size
    → All (IsRegion size) rs
    → Tiles cursor size (spans_from cursor size rs)
unfolding spans_from
spans_from-Tiles cursor size [] h k = elim (Bool-cases (ltb cursor size)) [
  | inl e ↦ rw e (refl, h, refl)
  | inr e ↦ rw e (ground arith)
]
spans_from-Tiles cursor size (r ∷ rs) h ((a, b), k) = elim (Bool-cases (ltb r.begin cursor)) [
  | inl e ↦ rw e (spans_from-Tiles cursor size rs h k)
  | inr e ↦ elim (Bool-cases (ltb cursor r.begin)) [
    | inl f ↦ rw (e, f) (refl, ground arith, (refl, a, spans_from-Tiles r.end size rs b k))
    | inr f ↦ rw (e, f) (ground arith, ground arith, spans_from-Tiles r.end size rs b k)
  ]
]

insert_region-All :
    (P : Region → Type 0) (r : Region) (rs : List Region)
    → P r
    → All P rs
    → All P (insert_region r rs)
unfolding insert_region
insert_region-All P r [] h k = (h, tt)
insert_region-All P r (q ∷ qs) h k = elim (Bool-cases (region_before r q)) [
  | inl e ↦ rw e (h, k)
  | inr e ↦ rw e (k.0, insert_region-All P r qs h k.1)
]

pub sorted-All : (P : Region → Type 0) (rs : List Region) → All P rs → All P (sorted rs)
unfolding sorted
sorted-All P [] h = tt
sorted-All P (r ∷ rs) h = insert_region-All P r (sorted rs) h.0 (sorted-All P rs h.1)

pub chunk_spans-Covers :
    (hash : Text → ℕ) (content : Text) (mode : String) (max_bytes ordinal begin end : ℕ)
    (ss : List Span)
    → 4 ≤ max_bytes
    → Tiles begin end ss
    → end ≤ length content
    → Covers content max_bytes begin end (chunk_spans hash content mode max_bytes ordinal ss)
unfolding chunk_spans
chunk_spans-Covers hash content mode max_bytes ordinal begin end [] m h inside = h
chunk_spans-Covers hash content mode max_bytes ordinal begin end (s ∷ ss) m (a, b, h) inside =
    let first =
      chunk_span hash content (line_starts content) mode max_bytes (s.end - s.begin) s.symbol
        ordinal s.begin s.end in
    Covers-append content max_bytes begin s.end end first _
      (subst (λ x. Covers content max_bytes x s.end first) a
        (chunk_span-Covers hash content (line_starts content) mode max_bytes m (s.end - s.begin)
          s.symbol ordinal s.begin s.end (omega (arith, a, b))
          (omega (arith, inside, Tiles-order s.end end ss h)) (omega arith)))
      (chunk_spans-Covers hash content mode max_bytes (ordinal + length first) s.end end ss m h
        inside)

-- The chunks' texts, one after the other
unfoldable pub joined : List Chunk → Text
joined [] = []
joined (k ∷ ks) = k.content ++ joined ks

take_nil : (n : ℕ) → take {A = ℕ} n [] ≡ []
take_nil zero = refl
take_nil (suc n) = refl

take-add : (i j n : ℕ) (xs : Text) → i + j ≡ n → take n xs ≡ take i xs ++ take j (drop i xs)
take-add zero j n xs e = let same : n ≡ j = omega arith in ap (λ k. take k xs) same
take-add (suc i) j zero xs e = absurd (omega (arith, e))
take-add (suc i) j (suc n) [] e = sym (take_nil j)
take-add (suc i) j (suc n) (x ∷ xs) e = rw (take-add i j n xs (omega arith)) refl

slice-append :
    (content : Text) (begin middle end : ℕ)
    → begin ≤ middle
    → middle ≤ end
    → slice content begin middle ++ slice content middle end ≡ slice content begin end
unfolding slice
slice-append content begin middle end h k =
    let on : begin + (middle - begin) ≡ middle = omega arith in
    let later : drop middle content ≡ drop (middle - begin) (drop begin content) =
      ap (λ n. drop n content) (sym on) ∙ sym (drop-drop begin (middle - begin) content) in
    rw later (
      sym
        (take-add (middle - begin) (end - middle) (end - begin) (drop begin content) (omega arith)))

Covers-order :
    (content : Text) (max_bytes begin end : ℕ) (ks : List Chunk)
    → Covers content max_bytes begin end ks
    → begin ≤ end
Covers-order content max_bytes begin end [] h = omega (arith, h)
Covers-order content max_bytes begin end (k ∷ ks) (a, b, c, d, h) =
    omega (arith, b, Covers-order content max_bytes k.end_offset end ks h)

pub joined-Covers :
    (content : Text) (max_bytes begin end : ℕ) (ks : List Chunk)
    → Covers content max_bytes begin end ks
    → joined ks ≡ slice content begin end
unfolding joined
joined-Covers content max_bytes begin end [] h =
    let nothing : end - begin ≡ 0 = omega arith in unfold slice in rw nothing refl
joined-Covers content max_bytes begin end (k ∷ ks) (a, b, c, d, h) =
    rw (c, joined-Covers content max_bytes k.end_offset end ks h)
      (slice-append content begin k.end_offset end (omega (arith, b))
        (Covers-order content max_bytes k.end_offset end ks h))
