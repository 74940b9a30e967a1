-- ===== src/Chunks/Spans.antt =====
-- indexing/chunks.py: the regions of the symbols, the spans between them, and `chunk_source` whole.
-- `none` is a Python exception: `ValueError` for the limit, `IndexError` for a line or a parent that
-- does not exist.
use ai_powered_codebase_engi.Prelude.{
  ℕ, zero, suc, ◌+◌, ◌-◌, ◌&&◌, ◌||◌, String, Bool, true, false, Option, none, some, List, [], ◌∷◌,
  ◌++◌, ltb, leb, ◌==◌, if◌then◌else◌, any, length, get_elem?,
}
use ai_powered_codebase_engi.Chunks.Model.{
  Text, Kind, class, method, function, other, Symbol, Chunk, breaks, chunk_span,
}

infixl 5 ◌>>=◌
abbrev pub ◌>>=◌ {ℓ κ} :
    {A : Type ℓ} {B : Type κ} (found : Option A) (use_it : A → Option B) → Option B
none >>= use_it = none
some x >>= use_it = use_it x

-- Where the lines after the first begin
unfoldable pub line_ends : ℕ → Text → List ℕ
unfolding breaks
line_ends i [] = []
line_ends i (c ∷ rest) =
    let later = line_ends (suc i) rest in if breaks c rest then suc i ∷ later else later

unfoldable pub line_starts : Text → List ℕ
unfolding line_ends
line_starts content = 0 ∷ line_ends 0 content

abbrev pub is_definition : Kind → Bool
is_definition other = false
is_definition _ = true

abbrev pub is_callable : Kind → Bool
is_callable function = true
is_callable method = true
is_callable _ = false

abbrev pub is_class : Kind → Bool
is_class class = true
is_class _ = false

abbrev pub is_member : Kind → Bool
is_member class = true
is_member method = true
is_member _ = false

-- The chain of parents, on fuel: a longer chain than there are symbols has a cycle, and the source
-- does not return.
unfoldable pub ancestors : List Symbol → ℕ → Option ℕ → Option (List Symbol)
ancestors symbols fuel none = some []
ancestors symbols zero (some parent) = none
ancestors symbols (suc fuel) (some parent) = do
  symbol ← get_elem? symbols parent
  above ← ancestors symbols fuel symbol.parent
  some (symbol ∷ above)

is_parent : ℕ → Option ℕ → Bool
is_parent i none = false
is_parent i (some p) = p == i

-- `i in definition_parents`
unfoldable pub has_members : List Symbol → ℕ → Bool
unfolding is_parent
has_members symbols i = any (λ (s : Symbol). is_member s.kind && is_parent i s.parent) symbols

pub record Region : Type 0 where
  pub begin : ℕ
  pub end : ℕ
  pub symbol : ℕ

-- `starts[line - 1]`, where Python reads index -1 as the last
unfoldable pub last_start : ℕ → List ℕ → ℕ
last_start s [] = s
last_start s (t ∷ ts) = last_start t ts

unfoldable pub start_of : List ℕ → ℕ → Option ℕ
unfolding last_start
start_of [] line = none
start_of (s ∷ ss) zero = some (last_start s ss)
start_of (s ∷ ss) (suc i) = get_elem? (s ∷ ss) i

unfoldable pub or_end : ℕ → Option ℕ → ℕ
or_end n none = n
or_end n (some i) = i

unfoldable pub end_of : List ℕ → Text → ℕ → ℕ
unfolding or_end
end_of starts content line = or_end (length content) (get_elem? starts line)

-- `regions.append(...)`, unless the loop continues before it
unfoldable pub keep_region : Bool → Option Region → Option (List Region) → Option (List Region)
keep_region true region later = later
keep_region false region later = do r ← region; rest ← later; some (r ∷ rest)

module _ (content : Text) (symbols : List Symbol) where
  unfoldable pub region_at : ℕ → Symbol → Option Region
  unfolding start_of end_of line_starts
  region_at i s = do
    begin ← start_of (line_starts content) s.start_line
    some (record {
      begin = begin;
      end = end_of (line_starts content) content s.end_line;
      symbol = i;
    })

  unfoldable pub is_shadowed : ℕ → Symbol → List Symbol → Bool
  unfolding has_members
  is_shadowed i s above =
      any (λ (a : Symbol). is_callable a.kind) above || (is_class s.kind && has_members symbols i)

  -- The loop over the symbols from the index `i` on
  unfoldable pub regions_from : ℕ → List Symbol → Option (List Region)
  unfolding ancestors region_at is_shadowed keep_region
  regions_from i [] = some []
  regions_from i (s ∷ ss) =
      let later = regions_from (suc i) ss in
      if is_definition s.kind
      then (do
        above ← ancestors symbols (length symbols) s.parent
        keep_region (is_shadowed i s above) (region_at i s) later)
      else later

-- The order of the tuples
unfoldable pub region_before : Region → Region → Bool
region_before a b =
    ltb a.begin b.begin
    || (a.begin == b.begin && (ltb a.end b.end || (a.end == b.end && leb a.symbol b.symbol)))

unfoldable pub insert_region : Region → List Region → List Region
unfolding region_before
insert_region r [] = r ∷ []
insert_region r (q ∷ qs) = if region_before r q then r ∷ q ∷ qs else q ∷ insert_region r qs

unfoldable pub sorted : List Region → List Region
unfolding insert_region
sorted [] = []
sorted (r ∷ rs) = insert_region r (sorted rs)

pub record Span : Type 0 where
  pub begin : ℕ
  pub end : ℕ
  pub symbol : Option ℕ

-- The loop over the sorted regions, and the rest of the text
unfoldable pub spans_from : ℕ → ℕ → List Region → List Span
spans_from cursor size [] =
    if ltb cursor size then record { begin = cursor; end = size; symbol = none } ∷ [] else []
spans_from cursor size (r ∷ rs) =
    let skipped = spans_from cursor size rs in
    let later =
      record { begin = r.begin; end = r.end; symbol = some r.symbol } ∷ spans_from r.end size rs in
    if ltb r.begin cursor
    then skipped
    else if ltb cursor r.begin
    then record { begin = cursor; end = r.begin; symbol = none } ∷ later
    else later

-- The loop over the spans. A span of n code points has at most n chunks, so n is fuel enough.
unfoldable pub chunk_spans : (Text → ℕ) → Text → String → ℕ → ℕ → List Span → List Chunk
unfolding chunk_span line_starts
chunk_spans hash content mode max_bytes ordinal [] = []
chunk_spans hash content mode max_bytes ordinal (s ∷ ss) =
    let first =
      chunk_span hash content (line_starts content) mode max_bytes (s.end - s.begin) s.symbol
        ordinal s.begin s.end in
    first ++ chunk_spans hash content mode max_bytes (ordinal + length first) ss

unfoldable pub chunk_source : (Text → ℕ) → Text → List Symbol → String → ℕ → Option (List Chunk)
unfolding regions_from sorted spans_from chunk_spans
chunk_source hash content symbols mode max_bytes = if ltb max_bytes 4 then none else (do
  regions ← regions_from content symbols 0 symbols
  some (chunk_spans hash content mode max_bytes 0 (spans_from 0 (length content) (sorted regions))))
