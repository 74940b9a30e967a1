-- ===== src/Chunks/Model.antt =====
-- indexing/chunks.py: `chunk_source` over texts as lists of code points. The third-party part, the
-- hash of a chunk, is a parameter.
use ai_powered_codebase_engi.Prelude.{
  ℕ, zero, suc, ◌+◌, ◌-◌, ◌&&◌, ◌||◌, not, String, Bool, false, Option, none, some, List, [], ◌∷◌,
  ltb, leb, ◌==◌, if◌then◌else◌, take, drop,
}

abbrev pub Text : Type 0
Text = List ℕ

-- The kinds that `Symbol` of indexing/parser.py takes.
pub data Kind : Type 0 where
  class method function other : Kind

pub record Symbol : Type 0 where
  pub kind : Kind
  pub parent : Option ℕ
  pub start_line : ℕ
  pub end_line : ℕ

pub record Chunk : Type 0 where
  pub ordinal : ℕ
  pub start_offset : ℕ
  pub end_offset : ℕ
  pub start_line : ℕ
  pub end_line : ℕ
  pub symbol_ordinal : Option ℕ
  pub kind : String
  pub content : Text
  pub content_hash : ℕ

-- The length of a code point in UTF-8.
unfoldable pub width : ℕ → ℕ
width c = if ltb c 128 then 1 else if ltb c 2048 then 2 else if ltb c 65536 then 3 else 4

unfoldable pub bytes : Text → ℕ
bytes [] = 0
bytes (c ∷ cs) = width c + bytes cs

-- `content[begin:end]`
unfoldable pub slice : Text → ℕ → ℕ → Text
slice content begin end = take (end - begin) (drop begin content)

unfoldable pub starts_with : ℕ → Text → Bool
starts_with c [] = false
starts_with c (d ∷ ds) = d == c

-- A line ends after `\n`, and after a `\r` that no `\n` follows.
unfoldable pub breaks : ℕ → Text → Bool
unfolding starts_with
breaks c rest = c == 10 || (c == 13 && not (starts_with 10 rest))

pub record Cut : Type 0 where
  pub stop : ℕ
  pub last_break : ℕ

-- The inner loop; the text is what lies between `stop` and the end of the span.
unfoldable pub cut : ℕ → ℕ → ℕ → ℕ → Text → Cut
unfolding width breaks
cut max_bytes size stop last_break [] = record { stop = stop; last_break = last_break }
cut max_bytes size stop last_break (c ∷ rest) =
    let further =
      cut max_bytes (size + width c) (suc stop) (if breaks c rest then suc stop else last_break)
        rest in
    if ltb max_bytes (size + width c)
    then record { stop = stop; last_break = last_break }
    else further

unfoldable pub at_break : ℕ → ℕ → Cut → ℕ
at_break begin end k = if ltb k.stop end && ltb begin k.last_break then k.last_break else k.stop

-- Where the chunk that begins at `begin` ends
unfoldable pub chunk_stop : Text → ℕ → ℕ → ℕ → ℕ
unfolding cut slice at_break
chunk_stop content max_bytes begin end =
    at_break begin end (cut max_bytes 0 begin begin (slice content begin end))

-- `bisect_right` on offsets in order
unfoldable pub bisect_right : List ℕ → ℕ → ℕ
bisect_right [] x = 0
bisect_right (s ∷ ss) x = if leb s x then suc (bisect_right ss x) else 0

unfoldable pub chunk_kind : Option ℕ → String → String
chunk_kind none mode = mode
chunk_kind (some i) mode = "symbol"

module _ (hash : Text → ℕ) (content : Text) (starts : List ℕ) (mode : String) (max_bytes : ℕ) where
  unfoldable pub chunk_at : Option ℕ → ℕ → ℕ → ℕ → Chunk
  unfolding slice bisect_right chunk_kind
  chunk_at symbol ordinal begin stop = record {
    ordinal = ordinal;
    start_offset = begin;
    end_offset = stop;
    start_line = bisect_right starts begin;
    end_line = bisect_right starts (stop - 1);
    symbol_ordinal = symbol;
    kind = chunk_kind symbol mode;
    content = slice content begin stop;
    content_hash = hash (slice content begin stop);
  }

  -- The loop over one span, on fuel.
  unfoldable pub chunk_span : ℕ → Option ℕ → ℕ → ℕ → ℕ → List Chunk
  unfolding chunk_at chunk_stop
  chunk_span zero symbol ordinal begin end = []
  chunk_span (suc fuel) symbol ordinal begin end =
      let stop = chunk_stop content max_bytes begin end in
      let rest = chunk_span fuel symbol (suc ordinal) stop end in
      if ltb begin end then chunk_at symbol ordinal begin stop ∷ rest else []
