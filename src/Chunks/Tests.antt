-- ===== src/Chunks/Tests.antt =====
-- A source of three lines with a function on the second, cut at four bytes.
use ai_powered_codebase_engi.Prelude.{◌≡◌, none, some, List, [], ◌∷◌, arith, length}
use ai_powered_codebase_engi.Chunks.Model.{Text, function, Symbol, Chunk}
use ai_powered_codebase_engi.Chunks.Spans.{line_starts, chunk_source}
use ai_powered_codebase_engi.Chunks.Tiling.{Covers, joined}
use ai_powered_codebase_engi.Chunks.Source.{chunk_source_partitions}

abbrev three_lines : Text
three_lines = 97 ∷ 10 ∷ 98 ∷ 99 ∷ 100 ∷ 101 ∷ 13 ∷ 10 ∷ 8364 ∷ 8364 ∷ []

abbrev one_function : List Symbol
one_function = record { kind = function; parent = none; start_line = 2; end_line = 2 } ∷ []

chunk_source_partitions_example :
    (ks : List Chunk) × (chunk_source length three_lines one_function "text" 4 ≡ some ks)
    × Covers three_lines 4 0 10 ks
    × (joined ks ≡ three_lines)
unfolding line_starts
chunk_source_partitions_example =
    chunk_source_partitions length three_lines one_function "text" 4 (omega arith) (tt, tt)
      ((omega arith, omega arith), tt) (omega arith, tt)
