-- ===== src/Chunks/Cutting.antt =====
-- The inner loop of `chunk_source` in indexing/chunks.py: where a chunk stops.
use ai_powered_codebase_engi.Prelude.{
  ℕ, zero, suc, ◌+◌, ◌-◌, ◌≤◌, ◌<◌, ◌≡◌, refl, false, [], ◌∷◌, arith, ltb, if◌then◌else◌, length,
  take, drop, length-drop, length-take, Bool-cases, inl, inr, subst,
}
use ai_powered_codebase_engi.Chunks.Model.{
  Text, width, bytes, slice, breaks, Cut, cut, at_break, chunk_stop,
}

pub width-bounds : (c : ℕ) → (1 ≤ width c) × (width c ≤ 4)
unfolding width
width-bounds c = ground arith

-- What the loop keeps: both ends lie within what was read, and what was read fits.
pub record IsCut (max_bytes size stop : ℕ) (rest : Text) (k : Cut) : Type 0 where
  pub taken : ℕ
  pub stopped : k.stop ≡ stop + taken
  pub within : taken ≤ length rest
  pub behind : k.last_break ≤ k.stop
  pub fits : size + bytes (take taken rest) ≤ max_bytes

stopped-IsCut :
    (max_bytes size stop last_break : ℕ) (rest : Text)
    → last_break ≤ stop
    → size ≤ max_bytes
    → IsCut max_bytes size stop rest (record { stop = stop; last_break = last_break })
unfolding bytes
stopped-IsCut max_bytes size stop last_break rest h s = record {
  taken = 0;
  stopped = omega arith;
  within = omega arith;
  behind = h;
  fits = omega arith;
}

further-IsCut :
    (max_bytes size stop c : ℕ) (rest : Text) (k : Cut)
    → IsCut max_bytes (size + width c) (suc stop) rest k
    → IsCut max_bytes size stop (c ∷ rest) k
unfolding bytes
further-IsCut max_bytes size stop c rest k h = record {
  taken = suc h.taken;
  stopped = omega (arith, h.stopped);
  within = omega (arith, h.within);
  behind = h.behind;
  fits = omega (arith, h.fits);
}

cut-IsCut :
    (max_bytes size stop last_break : ℕ) (rest : Text)
    → last_break ≤ stop
    → size ≤ max_bytes
    → IsCut max_bytes size stop rest (cut max_bytes size stop last_break rest)
unfolding cut
cut-IsCut max_bytes size stop last_break [] h s =
    stopped-IsCut max_bytes size stop last_break [] h s
cut-IsCut max_bytes size stop last_break (c ∷ rest) h s =
    elim (Bool-cases (ltb max_bytes (size + width c))) [
      | inl e ↦ rw e (stopped-IsCut max_bytes size stop last_break (c ∷ rest) h s)
      | inr e ↦ rw e (
          further-IsCut max_bytes size stop c rest _ (
            cut-IsCut max_bytes (size + width c) (suc stop)
              (if breaks c rest then suc stop else last_break) rest (ground arith) (ground arith)))
    ]

-- The loop passes the first code point when four bytes are allowed.
cut_moves :
    (max_bytes stop last_break c : ℕ) (rest : Text)
    → 4 ≤ max_bytes
    → last_break ≤ stop
    → stop < (cut max_bytes 0 stop last_break (c ∷ rest)).stop
unfolding cut
cut_moves max_bytes stop last_break c rest m h =
    let (low, high) = width-bounds c in
    let fit : ltb max_bytes (0 + width c) ≡ false = ground arith in
    let k =
      cut-IsCut max_bytes (0 + width c) (suc stop) (if breaks c rest then suc stop else last_break)
        rest (ground arith) (ground arith) in
    rw fit (omega (arith, k.stopped))

bytes-take_mono : (m n : ℕ) (xs : Text) → m ≤ n → bytes (take m xs) ≤ bytes (take n xs)
unfolding bytes
bytes-take_mono zero n xs h = omega arith
bytes-take_mono (suc m) zero xs h = omega arith
bytes-take_mono (suc m) (suc n) [] h = omega arith
bytes-take_mono (suc m) (suc n) (c ∷ xs) h = omega (arith, bytes-take_mono m n xs (omega arith))

take-take : (m n : ℕ) (xs : Text) → m ≤ n → take m (take n xs) ≡ take m xs
take-take zero n xs h = refl
take-take (suc m) zero xs h = absurd (omega (arith, h))
take-take (suc m) (suc n) [] h = refl
take-take (suc m) (suc n) (c ∷ xs) h = rw (take-take m n xs (omega arith))

-- A chunk ends after it begins, within its span, and it fits.
pub record IsChunkEnd (content : Text) (max_bytes begin end stop : ℕ) : Type 0 where
  pub moves : begin < stop
  pub within : stop ≤ end
  pub fits : bytes (slice content begin stop) ≤ max_bytes

moved :
    (max_bytes begin : ℕ) (xs : Text)
    → 4 ≤ max_bytes
    → 0 < length xs
    → begin < (cut max_bytes 0 begin begin xs).stop
moved max_bytes begin [] m h = absurd (omega (arith, h))
moved max_bytes begin (c ∷ rest) m h = cut_moves max_bytes begin begin c rest m (omega arith)

at_break-bounds :
    (begin end : ℕ) (k : Cut)
    → begin < k.stop
    → k.last_break ≤ k.stop
    → (begin < at_break begin end k) × (at_break begin end k ≤ k.stop)
unfolding at_break
at_break-bounds begin end k moves behind = ground arith

at_break-IsChunkEnd :
    (content : Text) (max_bytes begin end : ℕ) (k : Cut)
    → IsCut max_bytes 0 begin (slice content begin end) k
    → begin < k.stop
    → end ≤ length content
    → begin < end
    → IsChunkEnd content max_bytes begin end (at_break begin end k)
unfolding slice
at_break-IsChunkEnd content max_bytes begin end k h moves inside some_left =
    let ys = drop begin content in
    let (forth, back) = at_break-bounds begin end k moves h.behind in
    let low : h.taken ≤ end - begin =
      omega (arith, h.within, length-take (end - begin) ys, length-drop begin content) in
    let read : 0 + bytes (take h.taken ys) ≤ max_bytes =
      subst (λ l. 0 + bytes l ≤ max_bytes) (take-take h.taken (end - begin) ys low) h.fits in
    record {
      moves = forth;
      within = omega (arith, back, h.stopped, low);
      fits = omega (
        arith,
        read,
        bytes-take_mono (at_break begin end k - begin) h.taken ys (omega (arith, back, h.stopped)),
      );
    }

pub chunk_stop-IsChunkEnd :
    (content : Text) (max_bytes begin end : ℕ)
    → 4 ≤ max_bytes
    → end ≤ length content
    → begin < end
    → IsChunkEnd content max_bytes begin end (chunk_stop content max_bytes begin end)
unfolding chunk_stop slice
chunk_stop-IsChunkEnd content max_bytes begin end m inside some_left =
    at_break-IsChunkEnd content max_bytes begin end _
      (cut-IsCut max_bytes 0 begin begin (slice content begin end) (omega arith) (omega arith))
      (moved max_bytes begin (slice content begin end) m
        (omega (arith, length-take (end - begin) (drop begin content), length-drop begin content)))
      inside some_left
