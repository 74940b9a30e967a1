-- ===== src/Archive/Ending.antt =====
-- How `read_archive` of indexing/archive.py ends: the loop that drains the stream, and the failures.
use ai_powered_codebase_engi.Prelude.{
  ℕ, zero, suc, ◌-◌, ◌+◌, ◌≤◌, ◌<◌, ◌≡◌, refl, sym, ap, ◌∙◌, String, Bool, true, false, ◌||◌, not,
  Option, none, some, List, [], ◌∷◌, arith, length, drop, ltb, ◌==◌, if◌then◌else◌, Bool-cases, inl,
  inr, All, is_in, same_text, starts_with,
}
use ai_powered_codebase_engi.Sql.{contains}
use ai_powered_codebase_engi.Runs.Model.{Text}
use ai_powered_codebase_engi.Archive.Model.{
  ◌>>=◌, ◌>>◌, passed, >>=-eq-done, done-injective, ArchiveLimits, ArchiveResult, Raised,
  library_error, other_error, import_failure, Outcome, raised, done, fail_if, failure, translate,
  Reader, read, drained, drain,
}
use ai_powered_codebase_engi.Archive.Paths.{rstrip, split, join, first, is_unsafe}
use ai_powered_codebase_engi.Archive.Reading.{
  Python, Member, Progress, beginning, in_root, enter, see, git_lfs, store, store_text,
  read_content, is_skipped, read_file, read_member, read_members, result_of, after_drain,
  drain_after, read_archive,
}

-- The failures that an import of an archive may report.
pub data ArchiveCode : String → Type 0 where
  archive_timeout : ArchiveCode "archive_timeout"
  archive_too_large : ArchiveCode "archive_too_large"
  too_many_files : ArchiveCode "too_many_files"
  unsafe_path : ArchiveCode "unsafe_path"
  unsafe_archive : ArchiveCode "unsafe_archive"
  invalid_archive : ArchiveCode "invalid_archive"
  content_too_large : ArchiveCode "content_too_large"
  no_supported_files : ArchiveCode "no_supported_files"

-- `Escaped` is what is known where an exception that `read_archive` does not catch was raised.
module _ (Escaped : Type 0) where
  abbrev pub IsReported : Raised → Type 0
  IsReported library_error = ⊥
  IsReported other_error = Escaped
  IsReported (import_failure f) = ArchiveCode f.code × (f.retryable ≡ false)

  abbrev pub IsKnown : Raised → Type 0
  IsKnown library_error = Unit
  IsKnown other_error = Escaped
  IsKnown (import_failure f) = ArchiveCode f.code × (f.retryable ≡ false)

  -- A step that raises nothing else.
  abbrev pub IsFine {ℓ} : {A : Type ℓ} → Outcome A → Type 0
  IsFine (raised e) = IsKnown e
  IsFine (done a) = Unit

  abbrev pub IsFineStream : Option (ℕ → Outcome (List ℕ)) → Type 0
  IsFineStream none = Unit
  IsFineStream (some stream) = (n : ℕ) → IsFine (stream n)

  abbrev pub IsFineItem : Outcome Member → Type 0
  IsFineItem (raised e) = IsKnown e
  IsFineItem (done m) = IsFineStream m.stream

  abbrev pub IsAnswer : Outcome ArchiveResult → Type 0
  IsAnswer (raised e) = IsReported e
  IsAnswer (done r) = Unit

  translate-IsReported : (e : Raised) → IsKnown e → IsReported (translate e)
  unfolding translate
  translate-IsReported other_error h = h
  translate-IsReported library_error h = (invalid_archive, refl)
  translate-IsReported (import_failure f) h = h

  bind-IsFine {ℓ κ} :
      {A : Type ℓ} {B : Type κ} (before : Outcome A) (rest : A → Outcome B)
      → IsFine before
      → ((a : A) → before ≡ done a → IsFine (rest a))
      → IsFine (before >>= rest)
  bind-IsFine (raised e) rest h k = h
  bind-IsFine (done a) rest h k = k a refl

  check-IsFine {ℓ} :
      {B : Type ℓ} (b : Bool) (message : String) (rest : Outcome B) {code : String}
      → ArchiveCode code
      → IsFine rest
      → IsFine (fail_if b (failure code message) >> rest)
  check-IsFine true message rest h k = (h, refl)
  check-IsFine false message rest h k = k

  if-IsFine {ℓ} :
      {A : Type ℓ} (b : Bool) (x y : Outcome A) → IsFine x → IsFine y → IsFine (if b then x else y)
  if-IsFine true x y h k = h
  if-IsFine false x y h k = k

  module _ (python : Python) (limits : ArchiveLimits) where
    text-IsFine :
        (path : Text) (content : List ℕ) (o : Option Text) (s : Progress)
        → IsFine (store_text python limits path content o s)
    unfolding store_text store
    text-IsFine path content none s = tt
    text-IsFine path content (some decoded) s = if-IsFine (starts_with git_lfs decoded) _ _ tt (
        check-IsFine (ltb limits.stored_bytes (s.stored + length content)) _ _ content_too_large
          (tt))

    content-IsFine :
        (path : Text) (o : Option (ℕ → Outcome (List ℕ))) (s : Progress)
        → IsFineStream o
        → IsFine (read_content python limits path o s)
    unfolding read_content
    content-IsFine path none s h = (invalid_archive, refl)
    content-IsFine path (some stream) s h =
        bind-IsFine (stream (suc limits.file_bytes)) _ (h (suc limits.file_bytes)) (λ content _.
          if-IsFine (ltb limits.file_bytes (length content) || contains content 0) _ _ tt
            (text-IsFine path content (python.decode content) s))

    file-IsFine :
        (parts : List Text) (m : Member) (s : Progress)
        → IsFineStream m.stream
        → IsFine (read_file python limits parts m s)
    unfolding read_file
    file-IsFine parts m s h = check-IsFine (ltb (length parts) 2) _ _ unsafe_path (
        check-IsFine (ltb 512 (length (join (drop 1 parts))) || is_in (join (drop 1 parts)) s.seen)
          _ _ unsafe_path
          (if-IsFine (is_skipped python limits (join (drop 1 parts)) parts m) _ _ tt
            (content-IsFine (join (drop 1 parts)) m.stream (see (join (drop 1 parts)) s) h)))

    root-IsFine : (o : Option Text) (part : Text) → IsFine (in_root o part)
    unfolding in_root
    root-IsFine none part = tt
    root-IsFine (some root) part = check-IsFine (not (same_text part root)) _ _ unsafe_archive (tt)

    member-IsFine :
        (m : Member) (s : Progress) → IsFineStream m.stream → IsFine (read_member python limits m s)
    unfolding read_member
    member-IsFine m s h = check-IsFine (ltb limits.members (suc s.members)) _ _ too_many_files (
        check-IsFine (is_unsafe (rstrip m.name)) _ _ unsafe_path (
          bind-IsFine (in_root s.root (first (split (rstrip m.name)))) _ (root-IsFine s.root _)
            (λ root _.
              if-IsFine m.is_dir _ _ tt (file-IsFine (split (rstrip m.name)) m (enter root s) h))))

    members-IsFine :
        (items : List (Outcome Member)) (s : Progress)
        → All IsFineItem items
        → IsFine (read_members python limits items s)
    unfolding read_members
    members-IsFine [] s h = tt
    members-IsFine (raised e ∷ items) s h = h.0
    members-IsFine (done m ∷ items) s h =
        bind-IsFine (read_member python limits m s) _ (member-IsFine m s h.0)
          (λ t _. members-IsFine items t h.1)

    result-IsAnswer : (o : Outcome Progress) → IsFine o → IsAnswer (result_of python limits o)
    unfolding result_of
    result-IsAnswer (raised e) h = translate-IsReported e h
    result-IsAnswer (done s) h = elim (Bool-cases (length s.files == 0)) [
      | inl b ↦ rw b (no_supported_files, refl)
      | inr b ↦ rw b tt
    ]

    module _ (Stream : Type 0) (pull : ℕ → Stream → Outcome (List ℕ × Stream))
        (fine : (n : ℕ) (s : Stream) → IsFine (pull n s)) where
      read-IsFine :
          (deadline now : ℕ) (size : Option ℕ) (r : Reader Stream pull)
          → IsFine (read Stream pull deadline now size r)
      unfolding read
      read-IsFine deadline now size r = check-IsFine (ltb deadline now) _ _ archive_timeout (
          bind-IsFine (pull _ r.stream) _ (fine _ r.stream)
            (λ got _. check-IsFine (ltb r.remaining (length got.0)) _ _ archive_too_large (tt)))

      -- A read that returns has taken what it returns from what remained.
      read_less :
          (deadline now : ℕ) (size : Option ℕ) (r : Reader Stream pull) {got : List ℕ}
          {q : Reader Stream pull}
          → read Stream pull deadline now size r ≡ done (got, q)
          → (length got ≤ r.remaining) × (q.remaining ≡ r.remaining - length got)
      unfolding read
      read_less deadline now size r {got} {q} e =
          let (_, e1) = passed (ltb deadline now) _ _ e in
          let (pulled, _, e2) = >>=-eq-done (pull _ r.stream) _ e1 in
          let (small, e3) = passed (ltb r.remaining (length pulled.0)) _ _ e2 in
          let same = done-injective e3 in
          let bytes : pulled.0 ≡ got = ap (λ (x : List ℕ × Reader Stream pull). x.0) same in
          let left : r.remaining - length pulled.0 ≡ q.remaining =
            ap (λ (x : List ℕ × Reader Stream pull). x.1.remaining) same in
          (rw (sym bytes) (ground (arith, small)), rw (sym bytes) (sym left))

      drain_ends :
          (fuel deadline : ℕ) (clock : ℕ → ℕ) (tick : ℕ) (r : Reader Stream pull)
          → r.remaining < fuel
          → (o : Outcome (Unit {0})) × (drain Stream pull fuel deadline clock tick r ≡ some o)
            × IsFine o
      unfolding drain
      drain_ends zero deadline clock tick r h = absurd (omega (arith, h))
      drain_ends (suc fuel) deadline clock tick r h =
          go (λ s k. drain_ends fuel deadline clock (suc tick) s k)
            (read Stream pull deadline (clock tick) (some 65536) r) refl
            (read-IsFine deadline (clock tick) (some 65536) r)
        where
          go :
              ((s : Reader Stream pull)
                → s.remaining < fuel
                → (o : Outcome (Unit {0})) × (drain Stream pull fuel deadline clock (suc tick) s
                    ≡ some o)
                  × IsFine o)
              → (o : Outcome (List ℕ × Reader Stream pull))
              → read Stream pull deadline (clock tick) (some 65536) r ≡ o
              → IsFine o
              → (p : Outcome (Unit {0})) × (drained Stream pull
                    (drain Stream pull fuel deadline clock (suc tick))
                    o
                  ≡ some p)
                × IsFine p
          go again (raised e) q k = (raised e, (unfold drained in refl), k)
          go again (done ([], s)) q k = (done tt, (unfold drained in refl), tt)
          go again (done (b ∷ bs, s)) q k =
              let (some_left, less) = read_less deadline (clock tick) (some 65536) r q in
              unfold drained in again s (omega (arith, some_left, less, h))

      -- `read_archive` ends, the loop that drains the stream too, whatever that pulls: it returns a
      -- result, or reports one of eight failures, none of them to be retried, or raises an exception
      -- that its `except` clause does not name. The last happens only where the library raised such
      -- an exception: whatever is known of each of these in its replies is known then, so that none
      -- leaves where the library raises none. No error of the clause leaves.
      pub read_archive_ends :
          (deadline : ℕ) (clock : ℕ → ℕ) (items : List (Outcome Member))
          (reader : Reader Stream pull)
          → All IsFineItem items
          → (o : Outcome ArchiveResult) × (read_archive python limits Stream pull deadline clock
                items reader
              ≡ some o)
            × IsAnswer o
      unfolding read_archive
      read_archive_ends deadline clock items reader h =
          go (read_members python limits items beginning) (members-IsFine items beginning h)
        where
          go :
              (o : Outcome Progress)
              → IsFine o
              → (p : Outcome ArchiveResult) × (drain_after python limits Stream pull deadline clock
                    reader o
                  ≡ some p)
                × IsAnswer p
          go (raised e) k = (
            result_of python limits (raised e),
            (unfold drain_after in refl),
            result-IsAnswer (raised e) k,
          )
          go (done s) k =
              let (o, e, f) =
                drain_ends (suc reader.remaining) deadline clock 0 reader (omega arith) in
              let (p, q, a) = finished s o f in
              (p, (unfold drain_after in (ap (after_drain python limits s) e ∙ q)), a)
            where
              finished :
                  (s : Progress) (o : Outcome (Unit {0}))
                  → IsFine o
                  → (p : Outcome ArchiveResult) × (after_drain python limits s (some o) ≡ some p)
                    × IsAnswer p
              finished s (raised e) f = (
                result_of python limits (raised e),
                (unfold after_drain in refl),
                result-IsAnswer (raised e) f,
              )
              finished s (done u) f = (
                result_of python limits (done s),
                (unfold after_drain in refl),
                result-IsAnswer (done s) tt,
              )
