-- ===== src/Archive/Accepted.antt =====
-- The files that `read_archive` of indexing/archive.py accepts.
use mathlib.Core.Option.{some_inj}
use ai_powered_codebase_engi.Prelude.{
  ℕ, suc, ◌+◌, ◌≤◌, ◌≡◌, refl, ap, subst, true, false, ◌||◌, Option, none, some, List, [], ◌∷◌,
  arith, length, drop, ltb, ◌==◌, Bool-cases, inl, inr, All, All-append, All-map, length-append,
  is_in, same_text_refl, starts_with,
}
use ai_powered_codebase_engi.Sql.{contains}
use ai_powered_codebase_engi.Runs.Model.{Text}
use ai_powered_codebase_engi.Archive.Model.{
  ArchiveLimits, ImportedFile, ArchiveResult, Outcome, raised, done, passed, >>=-eq-done,
  done-injective, raised≢done, Reader,
}
use ai_powered_codebase_engi.Archive.Paths.{rstrip, split, join, first, is_unsafe}
use ai_powered_codebase_engi.Archive.Reading.{
  Python, Member, Progress, beginning, in_root, enter, see, skip, imported, git_lfs, store,
  store_text, read_content, is_skipped, read_file, read_member, read_members, result_of,
  after_drain, drain_after, read_archive,
}
use ai_powered_codebase_engi.Archive.Names.{IsSourcePath, path-IsSourcePath, or_false}
use ai_powered_codebase_engi.Archive.Files.{
  IsSourceFile, total_size, DistinctPaths, total_size-append, DistinctPaths-append,
}

module _ (python : Python) (limits : ArchiveLimits) where
  record IsSound (s : Progress) : Type 0 where
    files : All (IsSourceFile python limits) s.files
    seen : All (λ f. is_in f.path s.seen ≡ true) s.files
    distinct : DistinctPaths s.files
    total : total_size s.files ≡ s.stored
    stored : s.stored ≤ limits.stored_bytes
    counted : s.scanned ≡ length s.files + s.skipped
    members : s.scanned ≤ s.members
    bounded : s.members ≤ limits.members

  beginning-IsSound : IsSound beginning
  unfolding beginning total_size
  beginning-IsSound = record {
    files = tt;
    seen = tt;
    distinct = tt;
    total = refl;
    stored = omega arith;
    counted = refl;
    members = omega arith;
    bounded = omega arith;
  }

  -- An entry with room for one more file.
  record IsEntered (s : Progress) : Type 0 where
    sound : IsSound s
    room : suc s.scanned ≤ s.members

  enter-IsEntered :
      (root : Text) (s : Progress)
      → IsSound s
      → suc s.members ≤ limits.members
      → IsEntered (enter root s)
  unfolding enter
  enter-IsEntered root s h room = record {
    sound = record {
      files = h.files;
      seen = h.seen;
      distinct = h.distinct;
      total = h.total;
      stored = h.stored;
      counted = h.counted;
      members = omega (arith, h.members);
      bounded = room;
    };
    room = omega (arith, h.members);
  }

  still_seen :
      (path : Text) (s : Progress)
      → IsSound s
      → All (λ f. is_in f.path (path ∷ s.seen) ≡ true) s.files
  still_seen path s h = All-map (λ (f : ImportedFile) k. ground (arith, k)) s.files h.seen

  skip-IsSound : (path : Text) (s : Progress) → IsEntered s → IsSound (skip (see path s))
  unfolding skip see
  skip-IsSound path s h = record {
    files = h.sound.files;
    seen = still_seen path s h.sound;
    distinct = h.sound.distinct;
    total = h.sound.total;
    stored = h.sound.stored;
    counted = omega (arith, h.sound.counted);
    members = h.room;
    bounded = h.sound.bounded;
  }

  seen_before :
      (path : Text) (s : Progress) (g : ImportedFile)
      → is_in path s.seen ≡ false
      → is_in g.path s.seen ≡ true
      → ¬ (g.path ≡ path)
  seen_before path s g new k same = let again = ap (λ p. is_in p s.seen) same in cc (again, k, new)

  store-IsSound :
      (path : Text) (content : List ℕ) (decoded : Text) (s : Progress) {t : Progress}
      → IsEntered s
      → is_in path s.seen ≡ false
      → IsSourceFile python limits (imported python limits path content decoded)
      → store python limits path content decoded (see path s) ≡ done t
      → IsSound t
  unfolding store see
  store-IsSound path content decoded s {t} h new file e =
      let f = imported python limits path content decoded in
      let (fits, e1) = passed (ltb limits.stored_bytes (s.stored + length content)) _ _ e in
      let named : f.path ≡ path = unfold imported in refl in
      let size : f.size ≡ length content = unfold imported in refl in
      subst IsSound (done-injective e1) (record {
        files = All-append (IsSourceFile python limits) s.files (f ∷ []) h.sound.files (file, tt);
        seen =
            All-append (λ g. is_in g.path (path ∷ s.seen) ≡ true) s.files (f ∷ [])
              (still_seen path s h.sound) (rw (named, same_text_refl path) refl, tt);
        distinct =
            DistinctPaths-append s.files f h.sound.distinct
              (All-map (λ (g : ImportedFile) k. seen_before path s g new k) s.files h.sound.seen);
        total = omega (arith, total_size-append s.files f, h.sound.total, size);
        stored = ground (arith, fits);
        counted = omega (arith, length-append s.files (f ∷ []), h.sound.counted);
        members = h.room;
        bounded = h.sound.bounded;
      })

  text-IsSound :
      (path : Text) (content : List ℕ) (o : Option Text) (s : Progress) {t : Progress}
      → IsEntered s
      → is_in path s.seen ≡ false
      → IsSourcePath python path
      → length content ≤ limits.file_bytes
      → contains content 0 ≡ false
      → python.decode content ≡ o
      → store_text python limits path content o (see path s) ≡ done t
      → IsSound t
  unfolding store_text
  text-IsSound path content none s h new named small textual d e =
      subst IsSound (done-injective e) (skip-IsSound path s h)
  text-IsSound path content (some decoded) s h new named small textual d e =
      elim (Bool-cases (starts_with git_lfs decoded)) [
        | inl b ↦ subst IsSound (done-injective (rw b at e)) (skip-IsSound path s h)
        | inr b ↦
            store-IsSound path content decoded s h new
              (unfold imported in
                record {
                  named = named;
                  bytes = content;
                  small = small;
                  measured = refl;
                  textual = textual;
                  decoded = d;
                  hashed = refl;
                })
              (rw b at e)
      ]

  content-IsSound :
      (path : Text) (stream : Option (ℕ → Outcome (List ℕ))) (s : Progress) {t : Progress}
      → IsEntered s
      → is_in path s.seen ≡ false
      → IsSourcePath python path
      → read_content python limits path stream (see path s) ≡ done t
      → IsSound t
  unfolding read_content
  content-IsSound path none s h new named e = absurd (raised≢done _ e)
  content-IsSound path (some stream) s h new named e =
      let (content, got, e1) = >>=-eq-done (stream (suc limits.file_bytes)) _ e in
      elim (Bool-cases (ltb limits.file_bytes (length content) || contains content 0)) [
        | inl b ↦ subst IsSound (done-injective (rw b at e1)) (skip-IsSound path s h)
        | inr b ↦
            let (small, textual) =
              or_false (ltb limits.file_bytes (length content)) (contains content 0) b in
            text-IsSound path content (python.decode content) s h new named (ground (arith, small))
              textual refl (rw b at e1)
      ]

  file-IsSound :
      (name : Text) (m : Member) (s : Progress) {t : Progress}
      → IsEntered s
      → is_unsafe name ≡ false
      → read_file python limits (split name) m s ≡ done t
      → IsSound t
  unfolding read_file
  file-IsSound name m s h safe e =
      let path = join (drop 1 (split name)) in
      let (few, e1) = passed (ltb (length (split name)) 2) _ _ e in
      let (fresh, e2) = passed (ltb 512 (length path) || is_in path s.seen) _ _ e1 in
      let (short, new) = or_false (ltb 512 (length path)) (is_in path s.seen) fresh in
      elim (Bool-cases (is_skipped python limits path (split name) m)) [
        | inl b ↦ subst IsSound (done-injective (rw b at e2)) (skip-IsSound path s h)
        | inr b ↦
            content-IsSound path m.stream s h new
              (path-IsSourcePath python limits name m safe few short b) (rw b at e2)
      ]

  member-IsSound :
      (m : Member) (s : Progress) {t : Progress}
      → IsSound s
      → read_member python limits m s ≡ done t
      → IsSound t
  unfolding read_member
  member-IsSound m s h e =
      let name = rstrip m.name in
      let (room, e1) = passed (ltb limits.members (suc s.members)) _ _ e in
      let (safe, e2) = passed (is_unsafe name) _ _ e1 in
      let (root, _, e3) = >>=-eq-done (in_root s.root (first (split name))) _ e2 in
      let entered = enter-IsEntered root s h (ground (arith, room)) in
      elim (Bool-cases m.is_dir) [
        | inl b ↦ subst IsSound (done-injective (rw b at e3)) entered.sound
        | inr b ↦ file-IsSound name m (enter root s) entered safe (rw b at e3)
      ]

  members-IsSound :
      (items : List (Outcome Member)) (s : Progress) {t : Progress}
      → IsSound s
      → read_members python limits items s ≡ done t
      → IsSound t
  unfolding read_members
  members-IsSound [] s h e = subst IsSound (done-injective e) h
  members-IsSound (item ∷ items) s h e =
      let (m, _, e1) = >>=-eq-done item _ e in
      let (t, read_it, e2) = >>=-eq-done (read_member python limits m s) _ e1 in
      members-IsSound items t (member-IsSound m s h read_it) e2

  -- What an import is told.
  pub record IsImport (r : ArchiveResult) : Type 0 where
    pub files : All (IsSourceFile python limits) r.files
    pub distinct : DistinctPaths r.files
    pub stored : total_size r.files ≤ limits.stored_bytes
    pub counted : r.scanned ≡ length r.files + r.skipped
    pub bounded : r.scanned ≤ limits.members
    pub some_file : 1 ≤ length r.files

  result-IsImport :
      (s : Progress) {r : ArchiveResult}
      → IsSound s
      → result_of python limits (done s) ≡ done r
      → IsImport r
  unfolding result_of
  result-IsImport s h e = elim (Bool-cases (length s.files == 0)) [
    | inl b ↦ absurd (raised≢done _ (rw b at e))
    | inr b ↦ subst IsImport (done-injective (rw b at e)) (record {
      files = h.files;
      distinct = h.distinct;
      stored = omega (arith, h.total, h.stored);
      counted = h.counted;
      bounded = omega (arith, h.members, h.bounded);
      some_file = ground (arith, b);
    })
  ]

  module _ (Stream : Type 0) (pull : ℕ → Stream → Outcome (List ℕ × Stream)) where
    drained-IsImport :
        (s : Progress) (o : Option (Outcome (Unit {0}))) {r : ArchiveResult}
        → IsSound s
        → after_drain python limits s o ≡ some (done r)
        → IsImport r
    unfolding after_drain
    drained-IsImport s none h e = cc
    drained-IsImport s (some (raised f)) h e = unfold result_of in cc
    drained-IsImport s (some (done u)) h e = result-IsImport s h ((some_inj).0 e)

    -- What `read_archive` returns, for every archive and every way in which reading it may go: the
    -- files have different paths, and each path is relative, at most 512 code points long, without
    -- odd parts or characters, of a known kind, and neither hidden nor a secret; each content is the
    -- UTF-8 text of at most `file_bytes` bytes without a zero; together they have at most
    -- `stored_bytes`; and every file that was scanned is stored or counted as skipped.
    pub read_archive-IsImport :
        (deadline : ℕ) (clock : ℕ → ℕ) (items : List (Outcome Member)) (reader : Reader Stream pull)
        {r : ArchiveResult}
        → read_archive python limits Stream pull deadline clock items reader ≡ some (done r)
        → IsImport r
    unfolding read_archive
    read_archive-IsImport deadline clock items reader e =
        go (read_members python limits items beginning) refl e
      where
        go :
            (o : Outcome Progress) {r : ArchiveResult}
            → read_members python limits items beginning ≡ o
            → drain_after python limits Stream pull deadline clock reader o ≡ some (done r)
            → IsImport r
        go (raised f) q k = unfold drain_after in unfold result_of in cc
        go (done s) q k =
            drained-IsImport s _ (members-IsSound items beginning beginning-IsSound q)
              (unfold drain_after in k)
