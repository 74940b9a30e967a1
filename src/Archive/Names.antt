-- ===== src/Archive/Names.antt =====
-- The names that `read_archive` of indexing/archive.py lets pass.
use ai_powered_codebase_engi.Prelude.{
  ℕ, ◌≤◌, ◌≡◌, refl, sym, ap, ◌∙◌, Bool, true, false, ◌||◌, not, List, [], ◌∷◌, ◌++◌, arith, length,
  drop, any, ltb, ◌==◌, All, is_in, same_text, starts_with, codes,
}
use ai_powered_codebase_engi.Sql.{contains}
use ai_powered_codebase_engi.Runs.Model.{Text}
use ai_powered_codebase_engi.Archive.Model.{ArchiveLimits}
use ai_powered_codebase_engi.Archive.Paths.{
  slash, split, join, first, last, is_dots, is_control, is_unsafe, is_hidden, is_allowed,
  secret_names, IsPart, join-split, split-IsPart, split-join,
}
use ai_powered_codebase_engi.Archive.Reading.{Python, Member, is_skipped}

-- A name that the importer may store: relative, on no odd part and without odd characters, and of a
-- source file that is neither hidden nor a secret.
pub record IsSourcePath (python : Python) (path : Text) : Type 0 where
  pub short : length path ≤ 512
  pub plain : any is_dots (split path) ≡ false
  pub printable : any is_control path ≡ false
  pub no_backslash : contains path 92 ≡ false
  pub no_colon : contains path 58 ≡ false
  pub shown : any (is_hidden python.lower) (split path) ≡ false
  pub open_to_all : is_in (python.lower (last (split path))) secret_names ≡ false
  pub known :
      is_allowed (python.lower (python.suffix path)) (python.lower (last (split path))) ≡ true

pub or_false : (a b : Bool) → (a || b) ≡ false → (a ≡ false) × (b ≡ false)
or_false true b e = cc
or_false false b e = (refl, e)

any-rest : (p : ℕ → Bool) (xs ys : List ℕ) → any p (xs ++ ys) ≡ false → any p ys ≡ false
any-rest p [] ys h = h
any-rest p (x ∷ xs) ys h = any-rest p xs ys (ground (arith, h))

contains-rest : (c : ℕ) (xs ys : List ℕ) → contains (xs ++ ys) c ≡ false → contains ys c ≡ false
contains-rest c [] ys h = h
contains-rest c (x ∷ xs) ys h = contains-rest c xs ys (ground (arith, h))

-- The parts of a name and the path below its root.
record IsBelow (name path : Text) : Type 0 where
  parts : split path ≡ drop 1 (split name)
  base : last (split path) ≡ last (split name)
  root : Text
  whole : name ≡ root ++ slash ∷ path

below :
    (name : Text) (parts : List Text)
    → split name ≡ parts
    → All IsPart parts
    → ltb (length parts) 2 ≡ false
    → (split (join (drop 1 parts)) ≡ drop 1 parts)
      × (last (drop 1 parts) ≡ last parts)
      × (join parts ≡ first parts ++ slash ∷ join (drop 1 parts))
below name [] e h few = absurd (ground (arith, few))
below name (p ∷ []) e h few = absurd (ground (arith, few))
below name (p ∷ q ∷ ps) e h few = (split-join q ps h.1, refl, unfold join in refl)

name-IsBelow :
    (name : Text) → ltb (length (split name)) 2 ≡ false → IsBelow name (join (drop 1 (split name)))
name-IsBelow name few =
    let (parts, base, whole) = below name (split name) refl (split-IsPart name) few in
    record {
      parts = parts;
      base = ap last parts ∙ base;
      root = first (split name);
      whole = sym (join-split name) ∙ whole;
    }

any-below :
    (p : ℕ → Bool) {name path : Text} → IsBelow name path → any p name ≡ false → any p path ≡ false
any-below p {name} {path} b h =
    let e : any p (slash ∷ path) ≡ false =
      any-rest p b.root (slash ∷ path) (ap (any p) (sym b.whole) ∙ h) in
    (or_false (p slash) (any p path) e).1

contains-below :
    (c : ℕ) {name path : Text}
    → IsBelow name path
    → contains name c ≡ false
    → contains path c ≡ false
contains-below c {name} {path} b h =
    let e : contains (slash ∷ path) c ≡ false =
      contains-rest c b.root (slash ∷ path) (ap (λ n. contains n c) (sym b.whole) ∙ h) in
    (or_false (slash == c) (contains path c) e).1

any-later : (p : Text → Bool) (ps : List Text) → any p ps ≡ false → any p (drop 1 ps) ≡ false
any-later p [] h = h
any-later p (q ∷ ps) h = ground (arith, h)

-- What `is_unsafe` leaves.
record IsSafe (name : Text) : Type 0 where
  plain : any is_dots (split name) ≡ false
  printable : any is_control name ≡ false
  no_backslash : contains name 92 ≡ false
  no_colon : contains name 58 ≡ false

name-IsSafe : (name : Text) → is_unsafe name ≡ false → IsSafe name
unfolding is_unsafe
name-IsSafe name e =
    let (_, e1) = or_false (same_text name []) _ e in
    let (_, e2) = or_false (ltb 600 (length name)) _ e1 in
    let (_, e3) = or_false (starts_with (codes "/") name) _ e2 in
    let (no_backslash, e4) = or_false (contains name 92) _ e3 in
    let (plain, e5) = or_false (any is_dots (split name)) _ e4 in
    let (printable, no_colon) = or_false (any is_control name) _ e5 in
    record {
      plain = plain;
      printable = printable;
      no_backslash = no_backslash;
      no_colon = no_colon;
    }

true_by_not : (b : Bool) → not b ≡ false → b ≡ true
true_by_not true e = refl
true_by_not false e = cc

module _ (python : Python) (limits : ArchiveLimits) where
  pub path-IsSourcePath :
      (name : Text) (m : Member)
      → is_unsafe name ≡ false
      → ltb (length (split name)) 2 ≡ false
      → ltb 512 (length (join (drop 1 (split name)))) ≡ false
      → is_skipped python limits (join (drop 1 (split name))) (split name) m ≡ false
      → IsSourcePath python (join (drop 1 (split name)))
  unfolding is_skipped
  path-IsSourcePath name m safe few short kept =
      let path = join (drop 1 (split name)) in
      let s = name-IsSafe name safe in
      let b = name-IsBelow name few in
      let (_, e1) = or_false (not m.is_file) _ kept in
      let (_, e2) = or_false m.is_sparse _ e1 in
      let (shown, e3) = or_false (any (is_hidden python.lower) (drop 1 (split name))) _ e2 in
      let (open_to_all, e4) =
        or_false (is_in (python.lower (last (split name))) secret_names) _ e3 in
      let (known, _) =
        or_false
          (not (is_allowed (python.lower (python.suffix path)) (python.lower (last (split name)))))
          _ e4 in
      record {
        short = ground (arith, short);
        plain = ap (any is_dots) b.parts ∙ any-later is_dots (split name) s.plain;
        printable = any-below is_control b s.printable;
        no_backslash = contains-below 92 b s.no_backslash;
        no_colon = contains-below 58 b s.no_colon;
        shown = ap (any (is_hidden python.lower)) b.parts ∙ shown;
        open_to_all = ap (λ p. is_in (python.lower p) secret_names) b.base ∙ open_to_all;
        known =
            ap (λ p. is_allowed (python.lower (python.suffix path)) (python.lower p)) b.base
            ∙ true_by_not _ known;
      }
