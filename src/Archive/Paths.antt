-- ===== src/Archive/Paths.antt =====
-- The tests that `read_archive` of indexing/archive.py makes on names, with Python's `split`, `join`
-- and `rstrip`. `lower` and `suffix` are Python's.
use ai_powered_codebase_engi.Prelude.{
  ℕ, ◌≡◌, refl, ap, ◌∙◌, String, Bool, false, ◌||◌, Option, none, some, List, [], ◌∷◌, ◌++◌, map,
  arith, length, any, ltb, ◌==◌, if◌then◌else◌, Bool-cases, inl, inr, All, is_some, codes,
  same_text, starts_with, is_in,
}
use ai_powered_codebase_engi.Sql.{contains}
use ai_powered_codebase_engi.Runs.Model.{Text}

abbrev pub slash : ℕ
slash = 47

unfoldable pub put : ℕ → Text → Text
put c [] = if c == slash then [] else c ∷ []
put c (d ∷ ds) = c ∷ d ∷ ds

-- `name.rstrip("/")`
unfoldable pub rstrip : Text → Text
unfolding put
rstrip [] = []
rstrip (c ∷ cs) = put c (rstrip cs)

unfoldable pub onto : ℕ → List Text → List Text
onto c [] = (c ∷ []) ∷ []
onto c (p ∷ ps) = (c ∷ p) ∷ ps

-- `name.split("/")`
unfoldable pub split : Text → List Text
unfolding onto
split [] = [] ∷ []
split (c ∷ cs) = if c == slash then [] ∷ split cs else onto c (split cs)

-- `"/".join(parts)`
unfoldable pub join : List Text → Text
join [] = []
join (p ∷ []) = p
join (p ∷ q ∷ ps) = p ++ slash ∷ join (q ∷ ps)

abbrev pub first : List Text → Text
first [] = []
first (p ∷ ps) = p

abbrev pub last : List Text → Text
last [] = []
last (p ∷ []) = p
last (p ∷ q ∷ ps) = last (q ∷ ps)

-- `part in {"", ".", ".."}`
unfoldable pub is_dots : Text → Bool
is_dots part = is_in part ([] ∷ codes "." ∷ codes ".." ∷ [])

unfoldable pub is_control : ℕ → Bool
is_control c = ltb c 32 || c == 127

unfoldable pub is_unsafe : Text → Bool
unfolding is_dots is_control
is_unsafe name =
    same_text name []
    || (ltb 600 (length name)
        || (starts_with (codes "/") name
            || (contains name 92
                || (any is_dots (split name) || (any is_control name || contains name 58)))))

abbrev pub ignored : List Text
ignored = map codes (
    ".git" ∷ "node_modules" ∷ "venv" ∷ ".venv" ∷ "dist" ∷ "build" ∷ "coverage" ∷ ".next"
    ∷ "__pycache__" ∷ "vendor" ∷ ".ssh" ∷ ".aws" ∷ [])

abbrev pub secret_names : List Text
secret_names =
    map codes (".npmrc" ∷ ".pypirc" ∷ ".netrc" ∷ "id_rsa" ∷ "id_ed25519" ∷ "credentials" ∷ [])

abbrev pub languages : List (String × String)
languages =
    (".py", "python")
    ∷ (".js", "javascript")
    ∷ (".jsx", "javascript")
    ∷ (".ts", "typescript")
    ∷ (".tsx", "typescript")
    ∷ (".md", "markdown")
    ∷ (".sql", "sql")
    ∷ (".json", "json")
    ∷ (".toml", "toml")
    ∷ (".yaml", "yaml")
    ∷ (".yml", "yaml")
    ∷ (".html", "html")
    ∷ (".css", "css")
    ∷ (".txt", "text")
    ∷ (".ini", "text")
    ∷ (".cfg", "text")
    ∷ []

unfoldable pub language_in : List (String × String) → Text → Option String
language_in [] suffix = none
language_in ((s, l) ∷ rest) suffix =
    if same_text suffix (codes s) then some l else language_in rest suffix

-- `LANGUAGES.get(suffix)`
unfoldable pub language_of : Text → Option String
unfolding language_in
language_of = language_in languages

abbrev pub plain_names : List Text
plain_names = map codes ("readme" ∷ "license" ∷ "dockerfile" ∷ "makefile" ∷ [])

-- The tests on a part and on the last part.
unfoldable pub is_hidden : (Text → Text) → Text → Bool
is_hidden lower part = is_in part ignored || starts_with (codes ".env") (lower part)

unfoldable pub is_allowed : Text → Text → Bool
unfolding language_of
is_allowed suffix base = is_some (language_of suffix) || is_in base plain_names

join-onto : (c : ℕ) (ps : List Text) → join (onto c ps) ≡ c ∷ join ps
unfolding join onto
join-onto c [] = refl
join-onto c (p ∷ []) = refl
join-onto c (p ∷ q ∷ ps) = refl

onto-cons : (c : ℕ) (s : Text) → (p : Text) × (ps : List Text) × (split s ≡ p ∷ ps)
unfolding split onto
onto-cons c [] = ([], [], refl)
onto-cons c (d ∷ s) = elim (Bool-cases (d == slash)) [
  | inl e ↦ ([], split s, rw e refl)
  | inr e ↦ let (p, ps, q) = onto-cons c s in (d ∷ p, ps, rw (e, q) refl)
]

join-empty :
    (ps : List Text) (p : Text) (qs : List Text) → ps ≡ p ∷ qs → join ([] ∷ ps) ≡ slash ∷ join ps
unfolding join
join-empty [] p qs e = cc
join-empty (r ∷ rs) p qs e = refl

-- Joining the parts of a name gives the name.
pub join-split : (s : Text) → join (split s) ≡ s
unfolding split
join-split [] = unfold join in refl
join-split (c ∷ s) = elim (Bool-cases (c == slash)) [
  | inl e ↦
      let (p, ps, q) = onto-cons c s in
      let same : slash ≡ c = ground arith in
      rw e (join-empty (split s) p ps q ∙ ap (λ l. slash ∷ l) (join-split s) ∙ ap (λ d. d ∷ s) same)
  | inr e ↦ rw e (join-onto c (split s) ∙ ap (λ l. c ∷ l) (join-split s))
]

-- No part has a slash.
abbrev pub IsPart : Text → Type 0
IsPart p = any (λ c. c == slash) p ≡ false

onto-IsPart :
    (c : ℕ) (ps : List Text) → (c == slash) ≡ false → All IsPart ps → All IsPart (onto c ps)
unfolding onto
onto-IsPart c [] e h = (rw e refl, tt)
onto-IsPart c (p ∷ ps) e h = (rw (e, h.0) refl, h.1)

pub split-IsPart : (s : Text) → All IsPart (split s)
unfolding split
split-IsPart [] = (refl, tt)
split-IsPart (c ∷ s) = elim (Bool-cases (c == slash)) [
  | inl e ↦ rw e (refl, split-IsPart s)
  | inr e ↦ rw e (onto-IsPart c (split s) e (split-IsPart s))
]

split-part : (p : Text) → IsPart p → split p ≡ p ∷ []
unfolding split onto
split-part [] h = refl
split-part (c ∷ p) h = elim (Bool-cases (c == slash)) [
  | inl e ↦ absurd (ground (arith, h))
  | inr e ↦ rw (e, split-part p (ground (arith, h))) refl
]

split-more : (p rest : Text) → IsPart p → split (p ++ slash ∷ rest) ≡ p ∷ split rest
unfolding split onto
split-more [] rest h = refl
split-more (c ∷ p) rest h = elim (Bool-cases (c == slash)) [
  | inl e ↦ absurd (ground (arith, h))
  | inr e ↦ rw (e, split-more p rest (ground (arith, h))) refl
]

-- Splitting the joined parts gives the parts, if none has a slash and there is one.
pub split-join : (p : Text) (ps : List Text) → All IsPart (p ∷ ps) → split (join (p ∷ ps)) ≡ p ∷ ps
unfolding join
split-join p [] h = split-part p h.0
split-join p (q ∷ ps) h = split-more p (join (q ∷ ps)) h.0 ∙ ap (λ l. p ∷ l) (split-join q ps h.1)
