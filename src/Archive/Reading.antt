-- ===== src/Archive/Reading.antt =====
-- `read_archive` of indexing/archive.py. tarfile is a list of what its iteration gives; `str.lower`,
-- `PurePosixPath.suffix`, UTF-8 and SHA-256 are a record of functions.
use ai_powered_codebase_engi.Prelude.{
  ℕ, suc, ◌+◌, String, Bool, true, ◌||◌, not, Option, none, some, List, [], ◌∷◌, ◌++◌, length, drop,
  any, ltb, ◌==◌, if◌then◌else◌, codes, same_text, starts_with, is_in,
}
use ai_powered_codebase_engi.Sql.{contains}
use ai_powered_codebase_engi.Runs.Model.{Text}
use ai_powered_codebase_engi.Archive.Model.{
  ArchiveLimits, ImportedFile, ArchiveResult, failure, Outcome, raised, done, ◌>>=◌, ◌>>◌, fail_if,
  translate, Reader, drain,
}
use ai_powered_codebase_engi.Archive.Paths.{
  rstrip, split, join, first, last, is_unsafe, is_hidden, is_allowed, secret_names, language_of,
}

pub record Python : Type 0 where
  pub lower : Text → Text
  pub suffix : Text → Text
  pub decode : List ℕ → Option Text
  pub sha256 : List ℕ → ℕ

-- An entry of the archive. The size is `none` where it is negative, and the stream where there is
-- none; it is what a `read` of so many bytes gives.
pub record Member : Type 0 where
  pub name : Text
  pub is_dir : Bool
  pub is_file : Bool
  pub is_sparse : Bool
  pub size : Option ℕ
  pub stream : Option (ℕ → Outcome (List ℕ))

-- The local variables of the loop.
pub record Progress : Type 0 where
  pub files : List ImportedFile
  pub scanned : ℕ
  pub skipped : ℕ
  pub stored : ℕ
  pub members : ℕ
  pub root : Option Text
  pub seen : List Text

unfoldable pub beginning : Progress
beginning = record {
  files = [];
  scanned = 0;
  skipped = 0;
  stored = 0;
  members = 0;
  root = none;
  seen = [];
}

unfoldable pub in_root : Option Text → Text → Outcome Text
in_root none part = done part
in_root (some root) part = do
  fail_if (not (same_text part root))
      (failure "unsafe_archive" "Archive has inconsistent root directories.")
  done root

unfoldable pub skip : Progress → Progress
skip s = record s { skipped = suc s.skipped }

unfoldable pub see : Text → Progress → Progress
see path s = record s { seen = path ∷ s.seen; scanned = suc s.scanned }

unfoldable pub enter : Text → Progress → Progress
enter root s = record s { members = suc s.members; root = some root }

-- `LANGUAGES.get(suffix, "text")`
unfoldable pub language_or_text : Option String → String
language_or_text none = "text"
language_or_text (some language) = language

unfoldable pub is_oversized : ℕ → Option ℕ → Bool
is_oversized file_bytes none = true
is_oversized file_bytes (some size) = ltb file_bytes size

unfoldable pub git_lfs : Text
git_lfs = codes "version https://git-lfs.github.com/spec/v1"

module _ (python : Python) (limits : ArchiveLimits) where
  unfoldable pub imported : Text → List ℕ → Text → ImportedFile
  unfolding language_or_text
  imported path content decoded = record {
    path = path;
    language = language_or_text (language_of (python.lower (python.suffix path)));
    content = decoded;
    size = length content;
    content_hash = python.sha256 content;
  }

  unfoldable pub store : Text → List ℕ → Text → Progress → Outcome Progress
  unfolding imported
  store path content decoded s = do
    fail_if (ltb limits.stored_bytes (s.stored + length content))
        (failure "content_too_large" "Accepted source files exceed the storage limit.")
    done (record s {
      stored = s.stored + length content;
      files = s.files ++ imported path content decoded ∷ [];
    })

  unfoldable pub store_text : Text → List ℕ → Option Text → Progress → Outcome Progress
  unfolding store skip git_lfs
  store_text path content none s = done (skip s)
  store_text path content (some decoded) s =
      if starts_with git_lfs decoded then done (skip s) else store path content decoded s

  unfoldable pub read_content : Text → Option (ℕ → Outcome (List ℕ)) → Progress → Outcome Progress
  unfolding store_text skip
  read_content path none s = raised (failure "invalid_archive" "Archive file could not be read.")
  read_content path (some stream) s = do
    content ← stream (suc limits.file_bytes)
    if ltb limits.file_bytes (length content) || contains content 0
        then done (skip s)
        else store_text path content (python.decode content) s

  -- The test before the content is read.
  unfoldable pub is_skipped : Text → List Text → Member → Bool
  unfolding is_hidden is_allowed is_oversized
  is_skipped path parts m =
      not m.is_file
      || (m.is_sparse
          || (any (is_hidden python.lower) (drop 1 parts)
              || (is_in (python.lower (last parts)) secret_names
                  || (not
                        (is_allowed (python.lower (python.suffix path)) (python.lower (last parts)))
                      || is_oversized limits.file_bytes m.size))))

  unfoldable pub read_file : List Text → Member → Progress → Outcome Progress
  unfolding is_skipped read_content see skip
  read_file parts m s =
      let path = join (drop 1 parts) in
      do
        fail_if (ltb (length parts) 2)
            (failure "unsafe_path" "Archive file has no repository-relative path.")
        fail_if (ltb 512 (length path) || is_in path s.seen)
            (failure "unsafe_path" "Archive contains a duplicate or overlong path.")
        if is_skipped path parts m
            then done (skip (see path s))
            else read_content path m.stream (see path s)

  unfoldable pub read_member : Member → Progress → Outcome Progress
  unfolding in_root enter read_file
  read_member m s =
      let name = rstrip m.name in
      do
        fail_if (ltb limits.members (suc s.members))
            (failure "too_many_files" "Archive exceeds the configured entry count limit.")
        fail_if (is_unsafe name) (failure "unsafe_path" "Archive contains an unsafe path.")
        root ← in_root s.root (first (split name))
        if m.is_dir then done (enter root s) else read_file (split name) m (enter root s)

  unfoldable pub read_members : List (Outcome Member) → Progress → Outcome Progress
  unfolding read_member
  read_members [] s = done s
  read_members (item ∷ items) s = do m ← item; t ← read_member m s; read_members items t

  -- After the `try` statement.
  unfoldable pub result_of : Outcome Progress → Outcome ArchiveResult
  unfolding translate
  result_of (raised e) = raised (translate e)
  result_of (done s) =
      if length s.files == 0
      then raised (failure "no_supported_files" "No supported UTF-8 text files were found.")
      else done (record { files = s.files; scanned = s.scanned; skipped = s.skipped })

  unfoldable pub after_drain :
      Progress → Option (Outcome (Unit {0})) → Option (Outcome ArchiveResult)
  unfolding result_of
  after_drain s none = none
  after_drain s (some (raised e)) = some (result_of (raised e))
  after_drain s (some (done u)) = some (result_of (done s))

  module _ (Stream : Type 0) (pull : ℕ → Stream → Outcome (List ℕ × Stream)) where
    unfoldable pub drain_after :
        ℕ → (ℕ → ℕ) → Reader Stream pull → Outcome Progress → Option (Outcome ArchiveResult)
    unfolding after_drain result_of
    drain_after deadline clock reader (raised e) = some (result_of (raised e))
    drain_after deadline clock reader (done s) =
        after_drain s (drain Stream pull (suc reader.remaining) deadline clock 0 reader)

    -- `items` is what the iteration gives, a failure to go on included, and `reader` the bounded
    -- reader that it leaves.
    unfoldable pub read_archive :
        ℕ → (ℕ → ℕ) → List (Outcome Member) → Reader Stream pull → Option (Outcome ArchiveResult)
    unfolding read_members drain_after
    read_archive deadline clock items reader =
        drain_after deadline clock reader (read_members items beginning)
