-- ===== src/Archive/Tests.antt =====
-- An archive with one file, and a broken one.
use ai_powered_codebase_engi.Prelude.{
  ℕ, ◌≡◌, refl, true, false, some, List, [], ◌∷◌, length, take, drop, codes,
}
use ai_powered_codebase_engi.Runs.Model.{Text}
use ai_powered_codebase_engi.Archive.Model.{
  ArchiveLimits, ImportedFile, ArchiveResult, library_error, Outcome, raised, done, Reader, wanted,
  read, drained, drain,
}
use ai_powered_codebase_engi.Archive.Paths.{
  put, rstrip, onto, split, join, is_dots, is_control, is_unsafe, is_hidden, language_in,
  language_of, is_allowed,
}
use ai_powered_codebase_engi.Archive.Reading.{
  Python, Member, beginning, in_root, skip, see, enter, language_or_text, is_oversized, git_lfs,
  imported, store, store_text, read_content, is_skipped, read_file, read_member, read_members,
  result_of, after_drain, drain_after, read_archive,
}
use ai_powered_codebase_engi.Archive.Accepted.{IsImport, read_archive-IsImport}
use ai_powered_codebase_engi.Archive.Ending.{IsAnswer, read_archive_ends}

abbrev python : Python
python = record { lower = λ t. t; suffix = λ t. codes ".py"; decode = λ b. some b; sha256 = length }

abbrev limits : ArchiveLimits
limits = record {
  expanded_bytes = 41943040;
  stored_bytes = 10485760;
  file_bytes = 262144;
  members = 5000;
  seconds = 15;
}

abbrev pull : ℕ → List ℕ → Outcome (List ℕ × List ℕ)
pull n bytes = done (take n bytes, drop n bytes)

abbrev member : Text → Member
member name = record {
  name = name;
  is_dir = false;
  is_file = true;
  is_sparse = false;
  size = some 5;
  stream = some (λ n. done (take n (codes "x = 1")));
}

abbrev reader : Reader (List ℕ) pull
reader = record { stream = 0 ∷ 0 ∷ []; remaining = 900 }

abbrev clock : ℕ → ℕ
clock tick = 1

abbrev imported_file : ImportedFile
imported_file = record {
  path = codes "a.py";
  language = "python";
  content = codes "x = 1";
  size = 5;
  content_hash = 5;
}

abbrev one_file : ArchiveResult
one_file = record { files = imported_file ∷ []; scanned = 2; skipped = 1 }

imports :
    read_archive python limits
      (List ℕ)
      pull
      15
      clock
      (done (member (codes "r/a.py")) ∷ done (member (codes "r/.env/a.py")) ∷ [])
      reader
    ≡ some (done one_file)
unfolding wanted read drained drain put rstrip onto split join is_dots is_control is_unsafe
    is_hidden language_in language_of is_allowed beginning in_root skip see enter language_or_text
    is_oversized git_lfs imported store store_text read_content is_skipped read_file read_member
    read_members result_of after_drain drain_after read_archive
imports = refl

read_archive-IsImport_example : IsImport python limits one_file
read_archive-IsImport_example =
    read_archive-IsImport python limits (List ℕ) pull 15 clock
      (done (member (codes "r/a.py")) ∷ done (member (codes "r/.env/a.py")) ∷ []) reader imports

read_archive_ends_example :
    (o : Outcome ArchiveResult) × (read_archive python limits
        (List ℕ)
        pull
        15
        clock
        (done (member (codes "r/a.py")) ∷ raised library_error ∷ [])
        reader
      ≡ some o)
    × IsAnswer ⊥ o
read_archive_ends_example =
    read_archive_ends ⊥ python limits (List ℕ) pull (λ n s. tt) 15 clock
      (done (member (codes "r/a.py")) ∷ raised library_error ∷ []) reader (λ n. tt, (tt, tt))
