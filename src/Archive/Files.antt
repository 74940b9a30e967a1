-- ===== src/Archive/Files.antt =====
-- What is said of the files of an archive: indexing/archive.py.
use ai_powered_codebase_engi.Prelude.{
  ℕ, ◌+◌, ◌≤◌, ◌≡◌, ◌≢◌, false, some, List, [], ◌∷◌, ◌++◌, arith, length, All, All-append,
}
use ai_powered_codebase_engi.Sql.{contains}
use ai_powered_codebase_engi.Archive.Model.{ArchiveLimits, ImportedFile}
use ai_powered_codebase_engi.Archive.Reading.{Python}
use ai_powered_codebase_engi.Archive.Names.{IsSourcePath}

-- The bytes that a stored file came from.
pub record IsSourceFile (python : Python) (limits : ArchiveLimits) (f : ImportedFile) : Type 0 where
  pub named : IsSourcePath python f.path
  pub bytes : List ℕ
  pub small : length bytes ≤ limits.file_bytes
  pub measured : f.size ≡ length bytes
  pub textual : contains bytes 0 ≡ false
  pub decoded : python.decode bytes ≡ some f.content
  pub hashed : f.content_hash ≡ python.sha256 bytes

unfoldable pub total_size : List ImportedFile → ℕ
total_size [] = 0
total_size (f ∷ fs) = f.size + total_size fs

abbrev pub DistinctPaths : List ImportedFile → Type 0
DistinctPaths [] = Unit
DistinctPaths (f ∷ fs) = All (λ g. f.path ≢ g.path) fs × DistinctPaths fs

pub total_size-append :
    (fs : List ImportedFile) (f : ImportedFile) → total_size (fs ++ f ∷ []) ≡ total_size fs + f.size
unfolding total_size
total_size-append [] f = omega arith
total_size-append (g ∷ fs) f = omega (arith, total_size-append fs f)

pub DistinctPaths-append :
    (fs : List ImportedFile) (f : ImportedFile)
    → DistinctPaths fs
    → All (λ g. g.path ≢ f.path) fs
    → DistinctPaths (fs ++ f ∷ [])
DistinctPaths-append [] f h k = (tt, tt)
DistinctPaths-append (g ∷ fs) f h k =
    (All-append (λ x. g.path ≢ x.path) fs (f ∷ []) h.0 (k.0, tt), DistinctPaths-append fs f h.1 k.1)
