-- ===== src/Archive/Model.antt =====
-- The values of indexing/archive.py, and its `BoundedReader`.
use ai_powered_codebase_engi.Prelude.{
  ℕ, zero, suc, ◌-◌, ◌≡◌, refl, min, String, Bool, true, false, Option, none, some, List, [], ◌∷◌,
  length, ltb,
}
use ai_powered_codebase_engi.Jobs.Lease.{ImportFailure}
use ai_powered_codebase_engi.Runs.Model.{Text}

pub record ArchiveLimits : Type 0 where
  pub expanded_bytes : ℕ
  pub stored_bytes : ℕ
  pub file_bytes : ℕ
  pub members : ℕ
  pub seconds : ℕ

-- The digest is a number.
pub record ImportedFile : Type 0 where
  pub path : Text
  pub language : String
  pub content : Text
  pub size : ℕ
  pub content_hash : ℕ

pub record ArchiveResult : Type 0 where
  pub files : List ImportedFile
  pub scanned : ℕ
  pub skipped : ℕ

-- `library_error` is any of the errors of the library that `read_archive` catches, `other_error` any
-- that it does not, such as the `zlib.error` of a corrupt gzip stream.
pub data Raised : Type 0 where
  library_error other_error : Raised
  import_failure : ImportFailure → Raised

pub data Outcome {ℓ} (A : Type ℓ) : Type ℓ where
  raised : Raised → Outcome A
  done : A → Outcome A

infixl 5 ◌>>=◌ ◌>>◌
abbrev pub ◌>>=◌ {ℓ κ} : {A : Type ℓ} {B : Type κ} → Outcome A → (A → Outcome B) → Outcome B
raised e >>= rest = raised e
done a >>= rest = rest a

abbrev pub ◌>>◌ {ℓ} : {B : Type ℓ} → Outcome (Unit {0}) → Outcome B → Outcome B
check >> rest = check >>= λ _. rest

abbrev pub failure : String → String → Raised
failure code message = import_failure (record { code = code; message = message; retryable = false })

abbrev pub fail_if : Bool → Raised → Outcome (Unit {0})
fail_if false error = done tt
fail_if true error = raised error

-- What each exception that leaves the `try` statement becomes.
unfoldable pub translate : Raised → Raised
translate library_error = failure "invalid_archive" "GitHub archive is invalid or truncated."
translate other_error = other_error
translate (import_failure f) = import_failure f

pub passed {ℓ} :
    {A : Type ℓ} (failing : Bool) (error : Raised) (rest : Outcome A) {t : A}
    → (fail_if failing error >> rest) ≡ done t
    → (failing ≡ false) × (rest ≡ done t)
passed true error rest e = cc
passed false error rest e = (refl, e)

pub >>=-eq-done {ℓ κ} :
    {A : Type ℓ} {B : Type κ} (before : Outcome A) (rest : A → Outcome B) {t : B}
    → (before >>= rest) ≡ done t
    → (a : A) × (before ≡ done a) × (rest a ≡ done t)
>>=-eq-done (raised r) rest e = cc
>>=-eq-done (done a) rest e = (a, refl, e)

pub done-injective {ℓ} : {A : Type ℓ} {a b : A} → done a ≡ done b → a ≡ b
done-injective h = cc

pub raised≢done {ℓ} : {A : Type ℓ} (e : Raised) {a : A} → ¬ (raised e ≡ done a)
raised≢done e h = cc

-- `BoundedReader` over a stream whose `read` is a parameter.
module _ (Stream : Type 0) (pull : ℕ → Stream → Outcome (List ℕ × Stream)) where
  pub record Reader : Type 0 where
    pub stream : Stream
    pub remaining : ℕ

  -- The size is `none` where it is None or negative.
  unfoldable pub wanted : Option ℕ → ℕ → ℕ
  wanted none remaining = suc remaining
  wanted (some size) remaining = min size (suc remaining)

  unfoldable pub read : ℕ → ℕ → Option ℕ → Reader → Outcome (List ℕ × Reader)
  unfolding wanted
  read deadline now size r = do
    fail_if (ltb deadline now)
        (failure "archive_timeout" "Archive processing exceeded its time limit.")
    got ← pull (wanted size r.remaining) r.stream
    fail_if (ltb r.remaining (length got.0))
        (failure "archive_too_large" "Expanded archive exceeds the configured size limit.")
    done (got.0, record { stream = got.1; remaining = r.remaining - length got.0 })

  unfoldable pub drained :
      (Reader → Option (Outcome (Unit {0})))
      → Outcome (List ℕ × Reader)
      → Option (Outcome (Unit {0}))
  drained again (raised e) = some (raised e)
  drained again (done ([], r)) = some (done tt)
  drained again (done (b ∷ bs, r)) = again r

  -- `while bounded.read(64 * 1024): pass`; each read has its time. `none` is out of fuel.
  unfoldable pub drain : ℕ → ℕ → (ℕ → ℕ) → ℕ → Reader → Option (Outcome (Unit {0}))
  unfolding read drained
  drain zero deadline clock tick r = none
  drain (suc fuel) deadline clock tick r =
      drained (drain fuel deadline clock (suc tick)) (read deadline (clock tick) (some 65536) r)
