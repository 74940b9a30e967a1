-- ===== src/Prelude/Result.antt =====
-- Python's raise and return as a value: the errors are those that the program names by a code.
-- A message of an error is left out, since the code alone decides how a caller goes on.
use Prim.Native.Nat.{ℕ}
use Prim.Native.String.{String}
use mathlib.Core.Path.{◌≡◌, refl}
use mathlib.Core.Bool.{Bool, true, false}

-- `AppError(code, message, status)`
pub record AppError : Type 0 where
  pub code : String
  pub status : ℕ

abbrev pub app_error : String → ℕ → AppError
app_error c n = record { code = c; status = n }

pub data Result {ℓ} (A : Type ℓ) : Type ℓ where
  err : AppError → Result A
  ok : A → Result A

-- `if b: raise ...`
abbrev pub raise_if : Bool → AppError → Result (Unit {0})
raise_if false error = ok tt
raise_if true error = err error

infixl 5 ◌>>=◌ ◌>>◌
abbrev pub ◌>>=◌ {ℓ κ} :
    {A : Type ℓ} {B : Type κ} (before : Result A) (rest : A → Result B) → Result B
err raised >>= rest = err raised
ok value >>= rest = rest value

-- A call for its errors alone.
abbrev pub ◌>>◌ {ℓ} : {B : Type ℓ} (check : Result (Unit {0})) (rest : Result B) → Result B
check >> rest = check >>= λ _. rest

-- Inversion of a chain that ended well.
pub >>=-eq-ok {ℓ κ} :
    {A : Type ℓ} {B : Type κ} (before : Result A) (rest : A → Result B) {last : B}
    → (before >>= rest) ≡ ok last
    → (value : A) × (before ≡ ok value) × (rest value ≡ ok last)
>>=-eq-ok (err raised) rest e = cc
>>=-eq-ok (ok value) rest e = (value, refl, e)

pub ok-injective {ℓ} : {A : Type ℓ} {a b : A} → ok a ≡ ok b → a ≡ b
ok-injective h = cc

-- A check that passed.
pub raise_if_passed {ℓ} :
    {B : Type ℓ} (failing : Bool) (error : AppError) (rest : Result B) {last : B}
    → (raise_if failing error >> rest) ≡ ok last
    → rest ≡ ok last
raise_if_passed true error rest e = cc
raise_if_passed false error rest e = e

pub err≢ok {ℓ} : {B : Type ℓ} (error : AppError) {value : B} → ¬ (err error ≡ ok value)
err≢ok error e = cc
