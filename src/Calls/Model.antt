-- ===== src/Calls/Model.antt =====
-- What services/search.py and services/answers.py call, as a log, and what their callees raise.
use ai_powered_codebase_engi.Prelude.{
  ℕ, ◌≡◌, refl, ap, String, Bool, true, false, Option, none, some, List, [], ◌∷◌, ◌++◌,
}
use ai_powered_codebase_engi.Prelude.Result.{AppError, Result, ok, err}
use ai_powered_codebase_engi.Runs.Model.{Text}
use ai_powered_codebase_engi.Limits.Model.{Limit}
use ai_powered_codebase_engi.Receipts.Model.{Kind}

-- `AppError`, `ProviderUsageError` with its tokens, `TimeoutError` and `ValidationError`.
pub data Raised : Type 0 where
  failed : AppError → Raised
  usage_error : AppError → ℕ → ℕ → Raised
  timeout invalid : Raised

-- What a callee replies.
pub data Reply {ℓ} (A : Type ℓ) : Type ℓ where
  fails : Raised → Reply A
  gives : A → Reply A

-- The calls that matter, in their order; a failed check is in the log too, a failed `begin` is not.
pub data Effect : Type 0 where
  checked_owner : Effect
  checked_limits : List Limit → Effect
  began : Kind → ℕ → Effect
  embedded : List (List ℕ) → Effect
  generated : Text → Effect
  finished : Kind → ℕ → ℕ → ℕ → Effect

pub data Action {ℓ} (A : Type ℓ) : Type ℓ where
  raised : List Effect → Raised → Action A
  done : List Effect → A → Action A

abbrev pub prepend {ℓ} : {A : Type ℓ} → List Effect → Action A → Action A
prepend es (raised fs r) = raised (es ++ fs) r
prepend es (done fs a) = done (es ++ fs) a

infixl 5 ◌>>=◌ ◌>>◌
abbrev pub ◌>>=◌ {ℓ κ} : {A : Type ℓ} {B : Type κ} → Action A → (A → Action B) → Action B
raised es r >>= rest = raised es r
done es a >>= rest = prepend es (rest a)

abbrev pub ◌>>◌ {ℓ} : {B : Type ℓ} → Action (Unit {0}) → Action B → Action B
first >> rest = first >>= λ _. rest

abbrev pub call {ℓ} : {A : Type ℓ} → Effect → Reply A → Action A
call e (fails r) = raised (e ∷ []) r
call e (gives a) = done (e ∷ []) a

-- A call that is not logged.
abbrev pub ask {ℓ} : {A : Type ℓ} → Reply A → Action A
ask (fails r) = raised [] r
ask (gives a) = done [] a

abbrev pub of_result {ℓ} : {A : Type ℓ} → Result A → Reply A
of_result (err e) = fails (failed e)
of_result (ok a) = gives a

abbrev pub fail_if : Bool → AppError → Action (Unit {0})
fail_if true e = raised [] (failed e)
fail_if false e = done [] tt

-- `ReceiptWriter`, as its callers see it
pub record Writer : Type 0 where
  pub begin : Kind → String → ℕ → ℕ → Reply ℕ
  pub finish : ℕ → ℕ → ℕ → Reply (Unit {0})

unfoldable pub logged_begin : Kind → Reply ℕ → Action (Option ℕ)
logged_begin kind (fails r) = raised [] r
logged_begin kind (gives id) = done (began kind id ∷ []) (some id)

-- `... if self.receipts else None`
unfoldable pub begin_if : Option Writer → Kind → String → ℕ → ℕ → Action (Option ℕ)
unfolding logged_begin
begin_if none kind model input_rate output_rate = done [] none
begin_if (some writer) kind model input_rate output_rate =
    logged_begin kind (writer.begin kind model input_rate output_rate)

-- `if self.receipts and receipt_id: ...`
unfoldable pub finish_if : Option Writer → Kind → Option ℕ → ℕ → ℕ → Action (Unit {0})
finish_if (some writer) kind (some id) input_tokens output_tokens =
    call (finished kind id input_tokens output_tokens) (writer.finish id input_tokens output_tokens)
finish_if (some writer) kind none input_tokens output_tokens = done [] tt
finish_if none kind id input_tokens output_tokens = done [] tt

-- `try: ... except ProviderUsageError as exc: ...; raise`
unfoldable pub settle_usage {ℓ} :
    {A : Type ℓ} → Option Writer → Kind → Option ℕ → Action A → Action A
unfolding finish_if
settle_usage writer kind id (done es a) = done es a
settle_usage writer kind id (raised es (usage_error e input_tokens output_tokens)) = prepend es (do
  finish_if writer kind id input_tokens output_tokens
  raised [] (usage_error e input_tokens output_tokens))
settle_usage writer kind id (raised es (failed e)) = raised es (failed e)
settle_usage writer kind id (raised es timeout) = raised es timeout
settle_usage writer kind id (raised es invalid) = raised es invalid

pub done-value {ℓ} : {A : Type ℓ} {a b : A} {es fs : List Effect} → done es a ≡ done fs b → a ≡ b
done-value e = cc

prepend-eq-done {ℓ} :
    {B : Type ℓ} (fs : List Effect) (act : Action B) {es : List Effect} {b : B}
    → prepend fs act ≡ done es b
    → (gs : List Effect) × (act ≡ done gs b)
prepend-eq-done fs (raised gs r) e = cc
prepend-eq-done fs (done gs c) e = (gs, ap (done gs) (done-value e))

-- Inversion of a chain that ended well.
pub >>=-eq-done {ℓ κ} :
    {A : Type ℓ} {B : Type κ} (act : Action A) (rest : A → Action B) {es : List Effect} {b : B}
    → (act >>= rest) ≡ done es b
    → (a : A) × (fs : List Effect) × (gs : List Effect) × (act ≡ done fs a) × (rest a ≡ done gs b)
>>=-eq-done (raised fs r) rest e = cc
>>=-eq-done (done fs a) rest e = let (gs, q) = prepend-eq-done fs (rest a) e in (a, fs, gs, refl, q)

pub fail_if-eq-done :
    (b : Bool) (error : AppError) {es : List Effect} → fail_if b error ≡ done es tt → b ≡ false
fail_if-eq-done true error e = cc
fail_if-eq-done false error e = refl
