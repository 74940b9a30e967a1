-- ===== src/Calls/Conduct.antt =====
-- The order that paid calls keep, as an automaton over the log.
use ai_powered_codebase_engi.Prelude.{
  ℕ, ◌≡◌, refl, ◌∙◌, Bool, true, false, Option, none, some, List, [], ◌∷◌, ◌++◌, ◌==◌,
  if◌then◌else◌, Option-cases, inl, inr, ap, ◌&&◌, ◌||◌, ==_refl, codes, same_text, same_text_refl,
}
use ai_powered_codebase_engi.Prelude.Result.{AppError}
use ai_powered_codebase_engi.Limits.Model.{Limit}
use ai_powered_codebase_engi.Receipts.Model.{Kind, generation, query_embedding}
use ai_powered_codebase_engi.Calls.Model.{
  Reply, fails, gives, Effect, checked_owner, checked_limits, began, embedded, generated, finished,
  Action, raised, done, prepend, ◌>>=◌, call, ask, fail_if,
}

-- How far the payment of one kind of call is.
pub data Bill : Type 0 where
  unpaid : Bill
  begun called : ℕ → Bill
  settled : Bill

pub record Stage : Type 0 where
  -- what an answer and a search have to be admitted by
  pub answer_quota : List Limit
  pub search_quota : List Limit
  pub owned : Bool
  pub admitted : Bool
  pub limited : Bool
  pub embedding : Bill
  pub generating : Bill

unfoldable pub bill : Kind → Stage → Bill
bill query_embedding s = s.embedding
bill generation s = s.generating

unfoldable pub set_bill : Kind → Bill → Stage → Stage
set_bill query_embedding b s = record s { embedding = b }
set_bill generation b s = record s { generating = b }

abbrev pub fresh : List Limit → List Limit → Stage
fresh answer_quota search_quota = record {
  answer_quota = answer_quota;
  search_quota = search_quota;
  owned = false;
  admitted = false;
  limited = false;
  embedding = unpaid;
  generating = unpaid;
}

-- A generation needs the answer's quota, an embedding that of the search too.
abbrev pub allowed : Kind → Stage → Bool
allowed generation s = s.admitted
allowed query_embedding s = s.admitted && s.limited

abbrev pub same_limit : Limit → Limit → Bool
same_limit a b =
    same_text (codes a.key) (codes b.key) && (a.count == b.count && a.seconds == b.seconds)

abbrev pub same_limits : List Limit → List Limit → Bool
same_limits [] [] = true
same_limits [] (b ∷ ys) = false
same_limits (a ∷ xs) [] = false
same_limits (a ∷ xs) (b ∷ ys) = same_limit a b && same_limits xs ys

pub same_limits_refl : (limits : List Limit) → same_limits limits limits ≡ true
same_limits_refl [] = refl
same_limits_refl (a ∷ xs) =
    rw (same_text_refl (codes a.key), ==_refl a.count, ==_refl a.seconds, same_limits_refl xs) refl

unfoldable pub next_begin : Kind → ℕ → Stage → Bill → Option Stage
next_begin kind id s unpaid = some (set_bill kind (begun id) s)
next_begin kind id s _ = none

-- With receipts a call needs one that has begun, without them none.
unfoldable pub next_call : Bool → Kind → Stage → Bill → Option Stage
next_call true kind s (begun id) = some (set_bill kind (called id) s)
next_call true kind s _ = none
next_call false kind s unpaid = some (set_bill kind settled s)
next_call false kind s _ = none

unfoldable pub next_finish : Kind → ℕ → Stage → Bill → Option Stage
next_finish kind id s (called j) = if j == id then some (set_bill kind settled s) else none
next_finish kind id s _ = none

abbrev pub if_true {ℓ} : {A : Type ℓ} → Bool → Option A → Option A
if_true true o = o
if_true false o = none

pub if_true-eq {ℓ} : {A : Type ℓ} (b : Bool) (o : Option A) → b ≡ true → if_true b o ≡ o
if_true-eq true o h = refl
if_true-eq false o h = cc

module _ (kept : Bool) where
  unfoldable pub advance : Stage → Effect → Option Stage
  unfolding next_begin next_call next_finish bill set_bill
  advance s checked_owner = some (record s { owned = true })
  advance s (checked_limits limits) = if_true s.owned (
      some (record s {
        admitted = s.admitted || same_limits limits s.answer_quota;
        limited = s.limited || same_limits limits s.search_quota;
      }))
  advance s (began kind id) = if_true (allowed kind s) (next_begin kind id s (bill kind s))
  advance s (embedded parts) =
      if_true (allowed query_embedding s)
        (next_call kept query_embedding s (bill query_embedding s))
  advance s (generated payload) =
      if_true (allowed generation s) (next_call kept generation s (bill generation s))
  advance s (finished kind id i o) = next_finish kind id s (bill kind s)

  abbrev pub then_run : (Stage → Option Stage) → Option Stage → Option Stage
  then_run f none = none
  then_run f (some s) = f s

  -- Where a log leads, if every call in it may stand where it does.
  unfoldable pub run : List Effect → Stage → Option Stage
  unfolding advance
  run [] s = some s
  run (e ∷ es) s = then_run (run es) (advance s e)

  run-append : (es fs : List Effect) (s : Stage) → run (es ++ fs) s ≡ then_run (run fs) (run es s)
  unfolding run
  run-append [] fs s = refl
  run-append (e ∷ es) fs s = elim (Option-cases (advance s e)) [
    | inl q ↦ rw q refl
    | inr (t, q) ↦ rw q (run-append es fs t)
  ]

  -- The log of an action is legal, and a value comes with a stage of which more is known.
  abbrev pub Leads {ℓ} : {A : Type ℓ} → Stage → Action A → (A → Stage → Type 0) → Type 0
  Leads s (raised es r) P = (t : Stage) × (run es s ≡ some t)
  Leads s (done es a) P = (t : Stage) × (run es s ≡ some t) × P a t

  run-append_legal :
      (es fs : List Effect) (s t : Stage) {u : Stage}
      → run es s ≡ some t
      → run fs t ≡ some u
      → run (es ++ fs) s ≡ some u
  run-append_legal es fs s t e f = run-append es fs s ∙ ap (then_run (run fs)) e ∙ f

  pub prepend-Leads {ℓ} :
      {A : Type ℓ} (es : List Effect) (act : Action A) (s t : Stage) (P : A → Stage → Type 0)
      → run es s ≡ some t
      → Leads t act P
      → Leads s (prepend es act) P
  prepend-Leads es (raised fs r) s t P e h = (h.0, run-append_legal es fs s t e h.1)
  prepend-Leads es (done fs a) s t P e h = (h.0, run-append_legal es fs s t e h.1, h.2)

  pub bind-Leads {ℓ κ} :
      {A : Type ℓ} {B : Type κ} (s : Stage) (act : Action A) (rest : A → Action B)
      (P : A → Stage → Type 0) (Q : B → Stage → Type 0)
      → Leads s act P
      → ((a : A) (t : Stage) → P a t → Leads t (rest a) Q)
      → Leads s (act >>= rest) Q
  bind-Leads s (raised es r) rest P Q h k = h
  bind-Leads s (done es a) rest P Q h k = prepend-Leads es (rest a) s h.0 Q h.1 (k a h.0 h.2)

  pub ask-Leads {ℓ} : {A : Type ℓ} (s : Stage) (o : Reply A) → Leads s (ask o) (λ _ t. t ≡ s)
  unfolding run
  ask-Leads s (fails r) = (s, refl)
  ask-Leads s (gives a) = (s, refl, refl)

  pub fail_if-Leads : (s : Stage) (b : Bool) (e : AppError) → Leads s (fail_if b e) (λ _ t. t ≡ s)
  unfolding run
  fail_if-Leads s true e = (s, refl)
  fail_if-Leads s false e = (s, refl, refl)

  pub call-Leads {ℓ} :
      {A : Type ℓ} (s : Stage) (e : Effect) (o : Reply A) {t : Stage}
      → advance s e ≡ some t
      → Leads s (call e o) (λ _ u. u ≡ t)
  unfolding run
  call-Leads s e (fails r) {t} h = (t, ap (then_run some) h)
  call-Leads s e (gives a) {t} h = (t, ap (then_run some) h, refl)

  pub done-Leads {ℓ} :
      {A : Type ℓ} (s : Stage) (a : A) (P : A → Stage → Type 0) → P a s → Leads s (done [] a) P
  unfolding run
  done-Leads s a P h = (s, refl, h)
