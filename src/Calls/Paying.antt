-- ===== src/Calls/Paying.antt =====
-- The stages of a call that is paid: its receipt, the call, and its usage.
use ai_powered_codebase_engi.Prelude.{
  ℕ, ◌≡◌, refl, sym, ◌∙◌, Bool, true, false, Option, none, some, [], ◌∷◌, ==_refl, is_some, String,
  ap,
}
use ai_powered_codebase_engi.Prelude.Result.{AppError}
use ai_powered_codebase_engi.Receipts.Model.{Kind, generation, query_embedding}
use ai_powered_codebase_engi.Calls.Model.{
  failed, usage_error, timeout, invalid, Reply, fails, gives, Effect, finished, raised, call,
  Writer, begin_if, logged_begin, finish_if, settle_usage,
}
use ai_powered_codebase_engi.Calls.Conduct.{
  Bill, unpaid, begun, called, settled, Stage, bill, set_bill, next_begin, next_call, next_finish,
  if_true, if_true-eq, allowed, advance, then_run, run, Leads, prepend-Leads, bind-Leads,
  call-Leads,
}

bill-set_bill : (kind : Kind) (b : Bill) (s : Stage) → bill kind (set_bill kind b s) ≡ b
unfolding bill set_bill
bill-set_bill query_embedding b s = refl
bill-set_bill generation b s = refl

set_bill-set_bill :
    (kind : Kind) (b c : Bill) (s : Stage) → set_bill kind b (set_bill kind c s) ≡ set_bill kind b s
unfolding set_bill
set_bill-set_bill query_embedding b c s = refl
set_bill-set_bill generation b c s = refl

set_bill-allowed :
    (kind : Kind) (b : Bill) (s : Stage) → allowed kind (set_bill kind b s) ≡ allowed kind s
unfolding set_bill
set_bill-allowed query_embedding b s = refl
set_bill-allowed generation b s = refl

-- The stage after a receipt has begun for a call, and after the call.
abbrev pub IsBegun : Option Writer → Kind → Stage → Option ℕ → Stage → Type 0
IsBegun none kind s id t = (id ≡ none) × (t ≡ s)
IsBegun (some w) kind s id t = (i : ℕ) × (id ≡ some i) × (t ≡ set_bill kind (begun i) s)

abbrev pub IsCalled : Option Writer → Kind → Stage → Option ℕ → Stage → Type 0
IsCalled none kind s id t = (id ≡ none) × (t ≡ set_bill kind settled s)
IsCalled (some w) kind s id t = (i : ℕ) × (id ≡ some i) × (t ≡ set_bill kind (called i) s)

-- A call of a kind, as the automaton reads it.
abbrev pub IsCallOf : Bool → Kind → Effect → Type 0
IsCallOf kept kind e =
    (s : Stage) → advance kept s e ≡ if_true (allowed kind s) (next_call kept kind s (bill kind s))

pub begin_if-Leads :
    (writer : Option Writer) (kind : Kind) (model : String) (input_rate output_rate : ℕ) (s : Stage)
    → allowed kind s ≡ true
    → bill kind s ≡ unpaid
    → Leads
        (is_some writer)
        s
        (begin_if writer kind model input_rate output_rate)
        (IsBegun writer kind s)
unfolding begin_if run
begin_if-Leads none kind model input_rate output_rate s a u = (s, refl, (refl, refl))
begin_if-Leads (some w) kind model input_rate output_rate s a u =
    go (w.begin kind model input_rate output_rate)
  where
    go : (o : Reply ℕ) → Leads true s (logged_begin kind o) (IsBegun (some w) kind s)
    go (fails r) = unfold logged_begin in (s, refl)
    go (gives id) =
        unfold logged_begin in
        (
          set_bill kind (begun id) s,
          unfold advance in
              ap (then_run true some) (
                if_true-eq (allowed kind s) _ a
                ∙ ap (next_begin kind id s) u
                ∙ unfold next_begin in refl),
          (id, refl, refl),
        )

some_injective : {a b : ℕ} → some a ≡ some b → a ≡ b
some_injective e = cc

finish_same :
    (kind : Kind) (id : ℕ) (s : Stage)
    → next_finish kind id s (called id) ≡ some (set_bill kind settled s)
unfolding next_finish
finish_same kind id s = rw (==_refl id) refl

pub finish_if-Leads :
    (writer : Option Writer) (kind : Kind) (id : Option ℕ) (input_tokens output_tokens : ℕ)
    (s t : Stage)
    → IsCalled writer kind s id t
    → Leads
        (is_some writer)
        t
        (finish_if writer kind id input_tokens output_tokens)
        (λ _ u. u ≡ set_bill kind settled s)
unfolding finish_if
finish_if-Leads none kind id i o s t h = unfold run in (t, refl, h.1)
finish_if-Leads (some w) kind none i o s t h = let absent = h.1 in cc
finish_if-Leads (some w) kind (some id) i o s t h =
    let same : id ≡ h.0 = some_injective h.1 in
    let called_it : bill kind t ≡ called id =
      ap (bill kind) h.2 ∙ bill-set_bill kind (called h.0) s ∙ ap called (sym same) in
    let closed : set_bill kind settled t ≡ set_bill kind settled s =
      ap (set_bill kind settled) h.2 ∙ set_bill-set_bill kind settled (called h.0) s in
    let steps : advance true t (finished kind id i o) ≡ some (set_bill kind settled s) =
      unfold advance in
      ap (next_finish kind id t) called_it ∙ finish_same kind id t ∙ ap some closed in
    call-Leads true t (finished kind id i o) (w.finish id i o) steps

pub settle_usage-Leads {ℓ} :
    {A : Type ℓ} (writer : Option Writer) (kind : Kind) (id : Option ℕ) (s t : Stage) (e : Effect)
    (o : Reply A)
    → allowed kind s ≡ true
    → bill kind s ≡ unpaid
    → IsCallOf (is_some writer) kind e
    → IsBegun writer kind s id t
    → Leads
        (is_some writer)
        t
        (settle_usage writer kind id (call e o))
        (λ _ u. IsCalled writer kind s id u)
unfolding settle_usage
settle_usage-Leads {A} writer kind id s t e o a u law h = go o (steps writer law h)
  where
    steps :
        (writer : Option Writer)
        → IsCallOf (is_some writer) kind e
        → IsBegun writer kind s id t
        → (v : Stage) × (run (is_some writer) (e ∷ []) t ≡ some v) × IsCalled writer kind s id v
    steps none law h = (
      set_bill kind settled s,
      ap (λ q. run false (e ∷ []) q) h.1
          ∙ unfold run in
            ap (then_run false some) (
              law s
              ∙ if_true-eq (allowed kind s) _ a
              ∙ ap (next_call false kind s) u
              ∙ unfold next_call in refl),
      (h.0, refl),
    )
    steps (some w) law h =
        let s1 = set_bill kind (begun h.0) s in
        (
          set_bill kind (called h.0) s,
          ap (λ q. run true (e ∷ []) q) h.2
              ∙ unfold run in
                ap (then_run true some) (
                  law s1
                  ∙ if_true-eq (allowed kind s1) _ (set_bill-allowed kind (begun h.0) s ∙ a)
                  ∙ ap (next_call true kind s1) (bill-set_bill kind (begun h.0) s)
                  ∙ unfold next_call in
                    ap some (set_bill-set_bill kind (called h.0) (begun h.0) s)),
          (h.0, h.1, refl),
        )

    raising :
        (f : AppError) (i j : ℕ) (x : Unit {0}) (v : Stage)
        → v ≡ set_bill kind settled s
        → Leads
            (is_some writer)
            {A = A}
            v
            (raised [] (usage_error f i j))
            (λ _ u. IsCalled writer kind s id u)
    raising f i j x v q = unfold run in (v, refl)

    go :
        (o : Reply A)
        → (v : Stage) × (run (is_some writer) (e ∷ []) t ≡ some v) × IsCalled writer kind s id v
        → Leads
            (is_some writer)
            t
            (settle_usage writer kind id (call e o))
            (λ _ u. IsCalled writer kind s id u)
    go (gives x) k = k
    go (fails (failed f)) k = (k.0, k.1)
    go (fails timeout) k = (k.0, k.1)
    go (fails invalid) k = (k.0, k.1)
    go (fails (usage_error f i j)) k = prepend-Leads (is_some writer) (e ∷ []) _ t k.0 _ k.1 (
        bind-Leads (is_some writer) k.0 (finish_if writer kind id i j) _
          (λ _ v. v ≡ set_bill kind settled s) (λ _ v. IsCalled writer kind s id v)
          (finish_if-Leads writer kind id i j s k.0 k.2) (raising f i j))
