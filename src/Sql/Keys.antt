-- ===== src/Sql/Keys.antt =====
-- Tables with a primary key: what a statement that names a key does.
use mathlib.Core.Option
use mathlib.Core.List.{Memᴰ}
use ai_powered_codebase_engi.Prelude.{
  ℕ, ◌≡◌, ◌≢◌, refl, Bool, true, false, Option, none, some, List, [], ◌∷◌, arith, ◌==◌, inl, inr,
  if◌then◌else◌, All, Bool-cases, sym, ◌∙◌, ◌++◌, All-append, All-map, All-Memᴰ, ap, map, ◌||◌,
  ==_ne, ==_refl,
}
use ai_powered_codebase_engi.Sql.Statements.{
  none≢some, update_where, select_where, scalar, select_where-nil, select_where-keeps,
  update_where-All, select_where-some,
}

-- The ids that an UPDATE returns.
abbrev pub contains : List ℕ → ℕ → Bool
contains [] i = false
contains (j ∷ js) i = j == i || contains js i

abbrev pub Distinct : List ℕ → Type 0
Distinct [] = Unit
Distinct (j ∷ js) = (contains js j ≡ false) × Distinct js

module _ {R : Type 0} (key : R → ℕ) where
  -- `db.get(model, id)`
  unfoldable pub find : ℕ → List R → Option R
  find i [] = none
  find i (r ∷ rs) = if key r == i then some r else find i rs

  -- An UPDATE that keeps the key acts on each row by itself.
  pub find-update_where :
      (p : R → Bool) (f : R → R)
      → ((r : R) → key (f r) ≡ key r)
      → (i : ℕ) (rs : List R)
      → find i (update_where p f rs) ≡ Option.map (λ r. if p r then f r else r) (find i rs)
  unfolding find update_where
  find-update_where p f same i [] = refl
  find-update_where p f same i (r ∷ rs) = ground (arith, same r, find-update_where p f same i rs)

  -- The primary key: no two rows share it.
  abbrev pub Unique : List R → Type 0
  Unique [] = Unit
  Unique (r ∷ rs) = All (λ s. key s ≢ key r) rs × Unique rs

  pub update_where-Unique :
      (p : R → Bool) (f : R → R)
      → ((r : R) → key (f r) ≡ key r)
      → (rs : List R) → Unique rs
      → Unique (update_where p f rs)
  unfolding update_where
  update_where-Unique p f same [] h = tt
  update_where-Unique p f same (r ∷ rs) h = (others (p r), update_where-Unique p f same rs h.1)
    where
      others : (b : Bool) → All (λ s. key s ≢ key (if b then f r else r)) (update_where p f rs)
      others b =
          let e : key (if b then f r else r) ≡ key r = kept b in
          rw e (update_where-All p f (λ s n _ q. n (sym (same s) ∙ q)) rs h.0)
        where
          kept : (c : Bool) → key (if c then f r else r) ≡ key r
          kept true = same r
          kept false = refl

  pub append-Unique :
      (rs : List R) (r : R) → All (λ s. key s ≢ key r) rs → Unique rs → Unique (rs ++ r ∷ [])
  append-Unique [] r fresh h = (tt, tt)
  append-Unique (s ∷ rs) r fresh h = (
    All-append (λ t. key t ≢ key s) rs (r ∷ []) h.0 (λ e. fresh.0 (sym e), tt),
    append-Unique rs r fresh.1 h.1,
  )

  pub select_where-Memᴰ :
      (p : R → Bool) (rs : List R) {row : R} → scalar (select_where p rs) ≡ some row → Memᴰ row rs
  unfolding select_where
  select_where-Memᴰ p [] e = absurd (none≢some e)
  select_where-Memᴰ p (r ∷ rs) {row} e = elim (Bool-cases (p r)) [
    | inl t ↦ Memᴰ.head (ground arith)
    | inr f ↦ Memᴰ.tail (select_where-Memᴰ p rs (ground arith))
  ]

  -- Under a primary key a row is told by its key.
  pub Unique-only :
      (rs : List R) {row : R} → Unique rs → Memᴰ row rs → All (λ r. key r ≡ key row → r ≡ row) rs
  Unique-only [] h m = elim m [ ]
  Unique-only (r ∷ rs) {row} h (Memᴰ.head e) =
      (λ _. sym e, All-map (λ s n q. absurd (n (q ∙ ap key e))) rs h.0)
  Unique-only (r ∷ rs) {row} h (Memᴰ.tail m) =
      (λ q. absurd (All-Memᴰ (λ s. key s ≢ key r) rs m h.0 (sym q)), Unique-only rs h.1 m)

  -- So a statement that names one row selects that row alone.
  pub select_where-only :
      (p : R → Bool) (i : ℕ)
      → ((r : R) → p r ≡ true → key r ≡ i)
      → (rs : List R) {row : R} → Unique rs
      → scalar (select_where p rs) ≡ some row
      → All (λ r. key r ≡ i → r ≡ row) rs
  select_where-only p i named rs h e =
      All-map (λ r only q. only (q ∙ sym (named _ (select_where-some p rs e)))) rs
        (Unique-only rs h (select_where-Memᴰ p rs e))

  pub select_where-Unique : (p : R → Bool) (rs : List R) → Unique rs → Unique (select_where p rs)
  unfolding select_where
  select_where-Unique p [] h = tt
  select_where-Unique p (r ∷ rs) h = elim (Bool-cases (p r)) [
    | inl e ↦ rw e (select_where-keeps (λ s. key s ≢ key r) p rs h.0, select_where-Unique p rs h.1)
    | inr e ↦ rw e (select_where-Unique p rs h.1)
  ]

  -- A row that is selected is still found.
  pub find-select_where :
      (p : R → Bool) (i : ℕ) (rs : List R) {row : R}
      → find i rs ≡ some row
      → p row ≡ true
      → find i (select_where p rs) ≡ some row
  unfolding find select_where
  find-select_where p i [] e t = absurd (none≢some e)
  find-select_where p i (r ∷ rs) {row} e t = elim (Bool-cases (key r == i)) [
    | inl k ↦
        let same : r ≡ row = ground arith in
        let chosen : p r ≡ true = ap p same ∙ t in rw (chosen) (rw k (rw k at e))
    | inr k ↦
        let rest : find i rs ≡ some row = rw k at e in
        elim (Bool-cases (p r)) [
          | inl q ↦ rw q (rw k (find-select_where p i rs rest t))
          | inr q ↦ rw q (find-select_where p i rs rest t)
        ]
  ]

  pub find-append :
      (i : ℕ) (rs more : List R) {row : R} → find i rs ≡ some row → find i (rs ++ more) ≡ some row
  unfolding find
  find-append i [] more e = absurd (none≢some e)
  find-append i (r ∷ rs) more {row} e = elim (Bool-cases (key r == i)) [
    | inl t ↦ ground arith
    | inr f ↦ rw f (find-append i rs more (ground arith))
  ]

  -- The selected row of a statement that names one row is the whole selection.
  pub select_where-single :
      (p : R → Bool) (i : ℕ)
      → ((r : R) → p r ≡ true → key r ≡ i)
      → (rs : List R) {row : R} → Unique rs
      → scalar (select_where p rs) ≡ some row
      → select_where p rs ≡ row ∷ []
  unfolding select_where
  select_where-single p i named [] h e = absurd (none≢some e)
  select_where-single p i named (r ∷ rs) {row} h e = elim (Bool-cases (p r)) [
    | inl t ↦
        let rest = select_where-nil p rs (All-map (λ s n. unselected s n (named r t)) rs h.0) in
        ground arith
    | inr f ↦ rw f (select_where-single p i named rs h.1 (ground arith))
  ]
    where
      unselected : (s : R) → key s ≢ key r → key r ≡ i → p s ≡ false
      unselected s n t = elim (Bool-cases (p s)) [
        | inl q ↦ absurd (n (named s q ∙ sym t))
        | inr q ↦ q
      ]

  pub find-Memᴰ : (i : ℕ) (rs : List R) {row : R} → find i rs ≡ some row → Memᴰ row rs
  unfolding find
  find-Memᴰ i [] e = absurd (none≢some e)
  find-Memᴰ i (r ∷ rs) {row} e = elim (Bool-cases (key r == i)) [
    | inl t ↦ Memᴰ.head (ground arith)
    | inr f ↦ Memᴰ.tail (find-Memᴰ i rs (ground arith))
  ]

  pub find-key : (i : ℕ) (rs : List R) {row : R} → find i rs ≡ some row → key row ≡ i
  unfolding find
  find-key i [] e = absurd (none≢some e)
  find-key i (r ∷ rs) {row} e = elim (Bool-cases (key r == i)) [
    | inl t ↦ ground arith
    | inr f ↦ find-key i rs (ground arith)
  ]

  pub find-none : (i : ℕ) (rs : List R) → find i rs ≡ none → All (λ r. key r ≢ i) rs
  unfolding find
  find-none i [] e = tt
  find-none i (r ∷ rs) e = elim (Bool-cases (key r == i)) [
    | inl t ↦ absurd (none≢some {a = r} (sym e ∙ rw t refl))
    | inr f ↦ (λ q. ground arith, find-none i rs (ground arith))
  ]

  returned-absent :
      (p : R → Bool) (i : ℕ) (rs : List R)
      → All (λ r. key r ≢ i) rs
      → contains (map key (select_where p rs)) i ≡ false
  unfolding select_where
  returned-absent p i [] h = refl
  returned-absent p i (r ∷ rs) h = ground (arith, returned-absent p i rs h.1, ==_ne (key r) i h.0)

  pub returned-Distinct :
      (p : R → Bool) (rs : List R) → Unique rs → Distinct (map key (select_where p rs))
  unfolding select_where
  returned-Distinct p [] h = tt
  returned-Distinct p (r ∷ rs) h = elim (Bool-cases (p r)) [
    | inl e ↦ rw e (returned-absent p (key r) rs h.0, returned-Distinct p rs h.1)
    | inr e ↦ rw e (returned-Distinct p rs h.1)
  ]

  returned-cons :
      (p : R → Bool) (r : R) (rs qs : List R)
      → All (λ s. key s ≢ key r) qs
      → All (λ s. contains (map key (select_where p rs)) (key s) ≡ p s) qs
      → All (λ s. contains (map key (select_where p (r ∷ rs))) (key s) ≡ p s) qs
  unfolding select_where
  returned-cons p r rs [] n h = tt
  returned-cons p r rs (s ∷ qs) n h = (
    ground (arith, ==_ne (key r) (key s) (λ q. n.0 (sym q)), h.0),
    returned-cons p r rs qs n.1 h.1,
  )

  returned_self :
      (p : R → Bool) (r : R) (rs : List R)
      → All (λ s. key s ≢ key r) rs
      → contains (map key (select_where p (r ∷ rs))) (key r) ≡ p r
  unfolding select_where
  returned_self p r rs h = ground (arith, ==_refl (key r), returned-absent p (key r) rs h)

  -- A row's id is returned exactly if the row was selected.
  pub returned_iff :
      (p : R → Bool) (rs : List R)
      → Unique rs
      → All (λ r. contains (map key (select_where p rs)) (key r) ≡ p r) rs
  returned_iff p [] h = tt
  returned_iff p (r ∷ rs) h =
      (returned_self p r rs h.0, returned-cons p r rs rs h.0 (returned_iff p rs h.1))
