-- ===== src/Sql/Statements.antt =====
-- The SQL statements that the backend builds with SQLAlchemy. A table is the list of its rows.
-- `update(model).where(p).values(...)` changes every row at which `p` holds, and
-- `.returning(model.id)` gives the ids of these rows.
use ai_powered_codebase_engi.Prelude.{
  ℕ, ◌≡◌, ◌≢◌, refl, Bool, true, false, Option, none, some, List, [], ◌∷◌, arith, inl, inr,
  if◌then◌else◌, length, All, Bool-cases, ◌++◌, leb,
}

pub none≢some {ℓ} : {A : Type ℓ} {a : A} → none ≢ some a
none≢some h = cc

module _ {R : Type 0} where
  unfoldable pub update_where : (R → Bool) → (R → R) → List R → List R
  update_where p f [] = []
  update_where p f (r ∷ rs) = (if p r then f r else r) ∷ update_where p f rs

  -- The rows that a WHERE clause selects, in the table's order.
  unfoldable pub select_where : (R → Bool) → List R → List R
  select_where p [] = []
  select_where p (r ∷ rs) = let rest = select_where p rs in if p r then r ∷ rest else rest

  -- `db.scalar(...)`: the first row, if there is one.
  abbrev pub scalar : List R → Option R
  scalar [] = none
  scalar (r ∷ rs) = some r

  -- `.order_by(column)`, as a stable insertion.
  unfoldable pub insert_by : (R → ℕ) → R → List R → List R
  insert_by column r [] = r ∷ []
  insert_by column r (s ∷ rest) =
      if leb (column r) (column s) then r ∷ s ∷ rest else s ∷ insert_by column r rest

  unfoldable pub order_by : (R → ℕ) → List R → List R
  unfolding insert_by
  order_by column [] = []
  order_by column (r ∷ rest) = insert_by column r (order_by column rest)

  insert_by-All :
      (P : R → Type 0) (column : R → ℕ) (r : R) (rows : List R)
      → P r
      → All P rows
      → All P (insert_by column r rows)
  unfolding insert_by
  insert_by-All P column r [] p h = (p, tt)
  insert_by-All P column r (s ∷ rows) p h = elim (Bool-cases (leb (column r) (column s))) [
    | inl e ↦ rw e (p, h)
    | inr e ↦ rw e (h.0, insert_by-All P column r rows p h.1)
  ]

  pub order_by-All :
      (P : R → Type 0) (column : R → ℕ) (rows : List R) → All P rows → All P (order_by column rows)
  unfolding order_by
  order_by-All P column [] h = tt
  order_by-All P column (r ∷ rows) h =
      insert_by-All P column r (order_by column rows) h.0 (order_by-All P column rows h.1)

  -- A selection keeps what holds of every row.
  pub select_where-keeps :
      (P : R → Type 0) (p : R → Bool) (rows : List R) → All P rows → All P (select_where p rows)
  unfolding select_where
  select_where-keeps P p [] h = tt
  select_where-keeps P p (r ∷ rows) h = elim (Bool-cases (p r)) [
    | inl e ↦ rw e (h.0, select_where-keeps P p rows h.1)
    | inr e ↦ rw e (select_where-keeps P p rows h.1)
  ]

  pub select_where-append :
      (p : R → Bool) (rs qs : List R)
      → select_where p (rs ++ qs) ≡ select_where p rs ++ select_where p qs
  unfolding select_where
  select_where-append p [] qs = refl
  select_where-append p (r ∷ rs) qs = ground (arith, select_where-append p rs qs)

  pub select_where-nil :
      (p : R → Bool) (rs : List R) → All (λ r. p r ≡ false) rs → select_where p rs ≡ []
  unfolding select_where
  select_where-nil p [] h = refl
  select_where-nil p (r ∷ rs) h = rw h.0 (select_where-nil p rs h.1)

  -- An update keeps what its assignment keeps.
  pub update_where-All :
      {P : R → Type 0} (p : R → Bool) (f : R → R)
      → ((r : R) → P r → p r ≡ true → P (f r))
      → (rs : List R) → All P rs
      → All P (update_where p f rs)
  unfolding update_where
  update_where-All p f step [] h = tt
  update_where-All p f step (r ∷ rs) h = elim (Bool-cases (p r)) [
    | inl e ↦ rw e (step r h.0 e, update_where-All p f step rs h.1)
    | inr e ↦ rw e (h.0, update_where-All p f step rs h.1)
  ]

  -- The same, where the property changes with the update.
  pub update_where-All₂ :
      {P Q : R → Type 0} (p : R → Bool) (f : R → R)
      → ((r : R) → P r → p r ≡ true → Q (f r))
      → ((r : R) → P r → p r ≡ false → Q r)
      → (rs : List R) → All P rs
      → All Q (update_where p f rs)
  unfolding update_where
  update_where-All₂ p f step keep [] h = tt
  update_where-All₂ p f step keep (r ∷ rs) h = elim (Bool-cases (p r)) [
    | inl e ↦ rw e (step r h.0 e, update_where-All₂ p f step keep rs h.1)
    | inr e ↦ rw e (keep r h.0 e, update_where-All₂ p f step keep rs h.1)
  ]

  pub update_where-none :
      (p : R → Bool) (f : R → R) (rs : List R)
      → All (λ r. p r ≡ false) rs
      → update_where p f rs ≡ rs
  unfolding update_where
  update_where-none p f [] h = refl
  update_where-none p f (r ∷ rs) h = rw (h.0, update_where-none p f rs h.1)

  -- No row is returned exactly when the statement changes nothing.
  pub select_where-none :
      (p : R → Bool) (rs : List R) → scalar (select_where p rs) ≡ none → All (λ r. p r ≡ false) rs
  unfolding select_where
  select_where-none p [] h = tt
  select_where-none p (r ∷ rs) h = ground (arith, select_where-none p rs)

  pub select_where_nothing :
      (p : R → Bool) (rs : List R) → All (λ r. p r ≡ false) rs → scalar (select_where p rs) ≡ none
  unfolding select_where
  select_where_nothing p [] h = refl
  select_where_nothing p (r ∷ rs) h = rw h.0 (select_where_nothing p rs h.1)

  pub select_where-some :
      (p : R → Bool) (rs : List R) {r : R} → scalar (select_where p rs) ≡ some r → p r ≡ true
  unfolding select_where
  select_where-some p [] h = cc
  select_where-some p (s ∷ rs) {r} h = ground (arith, select_where-some p rs {r = r})

  pub length-update_where :
      (p : R → Bool) (f : R → R) (rs : List R) → length (update_where p f rs) ≡ length rs
  unfolding update_where
  length-update_where p f [] = refl
  length-update_where p f (r ∷ rs) = rw (length-update_where p f rs)

  pub select_where-All : (p : R → Bool) (rs : List R) → All (λ r. p r ≡ true) (select_where p rs)
  unfolding select_where
  select_where-All p [] = tt
  select_where-All p (r ∷ rs) = elim (Bool-cases (p r)) [
    | inl e ↦ rw e (e, select_where-All p rs)
    | inr e ↦ rw e (select_where-All p rs)
  ]
