-- ===== src/Context/Citations.antt =====
-- `validate_citations` of generation/context.py against the plain meaning of its tests on sets.
use mathlib.Core.Bool.{false≢true}
use ai_powered_codebase_engi.Prelude.{
  ℕ, ◌≤◌, ◌≡◌, ◌↔◌, refl, sym, ap, ◌∙◌, not, ◌&&◌, ◌||◌, Bool, true, false, List, [], ◌∷◌, arith,
  length, all, any, All, ◌==◌, Bool-cases, inl, inr, subst, ==_iff,
}
use ai_powered_codebase_engi.Prelude.Result.{ok}
use ai_powered_codebase_engi.Context.Model.{
  insert_id, set_of, is_subset, cites_badly, check_claims, validate_citations,
}

abbrev pub among : List ℕ → ℕ → Bool
among ids i = any (λ j. i == j) ids

-- No id stands twice.
abbrev pub HasNoRepeat : List ℕ → Type 0
HasNoRepeat [] = Unit
HasNoRepeat (i ∷ ids) = (among ids i ≡ false) × HasNoRepeat ids

among-set_of : (ids : List ℕ) (i : ℕ) → among (set_of ids) i ≡ among ids i
unfolding set_of insert_id
among-set_of [] i = refl
among-set_of (j ∷ ids) i = elim (Bool-cases (among (set_of ids) j)) [
  | inl e ↦ elim (Bool-cases (i == j)) [
    | inl q ↦
        let same : i ≡ j = (==_iff i j).0 q in
        rw (e, q) (subst (λ k. among (set_of ids) k ≡ true) (sym same) e)
    | inr q ↦ rw (e, q) (among-set_of ids i)
  ]
  | inr e ↦ rw e (ap (λ b. i == j || b) (among-set_of ids i))
]

length-set_of : (ids : List ℕ) → length (set_of ids) ≤ length ids
unfolding set_of insert_id
length-set_of [] = omega arith
length-set_of (j ∷ ids) = ground (arith, length-set_of ids)

all-false :
    (p : ℕ → Bool) (ids : List ℕ) (j : ℕ) → among ids j ≡ true → p j ≡ false → all p ids ≡ false
all-false p [] j e q = cc
all-false p (k ∷ ids) j e q = elim (Bool-cases (j == k)) [
  | inl s ↦
      let same : j ≡ k = (==_iff j k).0 s in
      let failing : p k ≡ false = ap p (sym same) ∙ q in rw failing refl
  | inr s ↦ let rest : all p ids ≡ false = all-false p ids j (rw s at e) q in ground arith
]

all-set_of : (p : ℕ → Bool) (ids : List ℕ) → all p (set_of ids) ≡ all p ids
unfolding set_of insert_id
all-set_of p [] = refl
all-set_of p (j ∷ ids) = elim (Bool-cases (among (set_of ids) j)) [
  | inl e ↦ elim (Bool-cases (p j)) [
    | inl q ↦ rw (e, q) (all-set_of p ids)
    | inr q ↦ rw (e, q) (all-false p (set_of ids) j e q)
  ]
  | inr e ↦ rw e (ap (λ b. p j && b) (all-set_of p ids))
]

is_set-HasNoRepeat : (ids : List ℕ) → ((length (set_of ids) == length ids) ≡ true) ↔ HasNoRepeat ids
unfolding set_of insert_id
is_set-HasNoRepeat [] = (λ e. tt, λ h. refl)
is_set-HasNoRepeat (j ∷ ids) = elim (Bool-cases (among (set_of ids) j)) [
  | inl e ↦
      let few = length-set_of ids in
      rw e (
        (λ h. absurd (omega (arith, few, (==_iff _ _).0 h))),
        (λ h. absurd (false≢true (sym h.0 ∙ sym (among-set_of ids j) ∙ e))),
      )
  | inr e ↦
      let rest = is_set-HasNoRepeat ids in
      rw e (
        (λ h. (
          sym (among-set_of ids j) ∙ e,
          rest.0 ((==_iff _ _).1 (omega (arith, (==_iff _ _).0 h))),
        )),
        (λ h. (==_iff _ _).1 (omega (arith, (==_iff _ _).0 (rest.1 h.1)))),
      )
]

-- Every id stands in the list.
abbrev pub AreAmong : List ℕ → List ℕ → Type 0
AreAmong evidence ids = All (λ i. among evidence i ≡ true) ids

all-AreAmong : (evidence ids : List ℕ) → (all (among evidence) ids ≡ true) ↔ AreAmong evidence ids
all-AreAmong evidence [] = (λ e. tt, λ h. refl)
all-AreAmong evidence (i ∷ ids) =
    let rest = all-AreAmong evidence ids in
    elim (Bool-cases (among evidence i)) [
      | inl e ↦ rw e ((λ h. (refl, rest.0 h)), (λ h. rest.1 h.1))
      | inr e ↦ rw e ((λ h. absurd (false≢true h)), (λ h. absurd (false≢true h.0)))
    ]

all-ext : (p q : ℕ → Bool) (ids : List ℕ) → ((i : ℕ) → p i ≡ q i) → all p ids ≡ all q ids
all-ext p q [] h = refl
all-ext p q (i ∷ ids) h = rw (h i, all-ext p q ids h) refl

-- A claim's citations are accepted exactly if no id repeats and every one is evidence.
abbrev pub IsCited : List ℕ → List ℕ → Type 0
IsCited evidence ids = HasNoRepeat ids × AreAmong evidence ids

neither_fails : (a b : Bool) → ((not a || not b) ≡ false) ↔ ((a ≡ true) × (b ≡ true))
neither_fails true true = (λ e. (refl, refl), λ h. refl)
neither_fails true false = (λ e. absurd (false≢true (sym e)), λ h. absurd (false≢true h.1))
neither_fails false b = (λ e. absurd (false≢true (sym e)), λ h. absurd (false≢true h.0))

is_subset-set_of :
    (evidence ids : List ℕ) → is_subset (set_of ids) (set_of evidence) ≡ all (among evidence) ids
unfolding is_subset
is_subset-set_of evidence ids =
    all-set_of (among (set_of evidence)) ids
    ∙ all-ext (among (set_of evidence)) (among evidence) ids (among-set_of evidence)

cites-IsCited :
    (evidence ids : List ℕ) → (cites_badly (set_of evidence) ids ≡ false) ↔ IsCited evidence ids
unfolding cites_badly
cites-IsCited evidence ids =
    let tests =
      neither_fails (length (set_of ids) == length ids)
        (is_subset (set_of ids) (set_of evidence)) in
    let repeats = is_set-HasNoRepeat ids in
    let known = all-AreAmong evidence ids in
    let same = is_subset-set_of evidence ids in
    (
      (λ e. let (a, b) = tests.0 e in (repeats.0 a, known.0 (sym same ∙ b))),
      (λ h. tests.1 (repeats.1 h.0, same ∙ known.1 h.1)),
    )

claims-AreCited :
    (evidence : List ℕ) (claims : List (List ℕ))
    → (check_claims (set_of evidence) claims ≡ ok tt) ↔ All (IsCited evidence) claims
unfolding check_claims
claims-AreCited evidence [] = (λ e. tt, λ h. refl)
claims-AreCited evidence (ids ∷ claims) =
    let rest = claims-AreCited evidence claims in
    let this = cites-IsCited evidence ids in
    elim (Bool-cases (cites_badly (set_of evidence) ids)) [
      | inl e ↦ rw e ((λ h. cc), (λ h. absurd (false≢true (sym (this.1 h.0) ∙ e))))
      | inr e ↦ rw e ((λ h. (this.0 e, rest.0 h)), (λ h. rest.1 h.1))
    ]

-- `validate_citations` accepts a draft exactly if no evidence id stands twice and each claim cites
-- only evidence ids and none of them twice.
pub validate_citations_iff :
    (claims : List (List ℕ)) (evidence : List ℕ)
    → (validate_citations claims evidence ≡ ok tt)
      ↔ (HasNoRepeat evidence × All (IsCited evidence) claims)
unfolding validate_citations
validate_citations_iff claims evidence =
    let rest = claims-AreCited evidence claims in
    let unique = is_set-HasNoRepeat evidence in
    elim (Bool-cases (length (set_of evidence) == length evidence)) [
      | inl e ↦ rw e ((λ h. (unique.0 e, rest.0 h)), (λ h. rest.1 h.1))
      | inr e ↦ rw e ((λ h. cc), (λ h. absurd (false≢true (sym e ∙ unique.1 h.0))))
    ]
