-- ===== src/Repositories/Limit.antt =====
-- What the operations of services/repository.py leave of the repositories of one and of other users.
use mathlib.Core.List.{append-nil}
use mathlib.Core.Bool.{false≢true}
use ai_powered_codebase_engi.Prelude.{
  ℕ, ◌≤◌, ◌≡◌, ◌≢◌, refl, sym, ap, ◌∙◌, subst, not, String, Bool, true, false, List, [], ◌∷◌, ◌++◌,
  arith, leb, ◌==◌, ==_ne, ==_iff, any, length, length-append, Bool-cases, inl, inr,
}
use ai_powered_codebase_engi.Prelude.Result.{
  err≢ok, Result, ok, err, app_error, raise_if, >>=-eq-ok, raise_if_passed, ok-injective, ◌>>◌,
}
use ai_powered_codebase_engi.Sql.{select_where, select_where-append}
use ai_powered_codebase_engi.Jobs.Model.{Repository, ImportJob}
use ai_powered_codebase_engi.Jobs.Control.{retry_import, cancel_import}
use ai_powered_codebase_engi.Repositories.Model.{
  Library, Imports, is_users, quota, is_connected, new_repository, connect, owned_count, create,
  owns_repository, owned, store_jobs, retry, cancel, remove,
}

-- The operations of one user.
pub data Step (user_id : ℕ) (db : Library) : Library → Type 0 where
  created :
      {after : Library} (now id job_id : ℕ) (imports : Imports) (url : String)
      → create now id job_id imports user_id url db ≡ ok after
      → Step user_id db after
  retried :
      {after : Library} (now new_id : ℕ) (imports : Imports) (repository_id : ℕ)
      → retry now new_id imports user_id repository_id db ≡ ok after
      → Step user_id db after
  cancelled :
      {after : Library} (now repository_id : ℕ)
      → cancel now user_id repository_id db ≡ ok after
      → Step user_id db after
  removed :
      {after : Library} (repository_id : ℕ)
      → remove user_id repository_id db ≡ ok after
      → Step user_id db after

store_jobs-same :
    (db : Library) (r : Result (List ImportJob)) {after : Library}
    → store_jobs db r ≡ ok after
    → after.repositories ≡ db.repositories
unfolding store_jobs
store_jobs-same db (ok jobs) e = ap (λ (d : Library). d.repositories) (sym (ok-injective e))
store_jobs-same db (err f) e = cc

-- The rows of a condition after a selection that spares them.
pub select-spared :
    {R : Type 0} (p q : R → Bool) (rs : List R)
    → ((r : R) → p r ≡ true → q r ≡ true)
    → select_where p (select_where q rs) ≡ select_where p rs
unfolding select_where
select-spared p q [] h = refl
select-spared p q (r ∷ rs) h = elim (Bool-cases (q r)) [
  | inl e ↦ rw (e, select-spared p q rs h) refl
  | inr e ↦
      let out : p r ≡ false = elim (Bool-cases (p r)) [
        | inl f ↦ absurd (false≢true (sym e ∙ h r f))
        | inr f ↦ f
      ] in
      rw (e, out) (select-spared p q rs h)
]

select-fewer :
    (p q : Repository → Bool) (rs : List Repository)
    → length (select_where p (select_where q rs)) ≤ length (select_where p rs)
unfolding select_where
select-fewer p q [] = omega arith
select-fewer p q (r ∷ rs) = ground (arith, select-fewer p q rs)

-- What `create` does when it ends well.
pub record IsCreated (user_id id : ℕ) (db after : Library) : Type 0 where
  pub row : Repository
  pub owner : row.user_id ≡ user_id
  pub appended : after.repositories ≡ db.repositories ++ (row ∷ [])
  pub room : owned_count user_id db ≤ 19

connect-appended :
    (now id job_id user_id : ℕ) (source_key owner name : String) (db : Library) {after : Library}
    → connect now id job_id user_id source_key owner name db ≡ ok after
    → after.repositories ≡ db.repositories ++ (new_repository id user_id source_key owner name ∷ [])
unfolding connect
connect-appended now id job_id user_id source_key owner name db e =
    elim (Bool-cases (any (is_connected user_id source_key) db.repositories)) [
      | inl f ↦ absurd (err≢ok (app_error "repository_exists" 409) (rw f at e))
      | inr f ↦ ap (λ (d : Library). d.repositories) (sym (ok-injective (rw f at e)))
    ]

has_room :
    (n : ℕ) {after : Library} (rest : Result Library)
    → (raise_if (leb 20 n) (app_error "repository_limit" 409) >> rest) ≡ ok after
    → n ≤ 19
has_room n rest e = elim (Bool-cases (leb 20 n)) [
  | inl f ↦ absurd (err≢ok (app_error "repository_limit" 409) (rw f at e))
  | inr f ↦ ground arith
]

create-IsCreated :
    (now id job_id : ℕ) (imports : Imports) (user_id : ℕ) (url : String) (db : Library)
    {after : Library}
    → create now id job_id imports user_id url db ≡ ok after
    → IsCreated user_id id db after
unfolding create
create-IsCreated now id job_id imports user_id url db e =
    let (u, limited, e1) = >>=-eq-ok (imports.limiter user_id) _ e in
    let (v, within, e2) = >>=-eq-ok (quota now user_id db) _ e1 in
    let e3 =
      raise_if_passed (leb 20 (owned_count user_id db)) (app_error "repository_limit" 409) _ e2 in
    let (names, parsed, e4) = >>=-eq-ok (imports.parse_repository_url url) _ e3 in
    record {
      row = new_repository id user_id (imports.source_key names.0 names.1) names.0 names.1;
      owner = unfold new_repository in refl;
      appended =
          connect-appended now id job_id user_id (imports.source_key names.0 names.1) names.0
            names.1 db e4;
      room = has_room (owned_count user_id db) _ e2;
    }

remove-eq :
    (user_id repository_id : ℕ) (db : Library) {after : Library}
    → remove user_id repository_id db ≡ ok after
    → after.repositories
      ≡ select_where (λ r. not (owns_repository user_id repository_id r)) db.repositories
unfolding remove
remove-eq user_id repository_id db e =
    let (pair, found, rest) = >>=-eq-ok (owned user_id repository_id db) _ e in
    ap (λ (d : Library). d.repositories) (sym (ok-injective rest))

retry-same :
    (now new_id : ℕ) (imports : Imports) (user_id repository_id : ℕ) (db : Library)
    {after : Library}
    → retry now new_id imports user_id repository_id db ≡ ok after
    → after.repositories ≡ db.repositories
unfolding retry
retry-same now new_id imports user_id repository_id db e =
    let (u, limited, e1) = >>=-eq-ok (imports.limiter user_id) _ e in
    let (v, within, e2) = >>=-eq-ok (quota now user_id db) _ e1 in
    let (pair, found, e3) = >>=-eq-ok (owned user_id repository_id db) _ e2 in
    store_jobs-same db (retry_import now pair.1.id pair.0.id new_id db.jobs) e3

cancel-same :
    (now user_id repository_id : ℕ) (db : Library) {after : Library}
    → cancel now user_id repository_id db ≡ ok after
    → after.repositories ≡ db.repositories
unfolding cancel
cancel-same now user_id repository_id db e =
    let (pair, found, rest) = >>=-eq-ok (owned user_id repository_id db) _ e in
    store_jobs-same db (cancel_import now pair.1.id db.jobs) rest

others_row :
    (v user_id : ℕ) (r : Repository) → v ≢ user_id → r.user_id ≡ user_id → is_users v r ≡ false
unfolding is_users
others_row v user_id r ne e = ==_ne r.user_id v (λ q. ne (sym q ∙ e))

-- Every other user's repositories stay as they are, and in their order.
pub others_rows :
    {user_id : ℕ} {a b : Library} (v : ℕ)
    → v ≢ user_id
    → Step user_id a b
    → select_where (is_users v) b.repositories ≡ select_where (is_users v) a.repositories
others_rows {user_id} {a} v ne (created now id job_id imports url e) =
    let k = create-IsCreated now id job_id imports user_id url a e in
    ap (select_where (is_users v)) k.appended
    ∙ select_where-append (is_users v) a.repositories (k.row ∷ [])
    ∙ (unfold select_where in
        rw (others_row v user_id k.row ne k.owner)
          (append-nil (select_where (is_users v) a.repositories)))
others_rows {user_id} {a} v ne (retried now new_id imports repository_id e) =
    ap (select_where (is_users v)) (retry-same now new_id imports user_id repository_id a e)
others_rows {user_id} {a} v ne (cancelled now repository_id e) =
    ap (select_where (is_users v)) (cancel-same now user_id repository_id a e)
others_rows {user_id} {a} v ne (removed repository_id e) =
    ap (select_where (is_users v)) (remove-eq user_id repository_id a e)
    ∙ select-spared (is_users v) _ a.repositories (λ r f. spared r f)
  where
    spared :
        (r : Repository)
        → is_users v r ≡ true
        → not (owns_repository user_id repository_id r) ≡ true
    spared r f =
        let mine : r.user_id ≡ v = (==_iff r.user_id v).0 (unfold is_users in f) in
        let other : (r.user_id == user_id) ≡ false =
          ==_ne r.user_id user_id (λ q. ne (sym mine ∙ q)) in
        unfold owns_repository in ground arith

one_more : (p : Repository → Bool) (r : Repository) → length (select_where p (r ∷ [])) ≤ 1
unfolding select_where
one_more p r = ground arith

-- A user with at most twenty repositories has at most twenty after every operation of any user.
pub twenty_at_most :
    {user_id : ℕ} {a b : Library} (v : ℕ)
    → Step user_id a b
    → owned_count v a ≤ 20
    → owned_count v b ≤ 20
unfolding owned_count
twenty_at_most {user_id} {a} v (created now id job_id imports url e) h =
    elim (Bool-cases (v == user_id)) [
      | inl e' ↦
          let same : v ≡ user_id = (==_iff v user_id).0 e' in
          let k = create-IsCreated now id job_id imports user_id url a e in
          let room : length (select_where (is_users v) a.repositories) ≤ 19 =
            subst (λ u. length (select_where (is_users u) a.repositories) ≤ 19) (sym same)
              (unfold owned_count in k.room) in
          rw (k.appended, select_where-append (is_users v) a.repositories (k.row ∷ []))
            (omega (
              arith,
              room,
              one_more (is_users v) k.row,
              length-append (select_where (is_users v) a.repositories)
                  (select_where (is_users v) (k.row ∷ [])),
            ))
      | inr e' ↦
          rw
            (others_rows v (λ q. false≢true (sym e' ∙ (==_iff v user_id).1 q))
              (created now id job_id imports url e))
            h
    ]
twenty_at_most {user_id} {a} v (retried now new_id imports repository_id e) h =
    rw (retry-same now new_id imports user_id repository_id a e) h
twenty_at_most {user_id} {a} v (cancelled now repository_id e) h =
    rw (cancel-same now user_id repository_id a e) h
twenty_at_most {user_id} {a} v (removed repository_id e) h =
    rw (remove-eq user_id repository_id a e) (
      omega (
        arith,
        h,
        select-fewer (is_users v) (λ r. not (owns_repository user_id repository_id r))
            a.repositories,
      ))
