-- ===== src/Repositories/Others.antt =====
-- What the operations of services/repository.py leave of other users' repositories and of their jobs.
use mathlib.Core.List.{Memᴰ, append-nil}
use ai_powered_codebase_engi.Prelude.{
  ℕ, ◌≡◌, ◌≢◌, refl, sym, ap, ◌∙◌, String, Bool, true, false, Option, none, some, List, [], ◌∷◌,
  ◌++◌, arith, leb, ◌==◌, ==_ne, ==_iff, any, All, All-Memᴰ, All-map, Bool-cases, inl, inr,
}
use ai_powered_codebase_engi.Prelude.Result.{
  err≢ok, Result, ok, err, app_error, >>=-eq-ok, raise_if_passed, ok-injective,
}
use ai_powered_codebase_engi.Sql.{
  update_where, select_where, select_where-append, select_where-some, select_where-Memᴰ, scalar,
  Unique, Unique-only,
}
use ai_powered_codebase_engi.Jobs.Model.{Repository, ImportJob}
use ai_powered_codebase_engi.Jobs.Control.{
  committed-eq-ok, cancellable, cancel_values, retired, retire_values, cancel_import, retry_import,
  drop_jobs, new_job, no_counts,
}
use ai_powered_codebase_engi.Repositories.Model.{
  Library, is_users, quota, is_connected, connect, owned_count, create, owns_repository, current_of,
  found_pair, owned, store_jobs, retry, cancel, remove,
}
use ai_powered_codebase_engi.Repositories.Limit.{
  Step, created, retried, cancelled, removed, select-spared, others_rows,
}

-- The jobs of a repository.
abbrev pub jobs_of : ℕ → List ImportJob → List ImportJob
jobs_of id = select_where (λ j. j.repository_id == id)

-- An update that spares the rows of a condition.
select-apart :
    (q p : ImportJob → Bool) (f : ImportJob → ImportJob) (jobs : List ImportJob)
    → ((j : ImportJob) → q (f j) ≡ q j)
    → All (λ j. p j ≡ true → q j ≡ false) jobs
    → select_where q (update_where p f jobs) ≡ select_where q jobs
unfolding select_where update_where
select-apart q p f [] same h = refl
select-apart q p f (j ∷ jobs) same h = elim (Bool-cases (p j)) [
  | inl e ↦ rw (e, same j, h.0 e) (select-apart q p f jobs same h.1)
  | inr e ↦ rw (e, select-apart q p f jobs same h.1) refl
]

found_pair-eq :
    (o : Option Repository) (p : Option ImportJob) {r : Repository} {j : ImportJob}
    → found_pair o p ≡ ok (r, j)
    → (o ≡ some r) × (p ≡ some j)
unfolding found_pair
found_pair-eq (some r) (some j) e = (cc, cc)
found_pair-eq (some r) none e = cc
found_pair-eq none o e = cc

store_jobs-eq :
    (db : Library) (o : Result (List ImportJob)) {after : Library}
    → store_jobs db o ≡ ok after
    → o ≡ ok after.jobs
unfolding store_jobs
store_jobs-eq db (ok jobs) e = ap (λ (d : Library). ok d.jobs) (ok-injective e)
store_jobs-eq db (err f) e = cc

connect-jobs :
    (now id job_id user_id : ℕ) (source_key owner name : String) (db : Library) {after : Library}
    → connect now id job_id user_id source_key owner name db ≡ ok after
    → after.jobs ≡ db.jobs ++ (new_job now job_id id no_counts ∷ [])
unfolding connect
connect-jobs now id job_id user_id source_key owner name db e =
    elim (Bool-cases (any (is_connected user_id source_key) db.repositories)) [
      | inl f ↦ absurd (err≢ok (app_error "repository_exists" 409) (rw f at e))
      | inr f ↦ ap (λ (d : Library). d.jobs) (sym (ok-injective (rw f at e)))
    ]

-- A new repository has an id of its own.
abbrev pub HasNewId : {user_id : ℕ} {a b : Library} → ℕ → Step user_id a b → Type 0
HasNewId k (created now id job_id imports url e) = id ≢ k
HasNewId k _ = Unit

module _ (user_id : ℕ) (a : Library) (r : Repository)
    (unique : Unique (λ (x : Repository). x.id) a.repositories)
    (unique_jobs : Unique (λ (j : ImportJob). j.id) a.jobs) (stored : Memᴰ r a.repositories)
    (other : r.user_id ≢ user_id) where
  -- The repository that `owned` finds is another, and the job is one of its jobs.
  record IsApart (repository_id : ℕ) (pair : Repository × ImportJob) : Type 0 where
    asked : repository_id ≢ r.id
    repository : pair.0.id ≢ r.id
    job : All (λ j. j.id ≡ pair.1.id → (j.repository_id == r.id) ≡ false) a.jobs

  owned-IsApart :
      (repository_id : ℕ) (pair : Repository × ImportJob)
      → owned user_id repository_id a ≡ ok pair
      → IsApart repository_id pair
  unfolding owned owns_repository current_of
  owned-IsApart repository_id (row, job) e = record {
    asked = λ q. apart (named ∙ q);
    repository = apart;
    job =
        All-map
          (λ j only q. ==_ne j.repository_id r.id (λ k.
            apart (named ∙ sym of_it ∙ ap (λ (x : ImportJob). x.repository_id) (sym (only q)) ∙ k)))
          a.jobs (Unique-only (λ (j : ImportJob). j.id) a.jobs unique_jobs job_there);
  }
    where
      both :
          (scalar (select_where (owns_repository user_id repository_id) a.repositories) ≡ some row)
          × (scalar (select_where (current_of repository_id) a.jobs) ≡ some job)
      both = found_pair-eq _ _ e

      owns : owns_repository user_id repository_id row ≡ true
      owns = select_where-some _ a.repositories both.0

      named : row.id ≡ repository_id
      named = ground (arith, owns)

      mine : row.user_id ≡ user_id
      mine = ground (arith, owns)

      current : current_of repository_id job ≡ true
      current = select_where-some _ a.jobs both.1

      of_it : job.repository_id ≡ repository_id
      of_it = ground (arith, current)

      job_there : Memᴰ job a.jobs
      job_there = select_where-Memᴰ (λ (j : ImportJob). j.id) _ a.jobs both.1

      apart : row.id ≢ r.id
      apart q =
          let same : row ≡ r =
            All-Memᴰ (λ (x : Repository). x.id ≡ r.id → x ≡ r) a.repositories
              (select_where-Memᴰ (λ (x : Repository). x.id) _ a.repositories both.0)
              (Unique-only (λ (x : Repository). x.id) a.repositories unique stored) q in
          other (ap (λ (x : Repository). x.user_id) (sym same) ∙ mine)

  new_job-apart :
      (now id repository_id : ℕ) (jobs : List ImportJob)
      → repository_id ≢ r.id
      → jobs_of r.id (jobs ++ (new_job now id repository_id no_counts ∷ [])) ≡ jobs_of r.id jobs
  unfolding select_where new_job
  new_job-apart now id repository_id jobs ne =
      select_where-append (λ (j : ImportJob). j.repository_id == r.id) jobs _
      ∙ rw (==_ne repository_id r.id ne) (append-nil (jobs_of r.id jobs))

  jobs_untouched :
      {b : Library} (st : Step user_id a b)
      → HasNewId r.id st
      → jobs_of r.id b.jobs ≡ jobs_of r.id a.jobs
  unfolding create retry cancel remove retry_import cancel_import retired cancellable retire_values
      cancel_values drop_jobs
  jobs_untouched (created now id job_id imports url e) fresh =
      let (u, limited, e1) = >>=-eq-ok (imports.limiter user_id) _ e in
      let (v, within, e2) = >>=-eq-ok (quota now user_id a) _ e1 in
      let e3 =
        raise_if_passed (leb 20 (owned_count user_id a)) (app_error "repository_limit" 409) _ e2 in
      let (names, parsed, e4) = >>=-eq-ok (imports.parse_repository_url url) _ e3 in
      ap (jobs_of r.id) (
        connect-jobs now id job_id user_id (imports.source_key names.0 names.1) names.0 names.1 a
          e4)
      ∙ new_job-apart now job_id id a.jobs fresh
  jobs_untouched (retried now new_id imports repository_id e) fresh =
      let (u, limited, e1) = >>=-eq-ok (imports.limiter user_id) _ e in
      let (v, within, e2) = >>=-eq-ok (quota now user_id a) _ e1 in
      let (pair, found, e3) = >>=-eq-ok (owned user_id repository_id a) _ e2 in
      let k = owned-IsApart repository_id pair found in
      ap (jobs_of r.id) (committed-eq-ok _ _ _ (store_jobs-eq a _ e3))
      ∙ new_job-apart now new_id pair.0.id _ k.repository
      ∙ select-apart _ _ _ a.jobs (λ j. refl)
          (All-map (λ j n q. n (ground (arith, q))) a.jobs k.job)
  jobs_untouched (cancelled now repository_id e) fresh =
      let (pair, found, e1) = >>=-eq-ok (owned user_id repository_id a) _ e in
      let k = owned-IsApart repository_id pair found in
      ap (jobs_of r.id) (committed-eq-ok _ _ _ (store_jobs-eq a _ e1))
      ∙ select-apart _ _ _ a.jobs (λ j. refl)
          (All-map (λ j n q. n (ground (arith, q))) a.jobs k.job)
  jobs_untouched (removed repository_id e) fresh =
      let (pair, found, rest) = >>=-eq-ok (owned user_id repository_id a) _ e in
      let k = owned-IsApart repository_id pair found in
      ap (λ (d : Library). jobs_of r.id d.jobs) (sym (ok-injective rest))
      ∙ select-spared _ _ a.jobs (λ j f.
        rw
          (==_ne j.repository_id repository_id
            (λ q. k.asked (sym q ∙ (==_iff j.repository_id r.id).0 f)))
          refl)

-- Whatever one user creates, retries, cancels or removes, where ids are unique and a new repository
-- gets an id that the other's does not have: every other user's repositories stay as they are, and
-- so do the jobs of each of them.
pub others_untouched :
    {user_id : ℕ} {a b : Library} (r : Repository)
    → Unique (λ (x : Repository). x.id) a.repositories
    → Unique (λ (j : ImportJob). j.id) a.jobs
    → Memᴰ r a.repositories
    → r.user_id ≢ user_id
    → (st : Step user_id a b) → HasNewId r.id st
    → (select_where (is_users r.user_id) b.repositories
        ≡ select_where (is_users r.user_id) a.repositories)
      × (jobs_of r.id b.jobs ≡ jobs_of r.id a.jobs)
others_untouched {user_id} {a} r unique unique_jobs stored other st fresh = (
  others_rows r.user_id other st,
  jobs_untouched user_id a r unique unique_jobs stored other st fresh,
)
