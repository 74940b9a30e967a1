-- ===== src/Search/Budget.antt =====
-- The token budget of jobs/prepare_search.py and services/search_preparation.py.
use ai_powered_codebase_engi.Prelude.{
  ℕ, String, not, ◌+◌, ◌&&◌, ◌≤◌, ◌≡◌, sym, Bool, true, false, Option, none, some, List, arith,
  length, All, All-append, Bool-cases, inl, inr, subst,
}
use ai_powered_codebase_engi.Prelude.Result.{
  Result, ok, >>=-eq-ok, ok-injective, app_error, raise_if_passed,
}
use ai_powered_codebase_engi.Sql.{update_where, update_where-All, select_where, scalar}
use ai_powered_codebase_engi.Jobs.Model.{Claim}
use ai_powered_codebase_engi.Jobs.Lease.{Outcome, committed, lease_lost, lease_condition, fenced}
use ai_powered_codebase_engi.Jobs.Control.{
  retire_values, retire_row, requeue_values, requeue, new_job,
}
use ai_powered_codebase_engi.Search.Model.{
  Mode, SearchIndex, latest, active, reservable, add_reserved, reserved, reserve,
}
use ai_powered_codebase_engi.Search.Preparation.{
  add_usage, checkpoint, build_limits, is_hybrid, latest_active, has_profile, Settings, profile_of,
  resume, same_job, new_columns, raise_budget, enqueue, enqueue_unless, start,
}

-- No job has reserved more tokens than its budget.
abbrev pub IsWithin : List SearchIndex → Type 0
IsWithin jobs = All (λ r. r.columns.reserved_tokens ≤ r.columns.token_budget) jobs

pub reserved-eq :
    (o : Option SearchIndex) (updated : List SearchIndex) {jobs : List SearchIndex}
    → reserved o updated ≡ ok jobs
    → jobs ≡ updated
unfolding reserved
reserved-eq none updated e = cc
reserved-eq (some r) updated e = cc

reserve-IsWithin :
    (now : ℕ) (claim : Claim) (tokens : ℕ) (jobs : List SearchIndex) {after : List SearchIndex}
    → reserve now claim tokens jobs ≡ ok after
    → IsWithin jobs
    → IsWithin after
unfolding reserve reservable add_reserved
reserve-IsWithin now claim tokens jobs e h = subst IsWithin (sym (reserved-eq _ _ e)) (
    update_where-All (reservable now claim tokens) (add_reserved tokens) (λ r k f. fits r f) jobs h)
  where
    fits :
        (r : SearchIndex)
        → reservable now claim tokens r ≡ true
        → r.columns.reserved_tokens + tokens ≤ r.columns.token_budget
    fits r f = ground arith

checkpoint-IsWithin {ℓ} :
    {D : Type ℓ} (now : ℕ) (claim : Claim) (documents : List D) (usage : ℕ)
    (jobs : List SearchIndex) (stored : List D)
    → IsWithin jobs
    → IsWithin (checkpoint now claim documents usage jobs stored).1
unfolding checkpoint fenced add_usage
checkpoint-IsWithin now claim documents usage jobs stored h =
    go (scalar (select_where (lease_condition now claim) jobs))
  where
    go :
        (o : Option SearchIndex)
        → IsWithin
            (elim o as (λ x. Outcome × List SearchIndex) [
              | none ↦ (lease_lost, jobs)
              | some r ↦ (
                committed,
                update_where (lease_condition now claim) (add_usage (length documents) usage) jobs,
              )
            ]).1
    go none = h
    go (some r) = update_where-All (lease_condition now claim) _ (λ r k f. k) jobs h

enqueue-IsWithin :
    (now id : ℕ) (s : Settings) (repository_id source_id : ℕ) (commit_sha : String) (mode : Mode)
    (o : Option SearchIndex) (jobs : List SearchIndex)
    → IsWithin jobs
    → IsWithin (enqueue now id s repository_id source_id commit_sha mode o jobs)
unfolding enqueue new_job new_columns retire_row retire_values resume requeue requeue_values
    raise_budget
enqueue-IsWithin now id s repository_id source_id commit_sha mode none jobs h =
    All-append _ jobs _ h (omega arith, tt)
enqueue-IsWithin now id s repository_id source_id commit_sha mode (some last) jobs h =
    elim (Bool-cases (same_job source_id mode (profile_of s mode) last)) [
      | inl e ↦ rw e (update_where-All _ _ (λ r k f. omega arith) jobs h)
      | inr e ↦ rw e (
          All-append _ (retire_row last.id jobs) _ (update_where-All _ _ (λ r k f. k) jobs h)
            (omega arith, tt))
    ]

enqueue_unless-IsWithin :
    (ready : Bool) (limited : Result (Unit {0})) (jobs enqueued : List SearchIndex)
    {out : Bool × List SearchIndex}
    → IsWithin jobs
    → IsWithin enqueued
    → enqueue_unless ready limited jobs enqueued ≡ ok out
    → IsWithin out.1
unfolding enqueue_unless
enqueue_unless-IsWithin true limited jobs enqueued h k e =
    subst (λ (q : Bool × List SearchIndex). IsWithin q.1) (ok-injective e) h
enqueue_unless-IsWithin false limited jobs enqueued h k e =
    let (u, passed, done) = >>=-eq-ok limited _ e in
    subst (λ (q : Bool × List SearchIndex). IsWithin q.1) (ok-injective done) k

start-IsWithin :
    (now id : ℕ) (s : Settings) (user_id repository_id : ℕ) (mode : Mode) (jobs : List SearchIndex)
    {out : Bool × List SearchIndex}
    → start now id s user_id repository_id mode jobs ≡ ok out
    → IsWithin jobs
    → IsWithin out.1
unfolding start
start-IsWithin now id s user_id repository_id mode jobs e h =
    let (source, found, rest) = >>=-eq-ok s.source _ e in
    enqueue_unless-IsWithin
      (has_profile (profile_of s mode) (active repository_id source.0 mode jobs))
      (s.limiter (build_limits user_id mode)) jobs
      (enqueue now id s repository_id source.0 source.1 mode (latest repository_id jobs) jobs) h
      (enqueue-IsWithin now id s repository_id source.0 source.1 mode (latest repository_id jobs)
        jobs h)
      (raise_if_passed (latest_active (latest repository_id jobs)) (app_error "search_active" 409) _
        (raise_if_passed (is_hybrid mode && not s.embeddings_enabled)
          (app_error "embeddings_disabled" 409) _ rest))

-- What the search worker and the users do to reservations.
pub data Step (jobs : List SearchIndex) : List SearchIndex → Type 0 where
  reserved_more :
      {after : List SearchIndex} (now : ℕ) (claim : Claim) (tokens : ℕ)
      → reserve now claim tokens jobs ≡ ok after
      → Step jobs after
  checkpointed :
      (now : ℕ) (claim : Claim) (documents : List ℕ) (usage : ℕ) (stored : List ℕ)
      → Step jobs (checkpoint now claim documents usage jobs stored).1
  started :
      {out : Bool × List SearchIndex} (now id : ℕ) (s : Settings) (user_id repository_id : ℕ)
      (mode : Mode)
      → start now id s user_id repository_id mode jobs ≡ ok out
      → Step jobs out.1

pub data Reach (jobs : List SearchIndex) : List SearchIndex → Type 0 where
  here : Reach jobs jobs
  next : {a b : List SearchIndex} → Reach jobs a → Step a b → Reach jobs b

-- Where no job has reserved more tokens than its budget, none has after any sequence of reservations,
-- checkpoints and starts, retries included, whatever claims and settings they come with.
pub budget_kept : {a b : List SearchIndex} → IsWithin a → Reach a b → IsWithin b
budget_kept h here = h
budget_kept h (next {a} r (reserved_more now claim tokens e)) =
    reserve-IsWithin now claim tokens a e (budget_kept h r)
budget_kept h (next {a} r (checkpointed now claim documents usage stored)) =
    checkpoint-IsWithin now claim documents usage a stored (budget_kept h r)
budget_kept h (next {a} r (started now id s user_id repository_id mode e)) =
    start-IsWithin now id s user_id repository_id mode a e (budget_kept h r)
