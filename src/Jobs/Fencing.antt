-- ===== src/Jobs/Fencing.antt =====
-- The lease of jobs/state.py: what a worker can do once another worker has its job.
use mathlib.Core.List.{Memᴰ}
use mathlib.Core.Bool.{false≢true}
use ai_powered_codebase_engi.Prelude.{
  ℕ, ◌≡◌, ◌≢◌, refl, sym, ap, ◌∙◌, String, false, some, List, arith, All, All-Memᴰ, All-map, ==_iff,
  inl, inr, Bool-cases, ◌==◌,
}
use ai_powered_codebase_engi.Sql.{
  update_where-All₂, update_where-none, select_where-only, select_where_nothing, select_where-some,
}
use ai_powered_codebase_engi.Jobs.Model.{Job, Repository, Claim}
use ai_powered_codebase_engi.Jobs.Lease.{
  lease_lost, ImportFailure, claimable, start_attempt, claim_job, lease_condition, fenced,
  report_stage, publish, record_failure, record_abandon,
}
use ai_powered_codebase_engi.Jobs.System.{System, IsFresh}
use ai_powered_codebase_engi.Jobs.Invariant.{IsSound, row_id}
use ai_powered_codebase_engi.Jobs.Claiming.{IsClaimed, claim_job-IsClaimed, claimable-id}

module _ {X : Type 0} where
  -- A claim that holds no row changes no row.
  fenced-eq-lost :
      (now : ℕ) (c : Claim) (f : Job X → Job X) (jobs : List (Job X))
      → All (λ r. lease_condition now c r ≡ false) jobs
      → fenced now c f jobs ≡ (lease_lost, jobs)
  unfolding fenced
  fenced-eq-lost now c f jobs h = rw (select_where_nothing _ jobs h, fenced)

  module _ (s : System X) (now lease job_id : ℕ) {d : Claim} {jobs : List (Job X)} (h : IsSound s)
      (k : IsClaimed now lease job_id s.jobs d jobs) where
    -- The row with the claimed id is the claimed one, and it carries the new token.
    pub claimed_rows : All (λ r. r.id ≡ job_id → r ≡ start_attempt now lease k.job) jobs
    unfolding start_attempt
    claimed_rows = rw k.updated (
        update_where-All₂ (claimable now job_id) (start_attempt now lease)
          (λ r only e _. ap (start_attempt now lease) (only (claimable-id now job_id r e)))
          (λ r only e q. absurd (clash r (only q) e)) s.jobs
          (select_where-only row_id (claimable now job_id) job_id (claimable-id now job_id) s.jobs
            h.unique k.selected))
      where
        clash : (r : Job X) → r ≡ k.job → claimable now job_id r ≡ false → ⊥
        clash r same e = false≢true (
            sym e
            ∙ ap (claimable now job_id) same
            ∙ select_where-some (claimable now job_id) s.jobs k.selected)

    -- An older claim of that job no longer meets its condition at any row.
    stale_rows :
        (c : Claim) (later : ℕ)
        → c.job_id ≡ job_id
        → c.lease_token ≢ lease
        → All (λ r. lease_condition later c r ≡ false) jobs
    unfolding lease_condition start_attempt
    stale_rows c later same old = All-map (λ r only. stale r only) jobs claimed_rows
      where
        stale :
            (r : Job X)
            → (r.id ≡ job_id → r ≡ start_attempt now lease k.job)
            → lease_condition later c r ≡ false
        stale r only = elim (Bool-cases (r.id == c.job_id)) [
          | inr no_match ↦ rw no_match
          | inl match ↦
              let e : r.lease_token ≡ some lease =
                ap (λ (q : Job X). q.lease_token) (only ((==_iff _ _).0 match ∙ same)) in
              ground arith
        ]

  -- Once another worker has claimed a job, an older claim of that job is powerless: at any later
  -- time its progress report and its result end in `LeaseLost`, and with its failures they leave
  -- the table as it is.
  pub takeover_fences :
      (s : System X) (repositories : List Repository) (now lease : ℕ) (c : Claim) {d : Claim}
      {jobs : List (Job X)}
      → IsSound s
      → IsFresh lease s
      → Memᴰ c s.claims
      → claim_job repositories now lease c.job_id s.jobs ≡ (some d, jobs)
      → (later finished ended : ℕ) (stage : String) (counts : X → X) (failure : ImportFailure)
      → (report_stage later c stage jobs ≡ (lease_lost, jobs))
        × (publish later finished c counts jobs ≡ (lease_lost, jobs))
        × (record_failure later finished ended c failure jobs ≡ jobs)
        × (record_abandon later finished c failure jobs ≡ jobs)
  unfolding report_stage publish record_failure record_abandon
  takeover_fences s repositories now lease c {d} {jobs} h fresh m e later finished ended stage
        counts failure =
      (
        fenced-eq-lost later c _ jobs stale,
        fenced-eq-lost later c _ jobs stale,
        update_where-none _ _ jobs stale,
        update_where-none _ _ jobs stale,
      )
    where
      stale : All (λ r. lease_condition later c r ≡ false) jobs
      stale =
          stale_rows s now lease c.job_id h
            (claim_job-IsClaimed repositories now lease c.job_id s.jobs e) c later refl
            (All-Memᴰ (λ x. x.lease_token ≢ lease) s.claims m fresh.1)
