-- ===== src/Jobs/Claiming.antt =====
-- What a successful `claim_job` of jobs/state.py does to the table.
use ai_powered_codebase_engi.Prelude.{
  ℕ, ◌+◌, ◌≡◌, ◌≢◌, refl, sym, ap, ◌∙◌, true, false, Option, none, some, List, ◌∷◌, arith, All,
  All-map, All-zip, equals, ==_iff,
}
use ai_powered_codebase_engi.Sql.{
  update_where, update_where-All₂, update_where-Unique, select_where, select_where-only, scalar,
}
use ai_powered_codebase_engi.Jobs.Model.{Job, Repository, Claim}
use ai_powered_codebase_engi.Jobs.Lease.{claimable, start_attempt, issue, claim_job}
use ai_powered_codebase_engi.Jobs.System.{System, IsFresh}
use ai_powered_codebase_engi.Jobs.Invariant.{IsSoundRow, IsSound, row_id, start-IsConsistent}

module _ {X : Type 0} where
  -- The token of a new claim is fresh, so of the old claims none matches the claimed row, and of
  -- the rows the new claim matches that one alone.
  claimed_row :
      (claims : List Claim) (c : Claim) (r : Job X) (now lease job_id : ℕ)
      → IsSoundRow claims r
      → claimable now job_id r ≡ true
      → All (λ d. d.lease_token ≢ lease) claims
      → c.attempt ≡ r.attempts + 1
      → IsSoundRow (c ∷ claims) (start_attempt now lease r)
  unfolding start_attempt
  claimed_row claims c r now lease job_id h e fresh n = record {
    consistent = start-IsConsistent r now lease job_id h.consistent e;
    tracked = (λ _. sym n, All-map (λ d k t. absurd (k (sym ((==_iff _ _).0 t)))) claims fresh);
  }

  other_row :
      (claims : List Claim) (c : Claim) (r : Job X)
      → IsSoundRow claims r
      → equals r.lease_token c.lease_token ≡ false
      → IsSoundRow (c ∷ claims) r
  other_row claims c r h e = record { consistent = h.consistent; tracked = (λ t. cc, h.tracked) }

  -- What a successful claim says: the row that was claimable, and the new table.
  pub record IsClaimed (now lease job_id : ℕ) (jobs : List (Job X)) (c : Claim)
      (after : List (Job X)) : Type 0 where
    pub job : Job X
    pub selected : scalar (select_where (claimable now job_id) jobs) ≡ some job
    pub same_id : c.job_id ≡ job.id
    pub same_token : c.lease_token ≡ lease
    pub next_attempt : c.attempt ≡ job.attempts + 1
    pub updated : after ≡ update_where (claimable now job_id) (start_attempt now lease) jobs

  issue-IsClaimed :
      (repositories : List Repository) (now lease job_id : ℕ) (jobs : List (Job X)) {c : Claim}
      {after : List (Job X)} (o : Option (Job X))
      → scalar (select_where (claimable now job_id) jobs) ≡ o
      → issue repositories lease jobs
          (update_where (claimable now job_id) (start_attempt now lease) jobs)
          o
        ≡ (some c, after)
      → IsClaimed now lease job_id jobs c after
  unfolding issue
  issue-IsClaimed repositories now lease job_id jobs none e h = cc
  issue-IsClaimed repositories now lease job_id jobs (some job) e h = record {
    job = job;
    selected = e;
    same_id = ground arith;
    same_token = ground arith;
    next_attempt = ground arith;
    updated = ground arith;
  }

  pub claim_job-IsClaimed :
      (repositories : List Repository) (now lease job_id : ℕ) (jobs : List (Job X)) {c : Claim}
      {after : List (Job X)}
      → claim_job repositories now lease job_id jobs ≡ (some c, after)
      → IsClaimed now lease job_id jobs c after
  unfolding claim_job
  claim_job-IsClaimed repositories now lease job_id jobs h =
      issue-IsClaimed repositories now lease job_id jobs _ refl h

  pub claimable-id : (now job_id : ℕ) (r : Job X) → claimable now job_id r ≡ true → r.id ≡ job_id
  unfolding claimable
  claimable-id now job_id r e = ground arith

  pub claim-IsSound :
      (s : System X) (now lease job_id : ℕ) {c : Claim} {after : List (Job X)}
      → IsFresh lease s
      → IsClaimed now lease job_id s.jobs c after
      → IsSound s
      → IsSound (record { jobs = after; claims = c ∷ s.claims })
  unfolding start_attempt
  claim-IsSound s now lease job_id {c} fresh k h = rw k.updated (record {
    unique = update_where-Unique row_id _ _ (λ r. refl) s.jobs h.unique;
    rows =
        update_where-All₂ (claimable now job_id) (start_attempt now lease)
          (λ r f e. claimed_row s.claims c r now lease job_id f.0.0 e fresh.1 (
            k.next_attempt
            ∙ ap (λ (q : Job X). q.attempts + 1) (sym (f.1 (claimable-id now job_id r e)))))
          (λ r f _. other_row s.claims c r f.0.0 (rw k.same_token f.0.1)) s.jobs facts;
  })
    where
      facts :
          All
            (λ r.
              (IsSoundRow s.claims r × (equals r.lease_token lease ≡ false))
              × (r.id ≡ job_id → r ≡ k.job))
            s.jobs
      facts = All-zip _ _ s.jobs (All-zip _ _ s.jobs h.rows fresh.0) (
          select_where-only row_id (claimable now job_id) job_id (claimable-id now job_id) s.jobs
            h.unique k.selected)
