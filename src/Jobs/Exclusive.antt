-- ===== src/Jobs/Exclusive.antt =====
-- The lease of jobs/state.py along the steps of all who write the job rows.
use mathlib.Core.List.{Memᴰ}
use ai_powered_codebase_engi.Prelude.{
  ℕ, ◌+◌, ◌≤◌, ◌≡◌, ◌≢◌, refl, sym, ap, ◌∙◌, Bool, true, false, none, some, List, ◌∷◌, arith, All,
  All-Memᴰ, All-map, All-append, equals, ◌==◌, ==_iff, Bool-cases, Option-cases, inl, inr,
}
use ai_powered_codebase_engi.Sql.{
  update_where, update_where-All, update_where-All₂, select_where, select_where-keeps,
  select_where_nothing, scalar, find, find-Memᴰ, find-key, Unique-only,
}
use ai_powered_codebase_engi.Jobs.Model.{is_running, seconds, Job, Repository, Claim}
use ai_powered_codebase_engi.Jobs.Lease.{
  claimable, start_attempt, issue, claim_job, lease_condition, fenced, set_stage, report_stage,
  complete, publish, fail_attempt, record_failure, abandon, record_abandon,
}
use ai_powered_codebase_engi.Jobs.Dispatcher.{give_up, sweep, mark_dispatched}
use ai_powered_codebase_engi.Jobs.Control.{
  committed-eq-ok, cancel_values, cancel_import, retire_values, retire_row, amend_values,
  amend_columns, requeue_values, requeue, drop_jobs, new_job,
}
use ai_powered_codebase_engi.Jobs.System
use ai_powered_codebase_engi.Jobs.System.{System, IsFresh, Step, Reach, here, next}
use ai_powered_codebase_engi.Jobs.Invariant.{IsSound, row_id}
use ai_powered_codebase_engi.Jobs.Claiming.{IsClaimed, claim_job-IsClaimed}
use ai_powered_codebase_engi.Jobs.Reachable.{Reach-IsSound}

module _ {X : Type 0} (lease expiry : ℕ) where
  -- A row that carries the token runs, until the claim's expiry.
  abbrev IsHeldRow : Job X → Type 0
  IsHeldRow r =
      equals r.lease_token lease ≡ true
      → (is_running r.status ≡ true) × (r.lease_expires_at ≡ some expiry)

  record IsHeld (s : System X) : Type 0 where
    rows : All IsHeldRow s.jobs
    claim : Claim
    claimed : Memᴰ claim s.claims
    token : claim.lease_token ≡ lease

  update_where-IsHeld :
      (s : System X) (p : Job X → Bool) (f : Job X → Job X)
      → ((r : Job X) → IsHeldRow r → IsHeldRow (f r))
      → IsHeld s
      → IsHeld (record s { jobs = update_where p f s.jobs })
  update_where-IsHeld s p f keep h = record {
    rows = update_where-All p f (λ r k _. keep r k) s.jobs h.rows;
    claim = h.claim;
    claimed = h.claimed;
    token = h.token;
  }

  fenced-IsHeld :
      (s : System X) (now : ℕ) (c : Claim) (f : Job X → Job X)
      → ((r : Job X) → IsHeldRow r → IsHeldRow (f r))
      → IsHeld s
      → IsHeld (record s { jobs = (fenced now c f s.jobs).1 })
  unfolding fenced
  fenced-IsHeld s now c f keep h =
      elim (Option-cases (scalar (select_where (lease_condition now c) s.jobs))) [
        | inl e ↦ rw (e, fenced) h
        | inr (job, e) ↦ rw (e, fenced) (update_where-IsHeld s _ f keep h)
      ]

  -- A later claim has a token of its own.
  claim-IsHeld :
      (s : System X) (now other job_id : ℕ) {c : Claim} {jobs : List (Job X)}
      → IsFresh other s
      → IsClaimed now other job_id s.jobs c jobs
      → IsHeld s
      → IsHeld (record { jobs = jobs; claims = c ∷ s.claims })
  unfolding start_attempt
  claim-IsHeld s now other job_id fresh k h = record {
    rows = rw k.updated (
        update_where-All (claimable now job_id) (start_attempt now other)
          (λ r i _ e. absurd (differ (sym ((==_iff other lease).0 e)))) s.jobs h.rows);
    claim = h.claim;
    claimed = Memᴰ.tail h.claimed;
    token = h.token;
  }
    where
      differ : lease ≢ other
      differ e =
          All-Memᴰ (λ (x : Claim). x.lease_token ≢ other) s.claims h.claimed fresh.1 (h.token ∙ e)

  Step-IsHeld : {s t : System X} → Step s t → IsHeld s → IsHeld t
  unfolding report_stage publish record_failure record_abandon sweep mark_dispatched cancel_import
      retire_row amend_columns requeue drop_jobs set_stage complete fail_attempt abandon give_up
      cancel_values retire_values amend_values requeue_values new_job
  Step-IsHeld {s} (System.claim repositories now other job_id fresh e) h =
      claim-IsHeld s now other job_id fresh
        (claim_job-IsClaimed repositories now other job_id s.jobs e) h
  Step-IsHeld {s} (System.report {c} now stage m) h = fenced-IsHeld s now c _ (λ r k. k) h
  Step-IsHeld {s} (System.publish_result {c} now finished counts m) h =
      fenced-IsHeld s now c _ (λ r k e. cc) h
  Step-IsHeld {s} (System.fail {c} checked now finished failure m) h =
      update_where-IsHeld s _ _ (λ r k e. cc) h
  Step-IsHeld {s} (System.abandon {c} checked now failure m) h =
      update_where-IsHeld s _ _ (λ r k e. cc) h
  Step-IsHeld {s} (System.sweep_lost now) h = update_where-IsHeld s _ _ (λ r k e. cc) h
  Step-IsHeld {s} (System.dispatch now job_id) h = update_where-IsHeld s _ _ (λ r k. k) h
  Step-IsHeld {s} (System.cancel now job_id e) h =
      rw (committed-eq-ok _ _ _ e) (update_where-IsHeld s _ _ (λ r k q. cc) h)
  Step-IsHeld {s} (System.retire job_id) h = update_where-IsHeld s _ _ (λ r k. k) h
  Step-IsHeld {s} (System.retire_latest job_id) h = update_where-IsHeld s _ _ (λ r k. k) h
  Step-IsHeld {s} (System.amended {c} now allows amend m) h = update_where-IsHeld s _ _ (λ r k. k) h
  Step-IsHeld {s} (System.requeued now job_id amend) h = update_where-IsHeld s _ _ (λ r k e. cc) h
  Step-IsHeld {s} (System.removed repository_id) h = record {
    rows = select_where-keeps IsHeldRow _ s.jobs h.rows;
    claim = h.claim;
    claimed = h.claimed;
    token = h.token;
  }
  Step-IsHeld {s} (System.create now id repository_id columns fresh) h = record {
    rows = All-append IsHeldRow s.jobs _ h.rows ((λ e. cc), tt);
    claim = h.claim;
    claimed = h.claimed;
    token = h.token;
  }

  Reach-IsHeld : {s t : System X} → Reach s t → IsHeld s → IsHeld t
  Reach-IsHeld here h = h
  Reach-IsHeld (next r st) h = Step-IsHeld st (Reach-IsHeld r h)

module _ {X : Type 0} where
  -- The claim itself.
  starts-IsHeld :
      (s : System X) (now lease job_id : ℕ) {d : Claim} {jobs : List (Job X)}
      → IsFresh lease s
      → IsClaimed now lease job_id s.jobs d jobs
      → IsHeld lease (now + seconds 180) (record { jobs = jobs; claims = d ∷ s.claims })
  unfolding start_attempt
  starts-IsHeld s now lease job_id {d} fresh k = record {
    rows = rw k.updated (
        update_where-All₂ (claimable now job_id) (start_attempt now lease) (λ r e _ q. (refl, refl))
          (λ r e _ q. absurd (clash (sym e ∙ q))) s.jobs fresh.0);
    claim = d;
    claimed = Memᴰ.head refl;
    token = k.same_token;
  }
    where
      clash : ¬ (false ≡ true)
      clash e = cc

  -- A row that is held is not claimable before the claim expires.
  busy :
      (r : Job X) (expiry later job_id : ℕ)
      → (is_running r.status ≡ true) × (r.lease_expires_at ≡ some expiry)
      → later ≤ expiry
      → claimable later job_id r ≡ false
  unfolding claimable
  busy r expiry later job_id h soon = ground (arith, h.0, h.1, soon)

  -- After a claim of a job with a new token, in every state that is reached from there, as long as
  -- the job's row still carries that token, no claim of the job that is made within the 180 seconds
  -- of the lease succeeds or changes anything.
  pub lease_exclusive :
      (s : System X) (repositories : List Repository) (now lease job_id : ℕ) {d : Claim}
      {jobs : List (Job X)} {u : System X}
      → IsSound s
      → IsFresh lease s
      → claim_job repositories now lease job_id s.jobs ≡ (some d, jobs)
      → Reach (record { jobs = jobs; claims = d ∷ s.claims }) u
      → (r : Job X) → find row_id job_id u.jobs ≡ some r
      → equals r.lease_token lease ≡ true
      → (known : List Repository) (later other : ℕ) → later ≤ now + seconds 180
      → claim_job known later other job_id u.jobs ≡ (none, u.jobs)
  unfolding claim_job issue
  lease_exclusive s repositories now lease job_id {d} {jobs} {u} sound fresh e reach r found carries
        known later other soon =
      rw (select_where_nothing (claimable later job_id) u.jobs nobody, issue) refl
    where
      claimed : IsClaimed now lease job_id s.jobs d jobs
      claimed = claim_job-IsClaimed repositories now lease job_id s.jobs e

      held : IsHeld lease (now + seconds 180) u
      held =
          Reach-IsHeld lease (now + seconds 180) reach
            (starts-IsHeld s now lease job_id fresh claimed)

      whole : IsSound u
      whole =
          Reach-IsSound
            (Reach-IsSound sound (next here (System.claim repositories now lease job_id fresh e)))
            reach

      held_row : (is_running r.status ≡ true) × (r.lease_expires_at ≡ some (now + seconds 180))
      held_row =
          All-Memᴰ (IsHeldRow lease (now + seconds 180)) u.jobs
            (find-Memᴰ row_id job_id u.jobs found) held.rows carries

      refused : (q : Job X) → (q.id ≡ r.id → q ≡ r) → claimable later job_id q ≡ false
      refused q only = elim (Bool-cases (q.id == job_id)) [
        | inr apart ↦ unfold claimable in rw apart refl
        | inl match ↦
            ap (claimable later job_id)
              (only ((==_iff _ _).0 match ∙ sym (find-key row_id job_id u.jobs found)))
            ∙ busy r (now + seconds 180) later job_id held_row soon
      ]

      nobody : All (λ q. claimable later job_id q ≡ false) u.jobs
      nobody =
          All-map refused u.jobs
            (Unique-only row_id u.jobs whole.unique (find-Memᴰ row_id job_id u.jobs found))
