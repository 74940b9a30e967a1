-- ===== src/Jobs/Invariant.antt =====
-- The invariant of the job rows of jobs/state.py, and the updates against it one by one.
use mathlib.Core.List.{Memᴰ}
use ai_powered_codebase_engi.Prelude.{
  ℕ, ◌≤◌, ◌<◌, ◌≡◌, Bool, true, String, not, Option, none, List, [], ◌∷◌, arith, All, All-Memᴰ,
  equals, is_some, Option-cases, inl, inr,
}
use ai_powered_codebase_engi.Sql.{
  update_where, update_where-All, update_where-Unique, select_where, scalar, Unique,
}
use ai_powered_codebase_engi.Jobs.Model.{is_queued, is_running, is_active, Job, Claim}
use ai_powered_codebase_engi.Jobs.Lease.{
  ImportFailure, claimable, start_attempt, lease_condition, fenced, set_stage, complete,
  fail_attempt, abandon,
}
use ai_powered_codebase_engi.Jobs.Dispatcher.{give_up}
use ai_powered_codebase_engi.Jobs.Control.{
  cancel_values, retire_values, amend_values, requeue_values, new_job,
}
use ai_powered_codebase_engi.Jobs.System.{System}

abbrev pub Matches : Option ℕ → ℕ → Claim → Type 0
Matches token attempts c = equals token c.lease_token ≡ true → attempts ≡ c.attempt

-- A row without a lease is known to every claim.
forgotten : (attempts : ℕ) (claims : List Claim) → All (Matches none attempts) claims
forgotten n [] = tt
forgotten n (c ∷ cs) = (λ h. cc, forgotten n cs)

module _ {X : Type 0} where
  -- A row holds a lease exactly while it runs, is finished exactly when no worker may take it up
  -- again, and has an attempt left as long as it waits.
  pub record IsConsistent (r : Job X) : Type 0 where
    pub bounded : r.attempts ≤ 3
    pub leased : is_some r.lease_token ≡ is_running r.status
    pub expiring : is_some r.lease_expires_at ≡ is_running r.status
    pub ended : is_some r.finished_at ≡ not (is_active r.status)
    pub waiting : is_queued r.status ≡ true → r.attempts < 3
    pub attempted : is_running r.status ≡ true → 0 < r.attempts

  -- A claim whose token a row still carries knows the number of the row's attempt.
  abbrev pub Knows : Job X → Claim → Type 0
  Knows r c = Matches r.lease_token r.attempts c

  pub record IsSoundRow (claims : List Claim) (r : Job X) : Type 0 where
    pub consistent : IsConsistent r
    pub tracked : All (Knows r) claims

  abbrev pub row_id : Job X → ℕ
  row_id r = r.id

  pub record IsSound (s : System X) : Type 0 where
    pub unique : Unique row_id s.jobs
    pub rows : All (IsSoundRow s.claims) s.jobs

  pub start-IsConsistent :
      (r : Job X) (now lease job_id : ℕ)
      → IsConsistent r
      → claimable now job_id r ≡ true
      → IsConsistent (start_attempt now lease r)
  unfolding claimable start_attempt
  start-IsConsistent r now lease job_id h e = ground arith

  -- A row's update keeps soundness where it keeps the row's token and attempt, or drops the token.
  module _ (claims : List Claim) (r : Job X) (h : IsSoundRow claims r) where
    pub stage-IsSoundRow : (stage : String) → IsSoundRow claims (set_stage stage r)
    unfolding set_stage
    stage-IsSoundRow stage = record {
      consistent = ground (arith, h.consistent);
      tracked = h.tracked;
    }

    pub complete-IsSoundRow : (now : ℕ) (counts : X → X) → IsSoundRow claims (complete now counts r)
    unfolding complete
    complete-IsSoundRow now counts = record {
      consistent = ground (arith, h.consistent);
      tracked = forgotten _ claims;
    }

    -- The retry test reads the claim's attempt, which is the row's.
    pub fail-IsSoundRow :
        (checked now finished : ℕ) (c : Claim) (failure : ImportFailure)
        → Memᴰ c claims
        → lease_condition checked c r ≡ true
        → IsSoundRow claims (fail_attempt now finished c failure r)
    unfolding fail_attempt lease_condition
    fail-IsSoundRow checked now finished c failure m e = record {
      consistent = ground (arith, h.consistent, All-Memᴰ (Knows r) claims m h.tracked);
      tracked = forgotten _ claims;
    }

    pub abandon-IsSoundRow :
        (now : ℕ) (failure : ImportFailure) → IsSoundRow claims (abandon now failure r)
    unfolding abandon
    abandon-IsSoundRow now failure = record {
      consistent = ground (arith, h.consistent);
      tracked = forgotten _ claims;
    }

    pub give_up-IsSoundRow : (now : ℕ) → IsSoundRow claims (give_up now r)
    unfolding give_up
    give_up-IsSoundRow now = record {
      consistent = ground (arith, h.consistent);
      tracked = forgotten _ claims;
    }

    pub cancel-IsSoundRow : (now : ℕ) → IsSoundRow claims (cancel_values now r)
    unfolding cancel_values
    cancel-IsSoundRow now = record {
      consistent = ground (arith, h.consistent);
      tracked = forgotten _ claims;
    }

    pub retire-IsSoundRow : IsSoundRow claims (retire_values r)
    unfolding retire_values
    retire-IsSoundRow = record { consistent = ground (arith, h.consistent); tracked = h.tracked }

    pub amend-IsSoundRow : (amend : X → X) → IsSoundRow claims (amend_values amend r)
    unfolding amend_values
    amend-IsSoundRow amend = record {
      consistent = ground (arith, h.consistent);
      tracked = h.tracked;
    }

  -- Whatever the row was, it can be claimed three times more.
  pub requeue-IsSoundRow :
      (claims : List Claim) (r : Job X) (now : ℕ) (amend : X → X)
      → IsSoundRow claims (requeue_values now amend r)
  unfolding requeue_values
  requeue-IsSoundRow claims r now amend = record {
    consistent = ground arith;
    tracked = forgotten _ claims;
  }

  pub new-IsSoundRow :
      (claims : List Claim) (now id repository_id : ℕ) (columns : X)
      → IsSoundRow claims (new_job now id repository_id columns)
  unfolding new_job
  new-IsSoundRow claims now id repository_id columns = record {
    consistent = ground arith;
    tracked = forgotten _ claims;
  }

  -- An update that keeps each row sound, and its id, keeps the system sound.
  pub update_where-IsSound :
      (s : System X) (p : Job X → Bool) (f : Job X → Job X)
      → ((r : Job X) → row_id (f r) ≡ r.id)
      → ((r : Job X) → IsSoundRow s.claims r → p r ≡ true → IsSoundRow s.claims (f r))
      → IsSound s
      → IsSound (record s { jobs = update_where p f s.jobs })
  update_where-IsSound s p f same keep h = record {
    unique = update_where-Unique row_id p f same s.jobs h.unique;
    rows = update_where-All p f keep s.jobs h.rows;
  }

  pub fenced-IsSound :
      (s : System X) (now : ℕ) (c : Claim) (f : Job X → Job X)
      → ((r : Job X) → row_id (f r) ≡ r.id)
      → ((r : Job X) → IsSoundRow s.claims r → IsSoundRow s.claims (f r))
      → IsSound s
      → IsSound (record s { jobs = (fenced now c f s.jobs).1 })
  unfolding fenced
  fenced-IsSound s now c f same keep h =
      elim (Option-cases (scalar (select_where (lease_condition now c) s.jobs))) [
        | inl e ↦ rw (e, fenced) h
        | inr (job, e) ↦ rw (e, fenced) (update_where-IsSound s _ f same (λ r k _. keep r k) h)
      ]
