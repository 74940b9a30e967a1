-- ===== src/Jobs/Progress.antt =====
-- `claim_job` of jobs/state.py and the selection of jobs/dispatcher.py, taken together.
use mathlib.Core.List.{Memᴰ}
use mathlib.Core.Bool.{false≢true}
use ai_powered_codebase_engi.Prelude.{
  ℕ, ◌+◌, ◌*◌, ◌≤◌, ◌≡◌, refl, sym, ap, ◌∙◌, Bool, true, false, ◌&&◌, some, List, arith, All,
  All-Memᴰ, All-map, All-zip, All-take, ==_refl, inl, inr, Option-cases, length, length-take, leb,
  ltb,
}
use ai_powered_codebase_engi.Sql.{
  update_where, update_where-All₂, select_where, select_where-All, select_where-none, scalar, find,
  order_by, order_by-All, select_where-keeps, Unique-only, select_where-some, select_where-Memᴰ,
}
use ai_powered_codebase_engi.Jobs.Model.{seconds, is_queued, Job, Repository, Claim}
use ai_powered_codebase_engi.Jobs.Lease.{
  ImportFailure, claimable, start_attempt, make_claim, issue, claim_job, lease_condition,
  fail_attempt,
}
use ai_powered_codebase_engi.Jobs.Dispatcher.{worker_lost, give_up, sweep, dispatchable, due}
use ai_powered_codebase_engi.Jobs.System.{System}
use ai_powered_codebase_engi.Jobs.Invariant.{IsConsistent, IsSound, IsSoundRow, Knows, row_id}
use ai_powered_codebase_engi.Jobs.Claiming.{claimable-id}

module _ {X : Type 0} where
  -- A statement that one row of the table meets selects some row.
  selects :
      (p : Job X → Bool) (jobs : List (Job X)) {r : Job X}
      → Memᴰ r jobs
      → p r ≡ true
      → (row : Job X) × (scalar (select_where p jobs) ≡ some row)
  selects p jobs {r} m e = elim (Option-cases (scalar (select_where p jobs))) [
    | inr found ↦ found
    | inl nothing ↦ absurd (
        false≢true
          (sym (All-Memᴰ (λ x. p x ≡ false) jobs m (select_where-none p jobs nothing)) ∙ e))
  ]

  waiting_claimable :
      (now : ℕ) (r : Job X)
      → IsConsistent r
      → is_queued r.status ≡ true
      → r.is_current ≡ true
      → r.available_at ≤ now
      → claimable now r.id r ≡ true
  unfolding claimable
  waiting_claimable now r h q c a = ground (arith, ==_refl r.id)

  -- A current job that waits is never stuck: in every sound system, once its time has come, a worker
  -- that asks for it gets it, as long as its repository is there. The claim has the new token and
  -- the next attempt's number.
  pub queued_claimable :
      (s : System X) (repositories : List Repository) (now lease : ℕ) (r : Job X)
      (repository : Repository)
      → IsSound s
      → Memᴰ r s.jobs
      → is_queued r.status ≡ true
      → r.is_current ≡ true
      → r.available_at ≤ now
      → find (λ (q : Repository). q.id) r.repository_id repositories ≡ some repository
      → claim_job repositories now lease r.id s.jobs ≡ (
        some (make_claim lease r repository),
        update_where (claimable now r.id) (start_attempt now lease) s.jobs,
      )
  unfolding claim_job issue
  queued_claimable s repositories now lease r repository h m q c a found =
      let able : claimable now r.id r ≡ true =
        waiting_claimable now r (All-Memᴰ (IsSoundRow s.claims) s.jobs m h.rows).consistent q c a in
      let (row, e) = selects (claimable now r.id) s.jobs m able in
      let same : row ≡ r =
        All-Memᴰ (λ x. x.id ≡ r.id → x ≡ r) s.jobs (select_where-Memᴰ row_id _ s.jobs e)
          (Unique-only row_id s.jobs h.unique m)
          (claimable-id now r.id row (select_where-some (claimable now r.id) s.jobs e)) in
      rw (e ∙ ap some same, found, issue) refl

  -- After the sweep no expired row has used up its attempts.
  swept :
      (now : ℕ) (jobs : List (Job X))
      → All IsConsistent jobs
      → All (λ r. IsConsistent r × (worker_lost now r ≡ false)) (sweep now jobs)
  unfolding sweep worker_lost
  swept now jobs h =
      update_where-All₂ (worker_lost now) (give_up now) (λ r c e. (ground arith, refl))
        (λ r c e. (c, e)) jobs h

  dispatched_claimable :
      (now : ℕ) (r : Job X)
      → IsConsistent r
      → worker_lost now r ≡ false
      → dispatchable now r ≡ true
      → claimable now r.id r ≡ true
  unfolding claimable dispatchable worker_lost
  dispatched_claimable now r h lost d = ground (arith, ==_refl r.id)

  -- A dispatch publishes at most fifty jobs, and none in vain: after the sweep every job that it
  -- selects passes the worker's own test at that moment.
  pub due-claimable :
      (s : System X) (now : ℕ)
      → IsSound s
      → All (λ r. claimable now r.id r ≡ true) (due now (sweep now s.jobs))
        × (length (due now (sweep now s.jobs)) ≤ 50)
  unfolding due
  due-claimable s now h = (
    All-take _ 50 _ (
        order_by-All _ _ _ (
          All-map (λ r f. dispatched_claimable now r f.0.0 f.0.1 f.1) _
            (All-zip _ _ _
              (select_where-keeps _ (dispatchable now) _
                (swept now s.jobs (All-map (λ r f. f.consistent) s.jobs h.rows)))
              (select_where-All (dispatchable now) (sweep now s.jobs))))),
    omega (
      arith,
      length-take 50 (
          order_by (λ (r : Job X). r.created_at)
            (select_where (dispatchable now) (sweep now s.jobs))),
    ),
  )

  -- What a failed attempt comes to, on every branch: the job can be claimed again at a time exactly
  -- if the failure is retryable, fewer than three attempts are used, and thirty seconds for each
  -- attempt have passed.
  pub claimable-fail_attempt :
      (claims : List Claim) (checked now finished later : ℕ) (c : Claim) (failure : ImportFailure)
      (r : Job X)
      → IsSoundRow claims r
      → Memᴰ c claims
      → lease_condition checked c r ≡ true
      → claimable later r.id (fail_attempt now finished c failure r)
        ≡ (failure.retryable && (ltb r.attempts 3 && leb (now + seconds (30 * r.attempts)) later))
  unfolding claimable fail_attempt lease_condition
  claimable-fail_attempt claims checked now finished later c failure r h m e =
      ground (arith, ==_refl r.id, All-Memᴰ (Knows r) claims m h.tracked)
