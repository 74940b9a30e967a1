-- ===== src/Jobs/Reachable.antt =====
-- The steps of jobs/state.py, jobs/dispatcher.py and the cancellations against the invariant of a
-- row.
use ai_powered_codebase_engi.Prelude.{
  ℕ, ◌≡◌, ◌≢◌, refl, List, [], ◌∷◌, ◌++◌, arith, All, All-append,
}
use ai_powered_codebase_engi.Prelude.Result.{ok}
use ai_powered_codebase_engi.Sql.{append-Unique, select_where-Unique, select_where-keeps}
use ai_powered_codebase_engi.Jobs.Model.{Job}
use ai_powered_codebase_engi.Jobs.Lease.{report_stage, publish, record_failure, record_abandon}
use ai_powered_codebase_engi.Jobs.Dispatcher.{sweep, mark_dispatched}
use ai_powered_codebase_engi.Jobs.Control.{
  committed-eq-ok, cancel_import, retire_values, retire_row, amend_values, amend_columns,
  requeue_values, requeue, drop_jobs, new_job,
}
use ai_powered_codebase_engi.Jobs.System
use ai_powered_codebase_engi.Jobs.System.{System, Step, Reach, here, next}
use ai_powered_codebase_engi.Jobs.Invariant.{
  IsSound, row_id, stage-IsSoundRow, complete-IsSoundRow, fail-IsSoundRow, abandon-IsSoundRow,
  give_up-IsSoundRow, cancel-IsSoundRow, retire-IsSoundRow, amend-IsSoundRow, requeue-IsSoundRow,
  new-IsSoundRow, update_where-IsSound, fenced-IsSound,
}
use ai_powered_codebase_engi.Jobs.Claiming.{claim_job-IsClaimed, claim-IsSound}

module _ {X : Type 0} where
  dispatch-IsSound :
      (s : System X) (now job_id : ℕ)
      → IsSound s
      → IsSound (record s { jobs = mark_dispatched now job_id s.jobs })
  unfolding mark_dispatched
  dispatch-IsSound s now job_id h =
      update_where-IsSound s _ _ (λ r. refl)
        (λ r k e. record { consistent = ground (arith, k.consistent); tracked = k.tracked }) h

  cancel-IsSound :
      (s : System X) (now job_id : ℕ) {jobs : List (Job X)}
      → cancel_import now job_id s.jobs ≡ ok jobs
      → IsSound s
      → IsSound (record s { jobs = jobs })
  unfolding cancel_import
  cancel-IsSound s now job_id e h =
      rw (committed-eq-ok _ _ _ e)
        (update_where-IsSound s _ _ (λ r. refl) (λ r k _. cancel-IsSoundRow s.claims r k now) h)

  create-IsSound :
      (s : System X) (now id repository_id : ℕ) (columns : X)
      → All (λ r. r.id ≢ id) s.jobs
      → IsSound s
      → IsSound (record s { jobs = s.jobs ++ (new_job now id repository_id columns ∷ []) })
  create-IsSound s now id repository_id columns fresh h = record {
    unique = append-Unique row_id s.jobs _ (unfold new_job in fresh) h.unique;
    rows = All-append _ s.jobs _ h.rows (new-IsSoundRow s.claims now id repository_id columns, tt);
  }

  -- Every step keeps the system sound.
  pub Step-IsSound : {s t : System X} → Step s t → IsSound s → IsSound t
  unfolding report_stage publish record_failure record_abandon sweep retire_values
  Step-IsSound {s} (System.claim repositories now lease job_id fresh e) h =
      claim-IsSound s now lease job_id fresh
        (claim_job-IsClaimed repositories now lease job_id s.jobs e) h
  Step-IsSound {s} (System.report {c} now stage m) h =
      fenced-IsSound s now c _ (λ r. refl) (λ r k. stage-IsSoundRow s.claims r k stage) h
  Step-IsSound {s} (System.publish_result {c} now finished counts m) h =
      fenced-IsSound s now c _ (λ r. refl) (λ r k. complete-IsSoundRow s.claims r k finished counts)
        h
  Step-IsSound {s} (System.fail {c} checked now finished failure m) h =
      update_where-IsSound s _ _ (λ r. refl)
        (λ r k e. fail-IsSoundRow s.claims r k checked now finished c failure m e) h
  Step-IsSound {s} (System.abandon {c} checked now failure m) h =
      update_where-IsSound s _ _ (λ r. refl) (λ r k e. abandon-IsSoundRow s.claims r k now failure)
        h
  Step-IsSound {s} (System.sweep_lost now) h =
      update_where-IsSound s _ _ (λ r. refl) (λ r k e. give_up-IsSoundRow s.claims r k now) h
  Step-IsSound {s} (System.dispatch now job_id) h = dispatch-IsSound s now job_id h
  Step-IsSound {s} (System.cancel now job_id e) h = cancel-IsSound s now job_id e h
  Step-IsSound {s} (System.retire job_id) h =
      update_where-IsSound s _ _ (λ r. refl) (λ r k e. retire-IsSoundRow s.claims r k) h
  Step-IsSound {s} (System.retire_latest job_id) h =
      unfold retire_row in
      update_where-IsSound s _ _ (λ r. refl) (λ r k e. retire-IsSoundRow s.claims r k) h
  Step-IsSound {s} (System.amended {c} now allows amend m) h =
      unfold amend_columns in
      unfold amend_values in
      update_where-IsSound s _ _ (λ r. refl) (λ r k e. amend-IsSoundRow s.claims r k amend) h
  Step-IsSound {s} (System.requeued now job_id amend) h =
      unfold requeue in
      unfold requeue_values in
      update_where-IsSound s _ _ (λ r. refl) (λ r k e. requeue-IsSoundRow s.claims r now amend) h
  Step-IsSound {s} (System.removed repository_id) h =
      unfold drop_jobs in
      record {
        unique = select_where-Unique row_id _ s.jobs h.unique;
        rows = select_where-keeps _ _ s.jobs h.rows;
      }
  Step-IsSound {s} (System.create now id repository_id columns fresh) h =
      create-IsSound s now id repository_id columns fresh h

  -- From a sound state of the table every sequence of steps of workers, dispatcher and users,
  -- retries and removals of repositories included, leads to a sound state: ids are unique; a row has a lease token and an expiry exactly while it runs,
  -- at most three attempts and an attempt left while it is queued, and an end time exactly when it
  -- has ended; and where a row carries the token of a claim, the claim has the row's number of
  -- attempts.
  pub Reach-IsSound : {s t : System X} → IsSound s → Reach s t → IsSound t
  Reach-IsSound h here = h
  Reach-IsSound h (next r st) = Step-IsSound st (Reach-IsSound h r)
