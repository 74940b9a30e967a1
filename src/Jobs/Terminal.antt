-- ===== src/Jobs/Terminal.antt =====
-- Jobs that have ended, along the steps of the system of jobs/state.py and jobs/dispatcher.py.
use ai_powered_codebase_engi.Prelude.{
  ℕ, ◌≡◌, ◌≢◌, refl, sym, ==_ne, ◌==◌, ◌∙◌, Bool, true, false, some, List, ◌++◌, arith, Bool-cases,
  Option-cases, inl, inr,
}
use ai_powered_codebase_engi.Sql.{
  update_where, find, find-append, find-key, find-select_where, find-update_where, select_where,
  scalar,
}
use ai_powered_codebase_engi.Jobs.Model.{is_active, Job, Claim}
use ai_powered_codebase_engi.Jobs.Lease.{
  claimable, start_attempt, lease_condition, fenced, report_stage, publish, record_failure,
  record_abandon,
}
use ai_powered_codebase_engi.Jobs.Dispatcher.{worker_lost, sweep, mark_dispatched}
use ai_powered_codebase_engi.Jobs.Control.{
  committed-eq-ok, cancel_import, retire_values, retired, retire_row, amendable, amend_values,
  amend_columns, requeue_values, requeue, drop_jobs,
}
use ai_powered_codebase_engi.Jobs.System
use ai_powered_codebase_engi.Jobs.System.{System, Step, Reach, here, next}
use ai_powered_codebase_engi.Jobs.Invariant.{row_id}
use ai_powered_codebase_engi.Jobs.Claiming.{IsClaimed, claim_job-IsClaimed}

module _ {X : Type 0} where
  -- The same outcome; `is_current` and `last_dispatched_at` alone may differ.
  pub record SameOutcome (r q : Job X) : Type 0 where
    pub status : q.status ≡ r.status
    pub attempts : q.attempts ≡ r.attempts
    pub error_code : q.error_code ≡ r.error_code
    pub finished_at : q.finished_at ≡ r.finished_at
    pub columns : q.columns ≡ r.columns
    pub repository_id : q.repository_id ≡ r.repository_id

  -- The row with an id has ended, with the outcome of `r`.
  pub record HasEnded (i : ℕ) (r : Job X) (jobs : List (Job X)) : Type 0 where
    pub row : Job X
    pub found : find row_id i jobs ≡ some row
    pub ended : is_active row.status ≡ false
    pub same : SameOutcome r row

  -- An update that leaves ended rows their outcome.
  update_where-HasEnded :
      (i : ℕ) (r : Job X) (p : Job X → Bool) (f : Job X → Job X)
      → ((q : Job X) → row_id (f q) ≡ q.id)
      → ((q : Job X) → is_active q.status ≡ false → p q ≡ true → SameOutcome q (f q))
      → (jobs : List (Job X)) → HasEnded i r jobs
      → HasEnded i r (update_where p f jobs)
  update_where-HasEnded i r p f id keep jobs h = elim (Bool-cases (p h.row)) [
    | inr e ↦ record {
      row = h.row;
      found = find-update_where row_id p f id i jobs ∙ rw (h.found, e) refl;
      ended = h.ended;
      same = h.same;
    }
    | inl e ↦
        let k = keep h.row h.ended e in
        record {
          row = f h.row;
          found = find-update_where row_id p f id i jobs ∙ rw (h.found, e) refl;
          ended = rw k.status h.ended;
          same = record {
            status = k.status ∙ h.same.status;
            attempts = k.attempts ∙ h.same.attempts;
            error_code = k.error_code ∙ h.same.error_code;
            finished_at = k.finished_at ∙ h.same.finished_at;
            columns = k.columns ∙ h.same.columns;
            repository_id = k.repository_id ∙ h.same.repository_id;
          };
        }
  ]

  fenced-HasEnded :
      (i : ℕ) (r : Job X) (now : ℕ) (c : Claim) (f : Job X → Job X)
      → ((q : Job X) → row_id (f q) ≡ q.id)
      → (jobs : List (Job X)) → HasEnded i r jobs
      → HasEnded i r (fenced now c f jobs).1
  unfolding fenced lease_condition
  fenced-HasEnded i r now c f id jobs h =
      elim (Option-cases (scalar (select_where (lease_condition now c) jobs))) [
        | inl e ↦ rw (e, fenced) h
        | inr (job, e) ↦
            rw (e, fenced) (update_where-HasEnded i r _ f id (λ q t k. ground arith) jobs h)
      ]

  append-HasEnded :
      (i : ℕ) (r : Job X) (jobs more : List (Job X))
      → HasEnded i r jobs
      → HasEnded i r (jobs ++ more)
  append-HasEnded i r jobs more h = record {
    row = h.row;
    found = find-append row_id i jobs more h.found;
    ended = h.ended;
    same = h.same;
  }

  -- A step that neither retries the job itself nor removes its repository.
  abbrev Leaves : {s t : System X} → ℕ → Job X → Step s t → Type 0
  Leaves i r (System.requeued now job_id amend) = job_id ≢ i
  Leaves i r (System.removed repository_id) = repository_id ≢ r.repository_id
  Leaves i r _ = Unit

  abbrev pub AllLeave : {s t : System X} → ℕ → Job X → Reach s t → Type 0
  AllLeave i r here = Unit
  AllLeave i r (next p st) = AllLeave i r p × Leaves i r st

  other_row-HasEnded :
      (i : ℕ) (r : Job X) (job_id : ℕ) (f : Job X → Job X) (jobs : List (Job X))
      → job_id ≢ i
      → ((q : Job X) → row_id (f q) ≡ q.id)
      → HasEnded i r jobs
      → HasEnded i r (update_where (λ q. q.id == job_id) f jobs)
  other_row-HasEnded i r job_id f jobs n id h =
      let key : h.row.id ≡ i = find-key row_id i jobs h.found in
      let apart : (h.row.id == job_id) ≡ false = ==_ne _ _ (λ e. n (sym e ∙ key)) in
      record {
        row = h.row;
        found = find-update_where row_id _ f id i jobs ∙ rw (h.found, apart) refl;
        ended = h.ended;
        same = h.same;
      }

  Step-HasEnded :
      {s t : System X} (i : ℕ) (r : Job X) (st : Step s t)
      → Leaves i r st
      → HasEnded i r s.jobs
      → HasEnded i r t.jobs
  unfolding report_stage publish record_failure record_abandon sweep lease_condition worker_lost
      claimable start_attempt retired retire_values mark_dispatched cancel_import
  Step-HasEnded {s} i r (System.claim repositories now lease job_id fresh e) leaves h =
      rw (IsClaimed.updated (claim_job-IsClaimed repositories now lease job_id s.jobs e))
        (update_where-HasEnded i r _ _ (λ q. refl) (λ q t k. ground arith) s.jobs h)
  Step-HasEnded {s} i r (System.report {c} now stage m) leaves h =
      fenced-HasEnded i r now c _ (λ q. refl) s.jobs h
  Step-HasEnded {s} i r (System.publish_result {c} now finished counts m) leaves h =
      fenced-HasEnded i r now c _ (λ q. refl) s.jobs h
  Step-HasEnded {s} i r (System.fail {c} checked now finished failure m) leaves h =
      update_where-HasEnded i r _ _ (λ q. refl) (λ q t k. ground arith) s.jobs h
  Step-HasEnded {s} i r (System.abandon {c} checked now failure m) leaves h =
      update_where-HasEnded i r _ _ (λ q. refl) (λ q t k. ground arith) s.jobs h
  Step-HasEnded {s} i r (System.sweep_lost now) leaves h =
      update_where-HasEnded i r _ _ (λ q. refl) (λ q t k. ground arith) s.jobs h
  Step-HasEnded {s} i r (System.dispatch now job_id) leaves h =
      update_where-HasEnded i r _ _ (λ q. refl)
        (λ q t k. record {
          status = refl;
          attempts = refl;
          error_code = refl;
          finished_at = refl;
          columns = refl;
          repository_id = refl;
        })
        s.jobs h
  Step-HasEnded {s} i r (System.cancel now job_id e) leaves h =
      rw (committed-eq-ok _ _ _ e)
        (update_where-HasEnded i r _ _ (λ q. refl) (λ q t k. ground arith) s.jobs h)
  Step-HasEnded {s} i r (System.retire job_id) leaves h =
      update_where-HasEnded i r _ _ (λ q. refl)
        (λ q t k. record {
          status = refl;
          attempts = refl;
          error_code = refl;
          finished_at = refl;
          columns = refl;
          repository_id = refl;
        })
        s.jobs h
  Step-HasEnded {s} i r (System.retire_latest job_id) leaves h =
      unfold retire_row in
      update_where-HasEnded i r _ _ (λ q. refl)
        (λ q t k. record {
          status = refl;
          attempts = refl;
          error_code = refl;
          finished_at = refl;
          columns = refl;
          repository_id = refl;
        })
        s.jobs h
  Step-HasEnded {s} i r (System.amended {c} now allows amend m) leaves h =
      unfold amend_columns in
      unfold amendable in
      unfold amend_values in
      update_where-HasEnded i r _ _ (λ q. refl) (λ q t k. ground arith) s.jobs h
  Step-HasEnded {s} i r (System.requeued now job_id amend) leaves h =
      unfold requeue in
      unfold requeue_values in other_row-HasEnded i r job_id _ s.jobs leaves (λ q. refl) h
  Step-HasEnded {s} i r (System.removed repository_id) leaves h =
      unfold drop_jobs in
      record {
        row = h.row;
        found =
            find-select_where row_id _ i s.jobs h.found
              (rw (==_ne _ _ (λ e. leaves (sym e ∙ h.same.repository_id))) refl);
        ended = h.ended;
        same = h.same;
      }
  Step-HasEnded {s} i r (System.create now id repository_id columns fresh) leaves h =
      append-HasEnded i r s.jobs _ h

  -- A completed, failed or cancelled job is still there and keeps its status, attempts, error code,
  -- end time and counts along every sequence of steps, late workers included, in which no retry
  -- requeues that very job and its repository is not removed.
  pub ended_forever :
      {s t : System X} (i : ℕ) (r : Job X) (p : Reach s t)
      → AllLeave i r p
      → find row_id i s.jobs ≡ some r
      → is_active r.status ≡ false
      → HasEnded i r t.jobs
  ended_forever i r here leaves e t = record {
    row = r;
    found = e;
    ended = t;
    same = record {
      status = refl;
      attempts = refl;
      error_code = refl;
      finished_at = refl;
      columns = refl;
      repository_id = refl;
    };
  }
  ended_forever i r (next p st) leaves e t =
      Step-HasEnded i r st leaves.1 (ended_forever i r p leaves.0 e t)
