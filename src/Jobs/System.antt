-- ===== src/Jobs/System.antt =====
-- A table of jobs together with the claims that workers hold, and the steps of all who write it:
-- workers, the dispatcher and the users. A worker may use its claim at any later time. `amended` is
-- `reserve` and `checkpoint` of a search preparation, `requeued` the retry that resumes one (of any
-- row here, whatever its status), `retire_latest` the retirement of an index or a search index,
-- `removed` the removal of a repository.
use mathlib.Core.List.{Memᴰ}
use ai_powered_codebase_engi.Prelude.{
  ℕ, String, ◌≡◌, ◌≢◌, Bool, false, some, List, [], ◌∷◌, ◌++◌, All, equals,
}
use ai_powered_codebase_engi.Prelude.Result.{ok}
use ai_powered_codebase_engi.Jobs.Model.{Job, Repository, Claim}
use ai_powered_codebase_engi.Jobs.Lease.{
  ImportFailure, claim_job, report_stage, publish, record_failure, record_abandon,
}
use ai_powered_codebase_engi.Jobs.Dispatcher.{sweep, mark_dispatched}
use ai_powered_codebase_engi.Jobs.Control.{
  cancel_import, retire_values, retired, retire_row, amend_columns, requeue, drop_jobs, new_job,
}
use ai_powered_codebase_engi.Sql.{update_where}

pub record System (X : Type 0) : Type 0 where
  pub jobs : List (Job X)
  pub claims : List Claim

module _ {X : Type 0} where
  -- A new UUID is the token of no row and of no claim.
  abbrev pub IsFresh : ℕ → System X → Type 0
  IsFresh lease s =
      All (λ r. equals r.lease_token lease ≡ false) s.jobs
      × All (λ c. c.lease_token ≢ lease) s.claims

  pub data Step (s : System X) : System X → Type 0 where
    claim :
        {c : Claim} {jobs : List (Job X)} (repositories : List Repository) (now lease job_id : ℕ)
        → IsFresh lease s
        → claim_job repositories now lease job_id s.jobs ≡ (some c, jobs)
        → Step s (record { jobs = jobs; claims = c ∷ s.claims })
    report :
        {c : Claim} (now : ℕ) (stage : String)
        → Memᴰ c s.claims
        → Step s (record s { jobs = (report_stage now c stage s.jobs).1 })
    publish_result :
        {c : Claim} (now finished : ℕ) (counts : X → X)
        → Memᴰ c s.claims
        → Step s (record s { jobs = (publish now finished c counts s.jobs).1 })
    fail :
        {c : Claim} (checked now finished : ℕ) (failure : ImportFailure)
        → Memᴰ c s.claims
        → Step s (record s { jobs = record_failure checked now finished c failure s.jobs })
    abandon :
        {c : Claim} (checked now : ℕ) (failure : ImportFailure)
        → Memᴰ c s.claims
        → Step s (record s { jobs = record_abandon checked now c failure s.jobs })
    sweep_lost : (now : ℕ) → Step s (record s { jobs = sweep now s.jobs })
    dispatch : (now job_id : ℕ) → Step s (record s { jobs = mark_dispatched now job_id s.jobs })
    cancel :
        {jobs : List (Job X)} (now job_id : ℕ)
        → cancel_import now job_id s.jobs ≡ ok jobs
        → Step s (record s { jobs = jobs })
    retire :
        (job_id : ℕ)
        → Step s (record s { jobs = update_where (retired job_id) retire_values s.jobs })
    retire_latest : (job_id : ℕ) → Step s (record s { jobs = retire_row job_id s.jobs })
    amended :
        {c : Claim} (now : ℕ) (allows : X → Bool) (amend : X → X)
        → Memᴰ c s.claims
        → Step s (record s { jobs = amend_columns now c allows amend s.jobs })
    requeued :
        (now job_id : ℕ) (amend : X → X)
        → Step s (record s { jobs = requeue now job_id amend s.jobs })
    removed : (repository_id : ℕ) → Step s (record s { jobs = drop_jobs repository_id s.jobs })
    create :
        (now id repository_id : ℕ) (columns : X)
        → All (λ r. r.id ≢ id) s.jobs
        → Step s (record s { jobs = s.jobs ++ (new_job now id repository_id columns ∷ []) })

  pub data Reach (s : System X) : System X → Type 0 where
    here : Reach s s
    next : {t u : System X} → Reach s t → Step t u → Reach s u

abbrev pub empty_system : (X : Type 0) → System X
empty_system X = record { jobs = []; claims = [] }
