-- ===== src/Jobs/Tests.antt =====
-- A job that two workers take up one after the other, and the theorems at its states.
use mathlib.Core.List.{Memᴰ}
use ai_powered_codebase_engi.Prelude.{
  ℕ, ◌+◌, ◌*◌, ◌≡◌, refl, true, none, some, [], ◌∷◌, arith, All, leb, ltb, ◌&&◌, length, ◌≤◌,
}
use ai_powered_codebase_engi.Sql.{update_where, select_where, find}
use ai_powered_codebase_engi.Jobs.Model.{
  completed, seconds, ImportJob, ImportColumns, Repository, Claim,
}
use ai_powered_codebase_engi.Jobs.Lease.{
  lease_lost, ImportFailure, claimable, start_attempt, make_claim, claim_job, lease_condition,
  report_stage, publish, fail_attempt, record_failure, record_abandon,
}
use ai_powered_codebase_engi.Jobs.Dispatcher.{sweep, due}
use ai_powered_codebase_engi.Jobs.Control.{no_counts, new_job}
use ai_powered_codebase_engi.Jobs.System
use ai_powered_codebase_engi.Jobs.System.{System, Reach, empty_system, here, next}
use ai_powered_codebase_engi.Jobs.Invariant.{IsSound}
use ai_powered_codebase_engi.Jobs.Reachable.{Reach-IsSound}
use ai_powered_codebase_engi.Jobs.Fencing.{takeover_fences}
use ai_powered_codebase_engi.Jobs.Exclusive.{lease_exclusive}
use ai_powered_codebase_engi.Jobs.Progress.{queued_claimable, due-claimable, claimable-fail_attempt}
use ai_powered_codebase_engi.Jobs.Terminal.{HasEnded, ended_forever}

abbrev home : Repository
home = record {
  id = 7;
  user_id = 1;
  source_key = "octo/demo";
  owner = "octo";
  name = "demo";
  github_repository_id = none;
  default_branch = none;
  last_commit_sha = none;
  imported_at = none;
}

abbrev fresh_row : ImportJob
fresh_row = new_job 0 1 7 no_counts

abbrev waiting : System ImportColumns
waiting = record { jobs = fresh_row ∷ []; claims = [] }

waiting_reached : Reach (empty_system ImportColumns) waiting
waiting_reached = next here (System.create 0 1 7 no_counts tt)

empty-IsSound : IsSound (empty_system ImportColumns)
empty-IsSound = record { unique = tt; rows = tt }

waiting-IsSound : IsSound waiting
waiting-IsSound = Reach-IsSound empty-IsSound waiting_reached

abbrev claim_one : Claim
claim_one = make_claim 100 fresh_row home

abbrev running_row : ImportJob
running_row = start_attempt 5 100 fresh_row

first_claim : claim_job (home ∷ []) 5 100 1 (fresh_row ∷ []) ≡ (some claim_one, running_row ∷ [])
unfolding claim_job claimable start_attempt make_claim new_job select_where update_where find
first_claim = refl

abbrev running_system : System ImportColumns
running_system = record { jobs = running_row ∷ []; claims = claim_one ∷ [] }

running_reached : Reach (empty_system ImportColumns) running_system
unfolding new_job
running_reached =
    next waiting_reached (System.claim (home ∷ []) 5 100 1 ((refl, tt), tt) first_claim)

Reach-IsSound_example : IsSound running_system
Reach-IsSound_example = Reach-IsSound empty-IsSound running_reached

running-IsSound : IsSound running_system
running-IsSound = Reach-IsSound empty-IsSound running_reached

-- The first worker is silent for over three minutes, and another takes the job.
abbrev late : ℕ
late = seconds 200

abbrev claim_two : Claim
claim_two = make_claim 200 running_row home

abbrev retaken_row : ImportJob
retaken_row = start_attempt late 200 running_row

second_claim :
    claim_job (home ∷ []) late 200 1 (running_row ∷ []) ≡ (some claim_two, retaken_row ∷ [])
unfolding claim_job claimable start_attempt make_claim new_job select_where update_where find
second_claim = refl

abbrev timeout : ImportFailure
timeout = record {
  code = "import_timeout";
  message = "Repository import timed out.";
  retryable = true;
}

takeover_fences_example :
    (report_stage late claim_one "storing" (retaken_row ∷ []) ≡ (lease_lost, retaken_row ∷ []))
    × (publish late late claim_one (λ n. n) (retaken_row ∷ []) ≡ (lease_lost, retaken_row ∷ []))
    × (record_failure late late late claim_one timeout (retaken_row ∷ []) ≡ retaken_row ∷ [])
    × (record_abandon late late claim_one timeout (retaken_row ∷ []) ≡ retaken_row ∷ [])
unfolding start_attempt new_job make_claim
takeover_fences_example =
    takeover_fences running_system (home ∷ []) late 200 claim_one running-IsSound
      ((refl, tt), (λ e. omega (arith, e), tt)) (Memᴰ.head refl) second_claim late late late
      "storing" (λ n. n) timeout

lease_exclusive_example :
    claim_job (home ∷ []) (seconds 100) 300 1 (running_row ∷ []) ≡ (none, running_row ∷ [])
unfolding start_attempt new_job find
lease_exclusive_example =
    lease_exclusive waiting (home ∷ []) 5 100 1 waiting-IsSound ((refl, tt), tt) first_claim here
      running_row refl refl (home ∷ []) (seconds 100) 300 (omega arith)

queued_claimable_example :
    claim_job (home ∷ []) 5 100 1 (fresh_row ∷ [])
    ≡ (some claim_one, update_where (claimable 5 1) (start_attempt 5 100) (fresh_row ∷ []))
unfolding new_job
queued_claimable_example =
    queued_claimable waiting (home ∷ []) 5 100 fresh_row home waiting-IsSound (Memᴰ.head refl) refl
      refl (omega arith) (unfold find in refl)

due-claimable_example :
    All (λ r. claimable late r.id r ≡ true) (due late (sweep late (running_row ∷ [])))
    × (length (due late (sweep late (running_row ∷ []))) ≤ 50)
due-claimable_example = due-claimable running_system late running-IsSound

claimable-fail_attempt_example :
    claimable (seconds 60) 1 (fail_attempt 7 8 claim_one timeout running_row)
    ≡ (true && (ltb 1 3 && leb (7 + seconds (30 * 1)) (seconds 60)))
unfolding start_attempt new_job
claimable-fail_attempt_example =
    claimable-fail_attempt (claim_one ∷ []) 6 7 8 (seconds 60) claim_one timeout running_row
      running-IsSound.rows.0 (Memᴰ.head refl) (unfold lease_condition make_claim in refl)

-- The first worker publishes in time; the sweep of a later dispatch leaves its result alone.
abbrev count_files : ImportColumns → ImportColumns
count_files n = record { files_scanned = 3; files_stored = 2; files_skipped = 1 }

abbrev published : System ImportColumns
published = record running_system {
  jobs = (publish 6 7 claim_one count_files running_system.jobs).1;
}

abbrev swept_later : System ImportColumns
swept_later = record published { jobs = sweep late published.jobs }

abbrev done_row : ImportJob
done_row = record running_row {
  status = completed;
  stage = "completed";
  finished_at = some 7;
  lease_token = none;
  lease_expires_at = none;
  columns = count_files no_counts;
}

ended_forever_example : HasEnded 1 done_row swept_later.jobs
unfolding publish lease_condition start_attempt new_job make_claim select_where update_where find
ended_forever_example =
    ended_forever {s = published} 1 done_row (next here (System.sweep_lost late)) (tt, tt) refl refl
