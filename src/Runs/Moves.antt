-- ===== src/Runs/Moves.antt =====
-- The transactions of jobs/answer_run.py, jobs/answer_dispatcher.py and services/answer_runs.py that
-- write no messages, against the invariant of a run.
use ai_powered_codebase_engi.Prelude.{
  ℕ, ◌≡◌, refl, String, Bool, true, Option, none, some, [], arith,
}
use ai_powered_codebase_engi.Prelude.Result.{ok, >>=-eq-ok}
use ai_powered_codebase_engi.Sql.{update_where, update_where-All, update_where-Unique}
use ai_powered_codebase_engi.Runs.Model.{Text, AnswerRun, Db}
use ai_powered_codebase_engi.Runs.Trace.{Allowed, Allowed-queued, Allowed-running, Allowed-active}
use ai_powered_codebase_engi.Runs.Worker.{
  startable, start_values, start_run, holds, fail_values, fail_run, changed, transition, accepted,
  write_preview, holds_lease,
}
use ai_powered_codebase_engi.Runs.Expiry.{
  lost, lost_values, overdue, overdue_values, expire_where, expire_runs, mark_dispatched,
}
use ai_powered_codebase_engi.Runs.Service.{cancellable, cancel_values, cancelled_run, owned, cancel}
use ai_powered_codebase_engi.Runs.Events.{run_id}
use ai_powered_codebase_engi.Runs.Invariant.{IsSoundRun, AreSound}
use ai_powered_codebase_engi.Runs.Owed.{expire_where-AreSound, transition-AreSound}

pub start_run-AreSound :
    (now token id : ℕ) (db : Db) → AreSound [] db → AreSound [] (start_run now token id db)
unfolding start_run
start_run-AreSound now token id db h =
    transition-AreSound (startable now id) (start_values now token) (λ r. refl)
      (λ r e. ground arith) (λ r e. refl) id db (λ r e. ground arith)
      (λ r k e. record {
        same_id = refl;
        allowed = Allowed-queued r.status (ground arith) Allowed.start;
        leased = refl;
        expiring = refl;
        ended = ground (arith, k.ended);
        revision = refl;
      })
      h

pub fail_run-AreSound :
    (now id token : ℕ) (code message : String) (db : Db)
    → AreSound [] db
    → AreSound [] (fail_run now id token code message db)
unfolding fail_run
fail_run-AreSound now id token code message db h =
    transition-AreSound (holds id token) (fail_values now code message) (λ r. refl)
      (λ r e. ground arith) (λ r e. refl) id db (λ r e. ground arith)
      (λ r k e. record {
        same_id = refl;
        allowed = Allowed-running r.status (ground arith) Allowed.break;
        leased = refl;
        expiring = refl;
        ended = refl;
        revision = refl;
      })
      h

pub expire_runs-AreSound : (now : ℕ) (db : Db) → AreSound [] db → AreSound [] (expire_runs now db)
unfolding expire_runs lost overdue
expire_runs-AreSound now db h =
    expire_where-AreSound (overdue now) (overdue_values now) (λ r. refl) (λ r e. ground arith)
      (λ r e. refl) (expire_where (lost now) (lost_values now) db)
      (λ r k e. record {
        same_id = refl;
        allowed = Allowed-queued r.status (ground arith) Allowed.expire;
        leased = ground (arith, k.leased);
        expiring = ground (arith, k.expiring);
        ended = refl;
        revision = refl;
      })
      (expire_where-AreSound (lost now) (lost_values now) (λ r. refl) (λ r e. ground arith)
        (λ r e. refl) db
        (λ r k e. record {
          same_id = refl;
          allowed = Allowed-running r.status (ground arith) Allowed.break;
          leased = refl;
          expiring = refl;
          ended = refl;
          revision = refl;
        })
        h)

-- The row change of `cancel`
cancel_transition-AreSound :
    (now id : ℕ) (db : Db)
    → AreSound [] db
    → AreSound [] (transition id (cancellable id) (cancel_values now) db)
unfolding cancellable cancel_values
cancel_transition-AreSound now id db h =
    transition-AreSound (cancellable id) (cancel_values now) (λ r. refl) (λ r e. ground arith)
      (λ r e. refl) id db (λ r e. ground arith)
      (λ r k e. record {
        same_id = refl;
        allowed = Allowed-active r.status (ground arith);
        leased = refl;
        expiring = refl;
        ended = refl;
        revision = refl;
      })
      h

pub cancelled_run-eq :
    (user_id id : ℕ) (o : Option AnswerRun) (db updated : Db) {after : Db}
    → cancelled_run user_id id o updated ≡ ok after
    → after ≡ changed id o db updated
unfolding cancelled_run changed
cancelled_run-eq user_id id none db updated e = cc
cancelled_run-eq user_id id (some r) db updated e = cc

pub cancel-AreSound :
    (now user_id id : ℕ) (db : Db) {after : Db}
    → cancel now user_id id db ≡ ok after
    → AreSound [] db
    → AreSound [] after
unfolding cancel transition
cancel-AreSound now user_id id db {after} e h =
    let (run, found, rest) = >>=-eq-ok (owned user_id id db) _ e in
    rw (cancelled_run-eq user_id id _ db _ rest) (cancel_transition-AreSound now id db h)

-- An update that keeps all that the invariant reads, but the preview.
update-keeps :
    (p : AnswerRun → Bool) (f : AnswerRun → AnswerRun) (db : Db)
    → ((r : AnswerRun) → run_id (f r) ≡ r.id)
    → ((r : AnswerRun)
        → IsSoundRun db.events db.messages [] r
        → p r ≡ true
        → IsSoundRun db.events db.messages [] (f r))
    → AreSound [] db
    → AreSound [] (record db { runs = update_where p f db.runs })
update-keeps p f db same keep h = record {
  unique = update_where-Unique run_id p f same db.runs h.unique;
  rows = update_where-All p f keep db.runs h.rows;
}

pub mark_dispatched-AreSound :
    (now id : ℕ) (db : Db) → AreSound [] db → AreSound [] (mark_dispatched now id db)
unfolding mark_dispatched
mark_dispatched-AreSound now id db h =
    update-keeps _ _ db (λ r. refl)
      (λ r k e. record {
        trace = k.trace;
        numbered = k.numbered;
        leased = k.leased;
        expiring = k.expiring;
        ended = k.ended;
        cleared = k.cleared;
        revision = k.revision;
        published = k.published;
      })
      h

pub accepted-eq :
    (o : Option AnswerRun) (updated : Db) {after : Db}
    → accepted o updated ≡ ok after
    → after ≡ updated
unfolding accepted
accepted-eq none updated e = cc
accepted-eq (some r) updated e = cc

pub write_preview-AreSound :
    (now id token : ℕ) (text : Text) (db : Db) {after : Db}
    → write_preview now id token text db ≡ ok after
    → AreSound [] db
    → AreSound [] after
unfolding write_preview holds_lease
write_preview-AreSound now id token text db e h = rw (accepted-eq _ _ e) (
    update-keeps _ _ db (λ r. refl)
      (λ r k t. record {
        trace = k.trace;
        numbered = k.numbered;
        leased = k.leased;
        expiring = k.expiring;
        ended = k.ended;
        cleared = λ _ q. ground arith;
        revision = ground (arith, k.revision);
        published = k.published;
      })
      h)
