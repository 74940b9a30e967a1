-- ===== src/Runs/Final.antt =====
-- Runs that have left the queue or ended, along the steps of jobs/answer_run.py, the dispatcher and
-- services/answer_runs.py. The event log only grows, and it carries what a run has done.
use mathlib.Core.List.{Memᴰ, append_assoc, append-nil, map-append}
use ai_powered_codebase_engi.Prelude.{
  ℕ, ◌≡◌, refl, ◌∙◌, sym, ap, String, Bool, true, false, not, ◌&&◌, Option, none, some, List, [],
  ◌∷◌, ◌++◌, All, All-map, All-Memᴰ, map, ◌==◌, ==_iff, Bool-cases, subst, inl, inr, any,
  any-append,
}
use ai_powered_codebase_engi.Prelude.Result.{ok, err, app_error, >>=-eq-ok, ok-injective}
use ai_powered_codebase_engi.Sql.{
  update_where, select_where, select_where-append, select_where_nothing, find,
}
use ai_powered_codebase_engi.Runs.Model.{
  Text, Status, is_queued, queued, running, completed, failed, cancelled, is_running, is_terminal,
  AnswerRun, Db, RunEvent, Conversation, Answer,
}
use ai_powered_codebase_engi.Runs.Trace.{IsTrace, IsTrace-terminal, IsTrace-started, statuses}
use ai_powered_codebase_engi.Runs.Worker.{
  changed, transition, startable, start_run, holds, fail_run, holds_lease, publish_pair,
  publish_answer, previewing, accepted, write_preview,
}
use ai_powered_codebase_engi.Runs.Expiry.{append_states, expire_where, expire_runs, mark_dispatched}
use ai_powered_codebase_engi.Runs.Service.{
  Services, RunRequest, Submission, violates, new_run, admit, insert_run, create_run, submit,
  cancel,
}
use ai_powered_codebase_engi.Runs.Service
use ai_powered_codebase_engi.Runs.Conversation
use ai_powered_codebase_engi.Runs.Events.{run_id, events_of, add_event, append_state}
use ai_powered_codebase_engi.Runs.Invariant.{IsSoundRun, AreSound}
use ai_powered_codebase_engi.Runs.Moves.{cancelled_run-eq, accepted-eq}
use ai_powered_codebase_engi.Runs.Publish.{append_pair-IsPaired}
use ai_powered_codebase_engi.Runs.System.{
  Step, Reach, here, next, Reach-AreSound, replayed-eq, lost_race-eq,
}
use ai_powered_codebase_engi.Runs.System

-- The event log of the one database begins with that of the other.
pub record Extends (a b : Db) : Type 0 where
  pub more : List RunEvent
  pub log : b.events ≡ a.events ++ more

pub Extends-same : (a b : Db) → b.events ≡ a.events → Extends a b
Extends-same a b e = record { more = []; log = e ∙ sym (append-nil a.events) }

Extends-trans : {a b c : Db} → Extends a b → Extends b c → Extends a c
Extends-trans {a} h k = record {
  more = h.more ++ k.more;
  log = k.log ∙ ap (λ l. l ++ k.more) h.log ∙ append_assoc a.events h.more k.more;
}

append_state-Extends : (id : ℕ) (db : Db) → Extends db (append_state id db)
unfolding append_state
append_state-Extends id db = go (find run_id id db.runs)
  where
    go : (o : Option AnswerRun) → Extends db (add_event o id db)
    go none = unfold add_event in Extends-same db db refl
    go (some r) = unfold add_event in record { more = _; log = refl }

append_states-Extends : (ids : List ℕ) (db : Db) → Extends db (append_states ids db)
unfolding append_states
append_states-Extends [] db = Extends-same db db refl
append_states-Extends (id ∷ ids) db =
    Extends-trans (append_state-Extends id db) (append_states-Extends ids (append_state id db))

changed-Extends :
    (id : ℕ) (o : Option AnswerRun) (db updated : Db)
    → updated.events ≡ db.events
    → Extends db (changed id o db updated)
unfolding changed
changed-Extends id none db updated e = Extends-same db db refl
changed-Extends id (some r) db updated e =
    Extends-trans (Extends-same db updated e) (append_state-Extends id updated)

publish-Extends :
    (now id : ℕ) (c : Conversation) (question : Text) (answer : Answer) (o : Option AnswerRun)
    (db updated : Db) {after : Db}
    → updated.events ≡ db.events
    → publish_pair now id c question answer o db updated ≡ ok after
    → Extends db after
unfolding publish_pair
publish-Extends now id c question answer none db updated u e =
    subst (Extends db) (ok-injective e) (Extends-same db db refl)
publish-Extends now id c question answer (some r) db updated u e =
    let (stored, paired, written) = >>=-eq-ok _ (λ stored. ok (append_state id stored)) e in
    let k = append_pair-IsPaired now c.user_id c.id question _ updated paired in
    subst (Extends db) (ok-injective written)
      (Extends-trans (Extends-same db stored (k.events ∙ u)) (append_state-Extends id stored))

expire_where-Extends :
    (p : AnswerRun → Bool) (f : AnswerRun → AnswerRun) (db : Db) → Extends db (expire_where p f db)
unfolding expire_where
expire_where-Extends p f db =
    Extends-trans (Extends-same db (record db { runs = update_where p f db.runs }) refl)
      (append_states-Extends (map run_id (select_where p db.runs)) _)

insert_run-Extends :
    (fingerprint : ℕ) (run : AnswerRun) (db : Db) {out : Submission}
    → insert_run fingerprint run db ≡ ok out
    → Extends db out.db
unfolding insert_run
insert_run-Extends fingerprint run db {out} e = elim (Bool-cases (violates run db.runs)) [
  | inl v ↦
      Extends-same db out.db (ap (λ (d : Db). d.events) (lost_race-eq _ fingerprint db (rw v at e)))
  | inr v ↦
      subst (λ (q : Submission). Extends db q.db) (ok-injective (rw v at e))
        (Extends-trans (Extends-same db (record db { runs = db.runs ++ (run ∷ []) }) refl)
          (append_state-Extends run.id _))
]

create_run-Extends :
    (now id : ℕ) (s : Services) (conversation_id : ℕ) (request : RunRequest) (o : Option AnswerRun)
    (db : Db) {out : Submission}
    → create_run now id s conversation_id request o db ≡ ok out
    → Extends db out.db
unfolding create_run
create_run-Extends now id s conversation_id request (some existing) db {out} e =
    Extends-same db out.db (ap (λ (d : Db). d.events) (replayed-eq _ db e))
create_run-Extends now id s conversation_id request none db e =
    let (source_id, admitted, rest) = >>=-eq-ok (admit s conversation_id request db) _ e in
    insert_run-Extends (s.fingerprint request.question request.mode)
      (new_run now id s conversation_id request source_id) db rest

submit-Extends :
    (now id : ℕ) (s : Services) (user_id conversation_id : ℕ) (request : RunRequest) (db : Db)
    {out : Submission}
    → submit now id s user_id conversation_id request db ≡ ok out
    → Extends db out.db
unfolding submit
submit-Extends now id s user_id conversation_id request db e =
    let (c, found, rest) = >>=-eq-ok (Conversation.owned user_id conversation_id db) _ e in
    create_run-Extends now id s conversation_id request _ db rest

Step-Extends : {a b : Db} → Step a b → Extends a b
unfolding start_run fail_run publish_answer write_preview expire_runs mark_dispatched transition
    cancel
Step-Extends {a} (System.submitted now id s user_id conversation_id request new e) =
    submit-Extends now id s user_id conversation_id request a e
Step-Extends {a} (System.cancelled now user_id id e) =
    let (run, found, rest) = >>=-eq-ok (Service.owned user_id id a) _ e in
    subst (Extends a) (sym (cancelled_run-eq user_id id _ a _ rest)) (changed-Extends id _ a _ refl)
Step-Extends {a} (System.asked now user_id conversation_id question answer new e) =
    Extends-same a _ (append_pair-IsPaired now user_id conversation_id question answer a e).events
Step-Extends {a} (System.started now token id) = changed-Extends id _ a _ refl
Step-Extends {a} (System.previewed now id token text e) =
    Extends-same a _ (ap (λ (d : Db). d.events) (accepted-eq _ _ e))
Step-Extends {a} (System.failed now id token code message) = changed-Extends id _ a _ refl
Step-Extends {a} (System.published now id token c question answer e) =
    publish-Extends now id c question answer _ a _ refl e
Step-Extends {a} (System.expired now) =
    Extends-trans (expire_where-Extends _ _ a) (expire_where-Extends _ _ _)
Step-Extends {a} (System.dispatched now id) = Extends-same a _ refl

pub Reach-Extends : {a b : Db} → Reach a b → Extends a b
Reach-Extends here = Extends-same _ _ refl
Reach-Extends (next r st) = Extends-trans (Reach-Extends r) (Step-Extends st)

pub statuses-append :
    (id : ℕ) (es more : List RunEvent)
    → statuses id (es ++ more) ≡ statuses id es ++ statuses id more
unfolding events_of
statuses-append id es more =
    ap (map (λ (e : RunEvent). e.status)) (select_where-append _ es more)
    ∙ map-append (λ (e : RunEvent). e.status) (events_of id es) (events_of id more)

-- What an event has said about a run it says for ever.
any-statuses :
    (p : Status → Bool) (id : ℕ) {a b : Db}
    → Extends a b
    → any p (statuses id a.events) ≡ true
    → any p (statuses id b.events) ≡ true
any-statuses p id {a} {b} x h =
    ap (λ l. any p (statuses id l)) x.log
    ∙ ap (any p) (statuses-append id a.events x.more)
    ∙ any-append p (statuses id a.events) (statuses id x.more) h

-- A status that runs do not lose, seen in one database, is seen in all later ones.
kept_status :
    (p q : Status → Bool)
    → ((s : Status) (l : List Status) → IsTrace s l → any p l ≡ q s)
    → {a b : Db} → AreSound [] a
    → Reach a b
    → (r : AnswerRun) → Memᴰ r a.runs
    → q r.status ≡ true
    → All (λ k. k.id ≡ r.id → q k.status ≡ true) b.runs
kept_status p q says {a} {b} h reach r m e =
    All-map
      (λ k sound same.
        sym (says k.status _ sound.trace)
        ∙ ap (λ i. any p (statuses i b.events)) same
        ∙ any-statuses p r.id (Reach-Extends reach) (
            says r.status _ (All-Memᴰ (IsSoundRun a.events a.messages []) a.runs m h.rows).trace
            ∙ e))
      b.runs (Reach-AreSound h reach).rows

-- A run that has completed, failed or been cancelled is still so in every state that is reached
-- later.
pub ended_stays :
    {a b : Db}
    → AreSound [] a
    → Reach a b
    → (r : AnswerRun) → Memᴰ r a.runs
    → is_terminal r.status ≡ true
    → All (λ k. k.id ≡ r.id → is_terminal k.status ≡ true) b.runs
ended_stays h reach r m e =
    kept_status is_terminal is_terminal (λ s l t. IsTrace-terminal t) h reach r m e

not_queued : Status → Bool
not_queued s = not (is_queued s)

pub terminal-not_queued : (s : Status) → is_terminal s ≡ true → is_queued s ≡ false
terminal-not_queued queued e = cc
terminal-not_queued running e = refl
terminal-not_queued completed e = refl
terminal-not_queued failed e = refl
terminal-not_queued cancelled e = refl

pub terminal-not_running : (s : Status) → is_terminal s ≡ true → is_running s ≡ false
terminal-not_running queued e = refl
terminal-not_running running e = cc
terminal-not_running completed e = refl
terminal-not_running failed e = refl
terminal-not_running cancelled e = refl

left-not_queued : (s : Status) → not_queued s ≡ true → is_queued s ≡ false
unfolding not_queued
left-not_queued queued e = cc
left-not_queued running e = refl
left-not_queued completed e = refl
left-not_queued failed e = refl
left-not_queued cancelled e = refl

-- No row of the run has the status that a statement asks for.
unselected :
    (p q : Status → Bool) (id : ℕ) (rest : AnswerRun → Bool)
    → ((s : Status) → q s ≡ true → p s ≡ false)
    → (rs : List AnswerRun) → All (λ k. k.id ≡ id → q k.status ≡ true) rs
    → All (λ k. (k.id == id && (p k.status && rest k)) ≡ false) rs
unselected p q id rest clash rs h =
    All-map
      (λ k f. elim (Bool-cases (k.id == id)) [
        | inl e ↦ rw (e, clash k.status (f ((==_iff k.id id).0 e))) refl
        | inr e ↦ rw e refl
      ])
      rs h

and_false : (x y : Bool) → x ≡ false → (x && y) ≡ false
and_false x y e = rw e refl

transition-nothing :
    (id : ℕ) (p : AnswerRun → Bool) (f : AnswerRun → AnswerRun) (db : Db)
    → All (λ k. p k ≡ false) db.runs
    → transition id p f db ≡ db
unfolding transition changed
transition-nothing id p f db h = rw (select_where_nothing p db.runs h) refl

-- Once a run has left the queue no delivery of its message starts it again: in every later state
-- the worker's first transaction changes nothing.
pub started_once :
    {a b : Db}
    → AreSound [] a
    → Reach a b
    → (r : AnswerRun) → Memᴰ r a.runs
    → is_queued r.status ≡ false
    → (now token : ℕ) → start_run now token r.id b ≡ b
unfolding start_run startable not_queued
started_once {a} {b} h reach r m e now token = transition-nothing r.id _ _ b (
    unselected is_queued not_queued r.id _ left-not_queued b.runs
      (kept_status not_queued not_queued (λ s l t. IsTrace-started t) h reach r m (ap not e)))

-- For a run that has ended, in every later state, whatever token a worker shows: starting and failing
-- change nothing, publishing stores no message, and a preview is refused.
pub ended_ignores_workers :
    {a b : Db}
    → AreSound [] a
    → Reach a b
    → (r : AnswerRun) → Memᴰ r a.runs
    → is_terminal r.status ≡ true
    → (now token : ℕ)
    → (start_run now token r.id b ≡ b)
      × ((code message : String) → fail_run now r.id token code message b ≡ b)
      × ((c : Conversation) (question : Text) (answer : Answer)
          → publish_answer now r.id token c question answer b ≡ ok b)
      × ((text : Text) → write_preview now r.id token text b ≡ err (app_error "answer_stopped" 409))
unfolding start_run startable fail_run holds publish_answer write_preview holds_lease previewing
    publish_pair accepted
ended_ignores_workers {a} {b} h reach r m e now token =
    let ended = ended_stays h reach r m e in
    (
      transition-nothing r.id _ _ b
          (unselected is_queued is_terminal r.id _ terminal-not_queued b.runs ended),
      λ code message.
          transition-nothing r.id _ _ b
            (unselected is_running is_terminal r.id _ terminal-not_running b.runs ended),
      λ c question answer.
          rw
            (select_where_nothing (holds_lease now r.id token) b.runs
              (unselected is_running is_terminal r.id _ terminal-not_running b.runs ended))
            refl,
      λ text.
          rw
            (select_where_nothing (previewing now r.id token) b.runs (
              All-map (λ k f. and_false (holds_lease now r.id token k) _ f) b.runs
                (unselected is_running is_terminal r.id _ terminal-not_running b.runs ended)))
            refl,
    )
