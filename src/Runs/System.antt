-- ===== src/Runs/System.antt =====
-- All that changes a run while its conversation stands, and what every sequence of such steps keeps.
-- Conversations that are created or removed, and repositories that are removed, are no steps here.
use mathlib.Core.Bool.{false≢true}
use ai_powered_codebase_engi.Prelude.{
  ℕ, ◌≡◌, ◌≢◌, refl, sym, ap, String, false, Option, none, some, [], ◌∷◌, ◌++◌, arith, All, All-map,
  All-append, All-zip, map, ◌==◌, ==_refl, ==_ne, Bool-cases, subst, inl, inr,
}
use ai_powered_codebase_engi.Prelude.Result.{Result, ok, err, >>=-eq-ok, ok-injective, ◌>>=◌}
use ai_powered_codebase_engi.Sql.{append-Unique, select_where-nil}
use ai_powered_codebase_engi.Runs.Model.{Text, queued, AnswerRun, Db, Conversation, Answer}
use ai_powered_codebase_engi.Runs.Trace
use ai_powered_codebase_engi.Runs.Conversation.{append_pair}
use ai_powered_codebase_engi.Runs.Worker.{start_run, fail_run, publish_answer, write_preview}
use ai_powered_codebase_engi.Runs.Expiry.{expire_runs, mark_dispatched}
use ai_powered_codebase_engi.Runs.Service.{
  Services, RunRequest, violates, lost_race, replay, new_run, admit, insert_run, create_run, submit,
  cancel, Submission, replayed,
}
use ai_powered_codebase_engi.Runs.Conversation
use ai_powered_codebase_engi.Runs.Events.{run_id, events_of}
use ai_powered_codebase_engi.Runs.Invariant.{AreSound, kept-IsSoundRun}
use ai_powered_codebase_engi.Runs.Owed.{append_state-AreSound}
use ai_powered_codebase_engi.Runs.Moves.{
  start_run-AreSound, fail_run-AreSound, expire_runs-AreSound, cancel-AreSound,
  mark_dispatched-AreSound, write_preview-AreSound,
}
use ai_powered_codebase_engi.Runs.Publish.{
  publish_answer-AreSound, append_pair-IsPaired, pair-other,
}

-- A new UUID names no run, no event and no turn.
pub record IsNew (id : ℕ) (db : Db) : Type 0 where
  pub runs : All (λ r. run_id r ≢ id) db.runs
  pub events : All (λ e. (e.run_id == id) ≡ false) db.events
  pub messages : All (λ m. (m.turn_id == id) ≡ false) db.messages

-- A queued run that is new is sound once its first event is written.
inserted-AreSound :
    (now id : ℕ) (s : Services) (conversation_id : ℕ) (request : RunRequest) (source_id : ℕ)
    (db : Db)
    → IsNew id db
    → AreSound [] db
    → AreSound
        (id ∷ [])
        (record db { runs = db.runs ++ (new_run now id s conversation_id request source_id ∷ []) })
unfolding new_run
inserted-AreSound now id s conversation_id request source_id db new h = record {
  unique = append-Unique run_id db.runs _ new.runs h.unique;
  rows =
      All-append _ db.runs _
        (All-map
          (λ r k.
            kept-IsSoundRun db.events db.messages db.messages (id ∷ []) r k.0
              (rw (==_ne id r.id (λ q. k.1 (sym q))) refl) refl)
          db.runs (All-zip _ _ db.runs h.rows new.runs))
        (
          record {
            trace = rw (==_refl id) (
                subst (λ l. Trace.IsTrace queued (l ++ queued ∷ [])) (sym (ap (map _) no_events))
                  Trace.IsTrace.submitted);
            numbered = rw no_events tt;
            leased = refl;
            expiring = refl;
            ended = refl;
            cleared = λ _ q. absurd (false≢true q);
            revision = omega arith;
            published = ap (map _) (select_where-nil _ db.messages new.messages);
          },
          tt,
        );
}
  where
    no_events : events_of id db.events ≡ []
    no_events = unfold events_of in select_where-nil _ db.events new.events

pub replayed-eq :
    (m : Result AnswerRun) (db : Db) {out : Submission} → (m >>= replayed db) ≡ ok out → out.db ≡ db
replayed-eq (ok r) db e = ground arith
replayed-eq (err f) db e = cc

pub lost_race-eq :
    (o : Option AnswerRun) (fingerprint : ℕ) (db : Db) {out : Submission}
    → lost_race o fingerprint db ≡ ok out
    → out.db ≡ db
unfolding lost_race
lost_race-eq none fingerprint db e = cc
lost_race-eq (some run) fingerprint db e = replayed-eq (replay run fingerprint) db e

module _ (now id : ℕ) (s : Services) (conversation_id : ℕ) (request : RunRequest) (db : Db)
    (new : IsNew id db) (h : AreSound [] db) where
  abbrev inserted : ℕ → AnswerRun
  inserted = new_run now id s conversation_id request

  insert_run-AreSound :
      (source_id fingerprint : ℕ) {out : Submission}
      → insert_run fingerprint (inserted source_id) db ≡ ok out
      → AreSound [] out.db
  unfolding insert_run new_run
  insert_run-AreSound source_id fingerprint {out} e =
      elim (Bool-cases (violates (inserted source_id) db.runs)) [
        | inl v ↦ subst (AreSound []) (sym (lost_race-eq _ fingerprint db (rw v at e))) h
        | inr v ↦
            subst (λ (q : Submission). AreSound [] q.db) (ok-injective (rw v at e))
              (append_state-AreSound id [] _ refl
                (inserted-AreSound now id s conversation_id request source_id db new h))
      ]

  create_run-AreSound :
      (o : Option AnswerRun) {out : Submission}
      → create_run now id s conversation_id request o db ≡ ok out
      → AreSound [] out.db
  unfolding create_run
  create_run-AreSound (some existing) e = subst (AreSound []) (sym (replayed-eq _ db e)) h
  create_run-AreSound none e =
      let (source_id, admitted, rest) = >>=-eq-ok (admit s conversation_id request db) _ e in
      insert_run-AreSound source_id (s.fingerprint request.question request.mode) rest

  pub submit-AreSound :
      (user_id : ℕ) {out : Submission}
      → submit now id s user_id conversation_id request db ≡ ok out
      → AreSound [] out.db
  unfolding submit
  submit-AreSound user_id e =
      let (c, found, rest) = >>=-eq-ok (Conversation.owned user_id conversation_id db) _ e in
      create_run-AreSound _ rest

-- The synchronous route: `ask` of services/conversations.py appends the pair of an answer that no run
-- made.
ask-AreSound :
    (now user_id conversation_id : ℕ) (question : Text) (answer : Answer) (db : Db) {after : Db}
    → append_pair now user_id conversation_id question answer db ≡ ok after
    → IsNew answer.answer_id db
    → AreSound [] db
    → AreSound [] after
ask-AreSound now user_id conversation_id question answer db e new h =
    let k = append_pair-IsPaired now user_id conversation_id question answer db e in
    record {
      unique = rw k.runs h.unique;
      rows =
          rw (k.runs, k.events, k.messages)
            (All-map
              (λ r f. kept-IsSoundRun db.events db.messages _ [] r f.0 refl (
                pair-other db.messages conversation_id k.count question answer r.id
                  (λ q. f.1 (sym q))))
              db.runs (All-zip _ _ db.runs h.rows new.runs));
    }

-- The steps: users submit, cancel and ask; workers start, preview, fail and publish; the dispatcher
-- expires and marks. A worker may act with any token at any time.
pub data Step (db : Db) : Db → Type 0 where
  submitted :
      {out : Submission} (now id : ℕ) (s : Services) (user_id conversation_id : ℕ)
      (request : RunRequest)
      → IsNew id db
      → submit now id s user_id conversation_id request db ≡ ok out
      → Step db out.db
  cancelled :
      {after : Db} (now user_id id : ℕ) → cancel now user_id id db ≡ ok after → Step db after
  asked :
      {after : Db} (now user_id conversation_id : ℕ) (question : Text) (answer : Answer)
      → IsNew answer.answer_id db
      → append_pair now user_id conversation_id question answer db ≡ ok after
      → Step db after
  started : (now token id : ℕ) → Step db (start_run now token id db)
  previewed :
      {after : Db} (now id token : ℕ) (text : Text)
      → write_preview now id token text db ≡ ok after
      → Step db after
  failed :
      (now id token : ℕ) (code message : String) → Step db (fail_run now id token code message db)
  published :
      {after : Db} (now id token : ℕ) (c : Conversation) (question : Text) (answer : Answer)
      → publish_answer now id token c question answer db ≡ ok after
      → Step db after
  expired : (now : ℕ) → Step db (expire_runs now db)
  dispatched : (now id : ℕ) → Step db (mark_dispatched now id db)

pub data Reach (db : Db) : Db → Type 0 where
  here : Reach db db
  next : {a b : Db} → Reach db a → Step a b → Reach db b

pub Step-AreSound : {a b : Db} → Step a b → AreSound [] a → AreSound [] b
Step-AreSound {a} (submitted now id s user_id conversation_id request new e) h =
    submit-AreSound now id s conversation_id request a new h user_id e
Step-AreSound {a} (cancelled now user_id id e) h = cancel-AreSound now user_id id a e h
Step-AreSound {a} (asked now user_id conversation_id question answer new e) h =
    ask-AreSound now user_id conversation_id question answer a e new h
Step-AreSound {a} (started now token id) h = start_run-AreSound now token id a h
Step-AreSound {a} (previewed now id token text e) h = write_preview-AreSound now id token text a e h
Step-AreSound {a} (failed now id token code message) h =
    fail_run-AreSound now id token code message a h
Step-AreSound {a} (published now id token c question answer e) h =
    publish_answer-AreSound now id token c question answer a e h
Step-AreSound {a} (expired now) h = expire_runs-AreSound now a h
Step-AreSound {a} (dispatched now id) h = mark_dispatched-AreSound now id a h

-- From a sound database every sequence of steps of users, workers and the dispatcher leads to a
-- sound database: ids are unique, and for every run the events are numbered from 1 and tell a legal
-- history that ends in its status, it has a lease exactly while it runs and an end time exactly once
-- it ended, an ended run has no preview, at most 256 previews were written, and its turn has the two
-- messages, the user's first, exactly if it completed.
pub Reach-AreSound : {a b : Db} → AreSound [] a → Reach a b → AreSound [] b
Reach-AreSound h here = h
Reach-AreSound h (next r st) = Step-AreSound st (Reach-AreSound h r)
