-- ===== src/Runs/Publish.antt =====
-- The transactions that write messages, and the insertion of a new run.
use mathlib.Core.Bool.{false≢true}
use mathlib.Core.List.{map-append, append-nil}
use ai_powered_codebase_engi.Prelude.{
  ℕ, ◌+◌, ◌≡◌, ◌≢◌, refl, ◌∙◌, sym, ap, true, false, Option, none, some, List, [], ◌∷◌, ◌++◌, arith,
  All, All-zip, map, ◌==◌, ==_refl, ==_ne, subst,
}
use ai_powered_codebase_engi.Prelude.Result.{
  AppError, Result, ok, err, >>=-eq-ok, ok-injective, ◌>>=◌,
}
use ai_powered_codebase_engi.Sql.{
  update_where, update_where-All₂, update_where-Unique, select_where, select_where-append,
  select_where-single, select_where-some, scalar, returned_iff, contains,
}
use ai_powered_codebase_engi.Runs.Model.{
  Text, is_completed, user, assistant, AnswerRun, Db, Message, Conversation, Answer,
}
use ai_powered_codebase_engi.Runs.Trace.{Allowed, Allowed-running}
use ai_powered_codebase_engi.Runs.Conversation.{owned, pair_of, add_pair, append_pair}
use ai_powered_codebase_engi.Runs.Worker.{
  holds_lease, completed_values, publish_pair, publish_answer,
}
use ai_powered_codebase_engi.Runs.Events.{run_id, append_state}
use ai_powered_codebase_engi.Runs.Invariant.{
  turn_roles, IsSoundRun, AreSound, move-IsSoundRun, kept-IsSoundRun,
}
use ai_powered_codebase_engi.Runs.Owed.{append_state-AreSound}

-- The pair adds a user's and an assistant's message to its turn, and to no other.
module _ (ms : List Message) (conversation_id count : ℕ) (question : Text) (answer : Answer) where
  pair_self :
      turn_roles answer.answer_id (ms ++ pair_of conversation_id count question answer)
      ≡ turn_roles answer.answer_id ms ++ user ∷ assistant ∷ []
  unfolding pair_of select_where
  pair_self =
      rw
        (
          select_where-append (λ (m : Message). m.turn_id == answer.answer_id) ms
              (pair_of conversation_id count question answer),
          map-append,
        )
        (rw (select_where, ==_refl answer.answer_id) refl)

  pub pair-other :
      (id : ℕ)
      → answer.answer_id ≢ id
      → turn_roles id (ms ++ pair_of conversation_id count question answer) ≡ turn_roles id ms
  unfolding pair_of select_where
  pair-other id ne =
      rw
        (
          select_where-append (λ (m : Message). m.turn_id == id) ms
              (pair_of conversation_id count question answer),
          map-append,
        )
        (rw (select_where, ==_ne answer.answer_id id ne) (append-nil (turn_roles id ms)))

-- What a successful `append_pair` says of the database.
pub record IsPaired (question : Text) (answer : Answer) (conversation_id : ℕ) (db after : Db)
    : Type 0 where
  pub count : ℕ
  pub runs : after.runs ≡ db.runs
  pub events : after.events ≡ db.events
  pub messages : after.messages ≡ db.messages ++ pair_of conversation_id count question answer

never_ok : {A B : Type 0} (m : Result A) (e : AppError) {b : B} → (m >>= λ _. err e) ≡ ok b → ⊥
never_ok (ok a) e h = cc
never_ok (err f) e h = cc

add_pair-IsPaired :
    (now user_id conversation_id : ℕ) (question : Text) (answer : Answer) (o : Option Conversation)
    (db : Db) {after : Db}
    → add_pair now user_id conversation_id question answer o db ≡ ok after
    → IsPaired question answer conversation_id db after
unfolding add_pair
add_pair-IsPaired now user_id conversation_id question answer none db e =
    absurd (never_ok (owned user_id conversation_id db) _ e)
add_pair-IsPaired now user_id conversation_id question answer (some c) db e = record {
  count = c.message_count + 2;
  runs = ground arith;
  events = ground arith;
  messages = ground arith;
}

pub append_pair-IsPaired :
    (now user_id conversation_id : ℕ) (question : Text) (answer : Answer) (db : Db) {after : Db}
    → append_pair now user_id conversation_id question answer db ≡ ok after
    → IsPaired question answer conversation_id db after
unfolding append_pair
append_pair-IsPaired now user_id conversation_id question answer db e =
    add_pair-IsPaired now user_id conversation_id question answer _ db e

module _ (now id token count conversation_id : ℕ) (question : Text) (answer : Answer) (db : Db)
    (own : answer.answer_id ≡ id) where
  abbrev with_pair : List Message
  with_pair = db.messages ++ pair_of conversation_id count question answer

  completed_roles :
      (r : AnswerRun)
      → IsSoundRun db.events db.messages [] r
      → holds_lease now id token r ≡ true
      → turn_roles r.id with_pair ≡ user ∷ assistant ∷ []
  unfolding holds_lease
  completed_roles r k e =
      let same : answer.answer_id ≡ r.id = own ∙ sym (ground arith) in
      let open_run : is_completed r.status ≡ false = ground arith in
      let before : turn_roles r.id db.messages ≡ [] = k.published ∙ rw open_run refl in
      subst (λ i. turn_roles i with_pair ≡ user ∷ assistant ∷ []) same
        (pair_self db.messages conversation_id count question answer
          ∙ ap (λ l. l ++ user ∷ assistant ∷ [])
              (subst (λ i. turn_roles i db.messages ≡ []) (sym same) before))

  -- A run that was running is completed with its two messages; its event is owed.
  completed-rows :
      (owed : List ℕ)
      → owed ≡ id ∷ []
      → All (λ r. contains owed r.id ≡ holds_lease now id token r) db.runs
      → All (IsSoundRun db.events db.messages []) db.runs
      → All
          (IsSoundRun db.events with_pair owed)
          (update_where (holds_lease now id token) (completed_values now answer) db.runs)
  unfolding completed_values
  completed-rows owed o names rows =
      update_where-All₂ (holds_lease now id token) (completed_values now answer)
        (λ r k e.
          move-IsSoundRun db.events db.messages with_pair owed r _ k.0
            (record {
              same_id = refl;
              allowed =
                  Allowed-running r.status (unfold holds_lease in ground arith) Allowed.answer;
              leased = refl;
              expiring = refl;
              ended = refl;
              revision = refl;
            })
            (k.1 ∙ e) (completed_roles r k.0 e))
        (λ r k e. kept-IsSoundRun db.events db.messages with_pair owed r k.0 (k.1 ∙ e) (
          pair-other db.messages conversation_id count question answer r.id
            (λ q. other r (own_first r o (sym own ∙ q)) (k.1 ∙ e))))
        db.runs (All-zip _ _ db.runs rows names)
    where
      own_first : (r : AnswerRun) → owed ≡ id ∷ [] → id ≡ r.id → owed ≡ r.id ∷ []
      own_first r p q = p ∙ ap (λ i. i ∷ []) q

      other : (r : AnswerRun) → owed ≡ r.id ∷ [] → contains owed r.id ≡ false → ⊥
      other r p q = false≢true (sym q ∙ ap (λ l. contains l r.id) p ∙ rw (==_refl r.id) refl)

  completed-AreSound :
      {row : AnswerRun} (conversations : List Conversation)
      → scalar (select_where (holds_lease now id token) db.runs) ≡ some row
      → AreSound [] db
      → AreSound (id ∷ []) (record db {
        runs = update_where (holds_lease now id token) (completed_values now answer) db.runs;
        conversations = conversations;
        messages = with_pair;
      })
  unfolding completed_values holds_lease
  completed-AreSound {row} conversations e h =
      let one : map run_id (select_where (holds_lease now id token) db.runs) ≡ id ∷ [] =
        rw (select_where-single run_id _ id named db.runs h.unique e)
          (ap (λ i. i ∷ []) (named row (select_where-some _ db.runs e))) in
      record {
        unique = update_where-Unique run_id _ _ (λ r. refl) db.runs h.unique;
        rows =
            completed-rows (id ∷ []) refl
              (subst (λ ids. All (λ r. contains ids r.id ≡ holds_lease now id token r) db.runs) one
                (returned_iff run_id (holds_lease now id token) db.runs h.unique))
              h.rows;
      }
    where
      named : (r : AnswerRun) → holds_lease now id token r ≡ true → r.id ≡ id
      named r t = ground arith

-- Runs, events and messages are all that the invariant reads.
same-AreSound :
    {owed : List ℕ} (db after : Db)
    → after.runs ≡ db.runs
    → after.events ≡ db.events
    → after.messages ≡ db.messages
    → AreSound owed db
    → AreSound owed after
same-AreSound db after p q r h = record { unique = rw p h.unique; rows = rw (p, q, r) h.rows }

pub publish_answer-AreSound :
    (now id token : ℕ) (c : Conversation) (question : Text) (answer : Answer) (db : Db) {after : Db}
    → publish_answer now id token c question answer db ≡ ok after
    → AreSound [] db
    → AreSound [] after
unfolding publish_answer
publish_answer-AreSound now id token c question answer db {after} e h =
    go (scalar (select_where (holds_lease now id token) db.runs)) refl e
  where
    updated : Db
    updated = record db {
      runs = update_where (holds_lease now id token) (completed_values now answer) db.runs;
    }

    go :
        (o : Option AnswerRun)
        → scalar (select_where (holds_lease now id token) db.runs) ≡ o
        → publish_pair now id c question answer o db updated ≡ ok after
        → AreSound [] after
    go none selected e =
        let same : db ≡ after = unfold publish_pair in ok-injective e in subst (AreSound []) same h
    go (some row) selected e =
        let (stored, paired, written) =
          >>=-eq-ok
            (append_pair now c.user_id c.id question (record answer { answer_id = id }) updated)
            (λ stored. ok (append_state id stored)) (unfold publish_pair in e) in
        let k = append_pair-IsPaired now c.user_id c.id question _ updated paired in
        subst (AreSound []) (ok-injective written) (
          append_state-AreSound id [] stored refl (
            same-AreSound _ stored k.runs k.events k.messages (
              completed-AreSound now id token k.count c.id question
                (record answer { answer_id = id }) db refl stored.conversations selected h)))
