-- ===== src/Streams/Polling.antt =====
-- What the rounds of services/run_stream.py send of the event log.
use mathlib.Core.List.{Memᴰ, append_assoc}
use ai_powered_codebase_engi.Prelude.{
  ℕ, zero, suc, ◌+◌, ◌≤◌, ◌≡◌, refl, sym, ap, ◌∙◌, subst, Bool, true, false, Option, none, some,
  List, [], ◌∷◌, ◌++◌, arith, map, length, length-drop, drop, drop-length, drop-append, ltb, ◌==◌,
  if◌then◌else◌, Bool-cases, inl, inr,
}
use ai_powered_codebase_engi.Prelude.Result.{
  AppError, Result, ok, err, app_error, >>=-eq-ok, raise_if, err≢ok, ok-injective, ◌>>◌,
}
use ai_powered_codebase_engi.Sql.{
  select_where, select_where-append, select_where-some, select_where-Memᴰ, scalar,
}
use ai_powered_codebase_engi.Runs.Model.{Text, AnswerRun, RunEvent, Db}
use ai_powered_codebase_engi.Runs.Events.{events_of, max_sequence, events_after, run_id}
use ai_powered_codebase_engi.Runs.Trace.{Numbered, max_sequence-eq-length}
use ai_powered_codebase_engi.Runs.Invariant.{AreSound}
use ai_powered_codebase_engi.Runs.Replay.{events_bounded, events_after-eq-drop, Numbered-drop}
use ai_powered_codebase_engi.Runs.Final.{Extends}
use ai_powered_codebase_engi.Runs.Service
use ai_powered_codebase_engi.Runs.Service.{owns_run, run_or_not_found}
use ai_powered_codebase_engi.Streams.Model.{
  EventPage, page, has_ended, Frame, run_status, answer_preview, stream_end, keep_alive,
  stream_reconnect, stream_error, Poll, AnswerPreview, preview_frames, tick_frames, last_sequence,
  cursor_after, respond, frames_from, frames,
}

-- The events that a client has been sent.
unfoldable pub sent : List Frame → List RunEvent
sent [] = []
sent (run_status e ∷ fs) = e ∷ sent fs
sent (_ ∷ fs) = sent fs

pub sent-append : (fs gs : List Frame) → sent (fs ++ gs) ≡ sent fs ++ sent gs
unfolding sent
sent-append [] gs = refl
sent-append (run_status e ∷ fs) gs = ap (λ l. e ∷ l) (sent-append fs gs)
sent-append (answer_preview n t ∷ fs) gs = sent-append fs gs
sent-append (stream_end ∷ fs) gs = sent-append fs gs
sent-append (keep_alive ∷ fs) gs = sent-append fs gs
sent-append (stream_reconnect ∷ fs) gs = sent-append fs gs
sent-append (stream_error c ∷ fs) gs = sent-append fs gs

sent-run_status : (es : List RunEvent) → sent (map run_status es) ≡ es
unfolding sent
sent-run_status [] = refl
sent-run_status (e ∷ es) = ap (λ l. e ∷ l) (sent-run_status es)

sent_if : (b : Bool) (n : ℕ) (t : Text) → sent (if b then answer_preview n t ∷ [] else []) ≡ []
unfolding sent
sent_if true n t = refl
sent_if false n t = refl

sent-preview :
    (include : Bool) (o : Option AnswerPreview) (p : AnswerPreview)
    → sent (preview_frames include o p) ≡ []
unfolding preview_frames
sent-preview include o p = sent_if _ p.revision p.text

sent-tick : (tick : ℕ) → sent (tick_frames tick) ≡ []
unfolding sent tick_frames
sent-tick tick = ground arith

-- What a page says, where there is one.
pub record IsPage (id cursor : ℕ) (db : Db) (p : EventPage) : Type 0 where
  pub run : AnswerRun
  pub stored : Memᴰ run db.runs
  pub named : run.id ≡ id
  pub behind : cursor ≤ length (events_of id db.events)
  pub numbered : Numbered 0 (events_of id db.events)
  pub events : p.events ≡ drop cursor (events_of id db.events)
  pub ended : p.terminal ≡ has_ended run (drop cursor (events_of id db.events))

or_not_found-eq :
    (o : Option AnswerRun) {run : AnswerRun} → run_or_not_found o ≡ ok run → o ≡ some run
unfolding run_or_not_found
or_not_found-eq none e = cc
or_not_found-eq (some r) e = cc

owned-found :
    (user id : ℕ) (db : Db) {run : AnswerRun}
    → Service.owned user id db ≡ ok run
    → (Memᴰ run db.runs) × (run.id ≡ id)
unfolding Service.owned
owned-found user id db {run} e =
    let found = or_not_found-eq (scalar (select_where (owns_run user id db) db.runs)) e in
    (
      select_where-Memᴰ run_id (owns_run user id db) db.runs found,
      named (select_where-some (owns_run user id db) db.runs found),
    )
  where
    named : owns_run user id db run ≡ true → run.id ≡ id
    named q = unfold owns_run in ground arith

at_most :
    (n m : ℕ) (failure : AppError) (rest : Result EventPage) {p : EventPage}
    → (raise_if (ltb n m) failure >> rest) ≡ ok p
    → (m ≤ n) × (rest ≡ ok p)
at_most n m failure rest e = elim (Bool-cases (ltb n m)) [
  | inl f ↦ absurd (err≢ok failure (rw f at e))
  | inr f ↦ (ground arith, rw f at e)
]

pub page-IsPage :
    (authenticated : Result ℕ) (id cursor now : ℕ) (db : Db) {p : EventPage}
    → AreSound [] db
    → page authenticated id cursor now db ≡ ok p
    → IsPage id cursor db p
unfolding page
page-IsPage authenticated id cursor now db {p} h e =
    let (user, signed_in, e1) = >>=-eq-ok authenticated _ e in
    let (run, found, e2) = >>=-eq-ok (Service.owned user id db) _ e1 in
    let (stored, named) = owned-found user id db found in
    let (known, made) =
      at_most (max_sequence (events_of id db.events)) cursor (app_error "event_cursor_invalid" 409)
        _ e2 in
    let (some_event, few, numbered) = events_bounded db run h stored in
    let numbered_id = subst (λ i. Numbered 0 (events_of i db.events)) named numbered in
    let after_id =
      subst (λ i. events_after i cursor db ≡ drop cursor (events_of i db.events)) named
        (events_after-eq-drop db run cursor h stored) in
    record {
      run = run;
      stored = stored;
      named = named;
      behind = omega (arith, known, max_sequence-eq-length (events_of id db.events) numbered_id);
      numbered = numbered_id;
      events = ap (λ (q : EventPage). q.events) (sym (ok-injective made)) ∙ after_id;
      ended =
          ap (λ (q : EventPage). q.terminal) (sym (ok-injective made))
          ∙ ap (has_ended run) after_id;
    }

-- The last number of numbered events is the last cursor.
last_sequence-Numbered :
    (n : ℕ) (es : List RunEvent) → Numbered n es → last_sequence n es ≡ n + length es
unfolding last_sequence
last_sequence-Numbered n [] h = omega arith
last_sequence-Numbered n (e ∷ es) h =
    ap (λ k. last_sequence k es) h.0 ∙ last_sequence-Numbered (suc n) es h.1 ∙ omega arith

-- After a page the cursor is at the end of the log that it showed.
cursor-IsPage :
    (id cursor : ℕ) (db : Db) (p : EventPage)
    → IsPage id cursor db p
    → cursor_after cursor (ok p) ≡ length (events_of id db.events)
unfolding cursor_after
cursor-IsPage id cursor db p k =
    ap (last_sequence cursor) k.events
    ∙ last_sequence-Numbered cursor (drop cursor (events_of id db.events))
        (Numbered-drop cursor 0 cursor _ (omega arith) k.numbered)
    ∙ omega (arith, length-drop cursor (events_of id db.events), k.behind)

-- The client has been sent the log from the cursor on, up to some event.
pub record IsPrefix (es log : List RunEvent) : Type 0 where
  pub unsent : List RunEvent
  pub split : es ++ unsent ≡ log

module _ (final : Db) (id : ℕ) where
  abbrev pub log : List RunEvent
  log = events_of id final.events

  log-split :
      (db : Db) → Extends db final → (more : List RunEvent) × (log ≡ events_of id db.events ++ more)
  log-split db x = (
    events_of id x.more,
    (unfold events_of in
        (ap (select_where (λ e. e.run_id == id)) x.log
          ∙ select_where-append (λ e. e.run_id == id) db.events x.more)),
  )

  pub sent_page :
      (include : Bool) (tick : ℕ) (previous : Option AnswerPreview) (p : EventPage)
      (rest : List Frame)
      → sent (respond include tick previous (ok p) rest)
        ≡ p.events ++ (if p.terminal then [] else sent rest)
  unfolding respond
  sent_page include tick previous p rest =
      sent-append (map run_status p.events) _
      ∙ ap
          (λ l.
            l
            ++ sent (
                preview_frames include previous p.preview
                ++ (if p.terminal then stream_end ∷ [] else tick_frames tick ++ rest)))
          (sent-run_status p.events)
      ∙ ap (λ l. p.events ++ l) (sent-append (preview_frames include previous p.preview) _)
      ∙ ap
          (λ l.
            p.events
            ++ (l ++ sent (if p.terminal then stream_end ∷ [] else tick_frames tick ++ rest)))
          (sent-preview include previous p.preview)
      ∙ ap (λ l. p.events ++ l) (tail p.terminal)
    where
      tail :
          (b : Bool)
          → sent (if b then stream_end ∷ [] else tick_frames tick ++ rest)
            ≡ (if b then [] else sent rest)
      tail true = unfold sent in refl
      tail false = sent-append (tick_frames tick) rest ∙ ap (λ l. l ++ sent rest) (sent-tick tick)

  -- A page shows the log from the cursor on, as far as its database goes.
  pub page_split :
      (cursor : ℕ) (db : Db) (p : EventPage)
      → Extends db final
      → IsPage id cursor db p
      → (more : List RunEvent) × (log ≡ events_of id db.events ++ more)
        × (drop cursor log ≡ p.events ++ more)
        × (drop (cursor_after cursor (ok p)) log ≡ more)
  page_split cursor db p x q =
      let (more, split) = log-split db x in
      let seen = events_of id db.events in
      (
        more,
        split,
        ap (drop cursor) split
            ∙ drop-append cursor seen more q.behind
            ∙ ap (λ l. l ++ more) (sym q.events),
        ap (λ n. drop n log) (cursor-IsPage id cursor db p q)
            ∙ ap (drop (length seen)) split
            ∙ drop-append (length seen) seen more (omega arith)
            ∙ ap (λ l. l ++ more) (drop-length seen),
      )

  respond-IsPrefix :
      (include : Bool) (tick cursor now : ℕ) (authenticated : Result ℕ)
      (previous : Option AnswerPreview) (db : Db) (found : Result EventPage) (rest : List Frame)
      → AreSound [] db
      → Extends db final
      → page authenticated id cursor now db ≡ found
      → IsPrefix (sent rest) (drop (cursor_after cursor found) log)
      → IsPrefix (sent (respond include tick previous found rest)) (drop cursor log)
  respond-IsPrefix include tick cursor now authenticated previous db (err failure) rest h x e k =
      record { unsent = drop cursor log; split = unfold respond in unfold sent in refl }
  respond-IsPrefix include tick cursor now authenticated previous db (ok p) rest h x e k =
      let (more, split, ahead, later) =
        page_split cursor db p x (page-IsPage authenticated id cursor now db h e) in
      record {
        unsent = if p.terminal then more else k.unsent;
        split =
            ap (λ l. l ++ (if p.terminal then more else k.unsent))
              (sent_page include tick previous p rest)
            ∙ append_assoc p.events _ _
            ∙ ap (λ l. p.events ++ l) (ending p.terminal more (k.split ∙ later))
            ∙ sym ahead;
      }
    where
      ending :
          (b : Bool) (more : List RunEvent)
          → sent rest ++ k.unsent ≡ more
          → (if b then [] else sent rest) ++ (if b then more else k.unsent) ≡ more
      ending true more q = refl
      ending false more q = q

  module _ (include : Bool) (polls : ℕ → Poll)
      (watched : (t : ℕ) → AreSound [] (polls t).db × Extends (polls t).db final) where
    frames_from-IsPrefix :
        (left tick cursor : ℕ) (previous : Option AnswerPreview)
        → IsPrefix (sent (frames_from include id polls left tick cursor previous)) (drop cursor log)
    unfolding frames_from
    frames_from-IsPrefix zero tick cursor previous = record {
      unsent = drop cursor log;
      split = unfold sent in refl;
    }
    frames_from-IsPrefix (suc left) tick cursor previous =
        elim (Bool-cases (polls tick).disconnected) [
          | inl e ↦ rw e (record { unsent = drop cursor log; split = unfold sent in refl })
          | inr e ↦ rw e (
              respond-IsPrefix include tick cursor (polls tick).now (polls tick).authenticated
                previous (polls tick).db _ _ (watched tick).0 (watched tick).1 refl
                (frames_from-IsPrefix left (suc tick) _ _))
        ]

    -- Whatever the rounds of a stream meet - sign-ins that end, pages that are refused, a client that
    -- goes - and however the run moves on between them: if every database that a round reads is sound
    -- and its event log is the beginning of the last one, then the client is sent, in order and each
    -- once, the run's events from its cursor on, up to some event.
    pub frames-IsPrefix :
        (cursor : ℕ) → IsPrefix (sent (frames include id cursor polls)) (drop cursor log)
    unfolding frames
    frames-IsPrefix cursor = frames_from-IsPrefix 25 0 cursor none
