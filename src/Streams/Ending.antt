-- ===== src/Streams/Ending.antt =====
-- The streams of services/run_stream.py that end with the run.
use mathlib.Core.List.{Memᴰ, map-append}
use ai_powered_codebase_engi.Prelude.{
  ℕ, zero, suc, ◌≡◌, refl, sym, ap, ◌∙◌, subst, Bool, true, false, ◌||◌, Option, none, List, [],
  ◌∷◌, ◌++◌, arith, map, drop, if◌then◌else◌, Bool-cases, inl, inr, any, All-Memᴰ,
}
use ai_powered_codebase_engi.Prelude.Result.{Result, ok, err}
use ai_powered_codebase_engi.Runs.Model.{AnswerRun, RunEvent, Db, is_terminal}
use ai_powered_codebase_engi.Runs.Events.{events_of}
use ai_powered_codebase_engi.Runs.Trace.{IsTrace-terminal, statuses}
use ai_powered_codebase_engi.Runs.Invariant.{IsSoundRun, AreSound}
use ai_powered_codebase_engi.Runs.Lives.{EndsLast, trace-EndsLast, ended-EndsLast}
use ai_powered_codebase_engi.Runs.Final.{Extends}
use ai_powered_codebase_engi.Streams.Model.{
  EventPage, page, has_ended, Frame, run_status, answer_preview, stream_end, keep_alive,
  stream_reconnect, stream_error, Poll, AnswerPreview, preview_frames, tick_frames, cursor_after,
  respond, frames_from, frames,
}
use ai_powered_codebase_engi.Streams.Polling.{sent, IsPage, page-IsPage, log, sent_page, page_split}

-- The client is told that the stream is over.
unfoldable pub has_end : List Frame → Bool
has_end [] = false
has_end (stream_end ∷ fs) = true
has_end (_ ∷ fs) = has_end fs

has_end-append : (fs gs : List Frame) → has_end (fs ++ gs) ≡ has_end fs || has_end gs
unfolding has_end
has_end-append [] gs = refl
has_end-append (stream_end ∷ fs) gs = refl
has_end-append (run_status e ∷ fs) gs = has_end-append fs gs
has_end-append (answer_preview n t ∷ fs) gs = has_end-append fs gs
has_end-append (keep_alive ∷ fs) gs = has_end-append fs gs
has_end-append (stream_reconnect ∷ fs) gs = has_end-append fs gs
has_end-append (stream_error c ∷ fs) gs = has_end-append fs gs

has_end-run_status : (es : List RunEvent) → has_end (map run_status es) ≡ false
unfolding has_end
has_end-run_status [] = refl
has_end-run_status (e ∷ es) = has_end-run_status es

has_end-preview :
    (include : Bool) (o : Option AnswerPreview) (p : AnswerPreview)
    → has_end (preview_frames include o p) ≡ false
unfolding has_end preview_frames
has_end-preview include o p = ground arith

has_end-tick : (tick : ℕ) → has_end (tick_frames tick) ≡ false
unfolding has_end tick_frames
has_end-tick tick = ground arith

end_page :
    (include : Bool) (tick : ℕ) (previous : Option AnswerPreview) (p : EventPage)
    (rest : List Frame)
    → p.terminal ≡ false
    → has_end (respond include tick previous (ok p) rest) ≡ true
    → has_end rest ≡ true
unfolding respond
end_page include tick previous p rest open_still e =
    let tail = if p.terminal then stream_end ∷ [] else tick_frames tick ++ rest in
    let last : has_end tail ≡ has_end rest =
      ap (λ b. has_end (if b then stream_end ∷ [] else tick_frames tick ++ rest)) open_still
      ∙ has_end-append (tick_frames tick) rest
      ∙ ap (λ b. b || has_end rest) (has_end-tick tick) in
    let all_of_it : has_end
          (map run_status p.events ++ (preview_frames include previous p.preview ++ tail))
        ≡ has_end rest =
      has_end-append (map run_status p.events) _
      ∙ ap (λ b. b || has_end (preview_frames include previous p.preview ++ tail))
          (has_end-run_status p.events)
      ∙ has_end-append (preview_frames include previous p.preview) tail
      ∙ ap (λ b. b || has_end tail) (has_end-preview include previous p.preview)
      ∙ last in
    sym all_of_it ∙ e

map-nil : (es : List RunEvent) → map (λ (e : RunEvent). e.status) es ≡ [] → es ≡ []
map-nil [] h = refl
map-nil (e ∷ es) h = cc

any-drop :
    (c : ℕ) (es : List RunEvent)
    → any (λ (e : RunEvent). is_terminal e.status) (drop c es) ≡ true
    → any is_terminal (map (λ (e : RunEvent). e.status) es) ≡ true
any-drop zero [] h = h
any-drop (suc c) [] h = h
any-drop zero (e ∷ es) h = elim (Bool-cases (is_terminal e.status)) [
  | inl t ↦ rw t refl
  | inr t ↦ rw t (
      any-drop zero es (sym (ap (λ b. b || any (λ (f : RunEvent). is_terminal f.status) es) t) ∙ h))
]
any-drop (suc c) (e ∷ es) h = elim (Bool-cases (is_terminal e.status)) [
  | inl t ↦ rw t refl
  | inr t ↦ rw t (any-drop c es h)
]

-- What a page calls ended has ended by its events.
page_ended :
    (id cursor : ℕ) (db : Db) (p : EventPage)
    → AreSound [] db
    → IsPage id cursor db p
    → p.terminal ≡ true
    → any is_terminal (statuses id db.events) ≡ true
page_ended id cursor db p h q e = elim (Bool-cases (is_terminal q.run.status)) [
  | inl t ↦
      ap (λ i. any is_terminal (statuses i db.events)) (sym q.named)
      ∙ IsTrace-terminal
          (All-Memᴰ (IsSoundRun db.events db.messages []) db.runs q.stored h.rows).trace
      ∙ t
  | inr t ↦ any-drop cursor (events_of id db.events) (
      sym (
        ap
          (λ b.
            b
            || any (λ (f : RunEvent). is_terminal f.status) (drop cursor (events_of id db.events)))
          t)
      ∙ unfold has_ended in (sym q.ended ∙ e))
]

module _ (final : Db) (id : ℕ) (settled : AreSound [] final) (run : AnswerRun)
    (stored : Memᴰ run final.runs) (named : run.id ≡ id) where
  nothing_more :
      (db : Db) (more : List RunEvent)
      → log final id ≡ events_of id db.events ++ more
      → any is_terminal (statuses id db.events) ≡ true
      → more ≡ []
  nothing_more db more split e =
      let traced =
        (All-Memᴰ (IsSoundRun final.events final.messages []) final.runs stored
          settled.rows).trace in
      map-nil more (
        ended-EndsLast (statuses id db.events) _
          (subst EndsLast
            (ap (λ i. statuses i final.events) named
              ∙ ap (map (λ (e : RunEvent). e.status)) split
              ∙ map-append (λ (e : RunEvent). e.status) (events_of id db.events) more)
            (trace-EndsLast traced))
          e)

  respond_complete :
      (include : Bool) (tick cursor now : ℕ) (authenticated : Result ℕ)
      (previous : Option AnswerPreview) (db : Db) (found : Result EventPage) (rest : List Frame)
      → AreSound [] db
      → Extends db final
      → page authenticated id cursor now db ≡ found
      → (has_end rest ≡ true → sent rest ≡ drop (cursor_after cursor found) (log final id))
      → has_end (respond include tick previous found rest) ≡ true
      → sent (respond include tick previous found rest) ≡ drop cursor (log final id)
  respond_complete include tick cursor now authenticated previous db (err failure) rest h x e k
        end =
      unfold respond in unfold has_end in cc
  respond_complete include tick cursor now authenticated previous db (ok p) rest h x e k end =
      let q = page-IsPage authenticated id cursor now db h e in
      let (more, split, ahead, later) = page_split final id cursor db p x q in
      sent_page final id include tick previous p rest
      ∙ ap (λ l. p.events ++ l)
          (elim (Bool-cases p.terminal) [
            | inl t ↦ rw t (sym (nothing_more db more split (page_ended id cursor db p h q t)))
            | inr t ↦ rw t (k (end_page include tick previous p rest t end) ∙ later)
          ])
      ∙ sym ahead

  module _ (include : Bool) (polls : ℕ → Poll)
      (watched : (t : ℕ) → AreSound [] (polls t).db × Extends (polls t).db final) where
    frames_from_complete :
        (left tick cursor : ℕ) (previous : Option AnswerPreview)
        → has_end (frames_from include id polls left tick cursor previous) ≡ true
        → sent (frames_from include id polls left tick cursor previous) ≡ drop cursor (log final id)
    unfolding frames_from
    frames_from_complete zero tick cursor previous end = unfold has_end in cc
    frames_from_complete (suc left) tick cursor previous end =
        elim (Bool-cases (polls tick).disconnected) [
          | inl e ↦ let gone = rw e at end in unfold has_end in cc
          | inr e ↦ rw e (
              respond_complete include tick cursor (polls tick).now (polls tick).authenticated
                previous (polls tick).db _ _ (watched tick).0 (watched tick).1 refl
                (frames_from_complete left (suc tick) _ _) (rw e at end))
        ]

    -- A stream that says it is over has left out nothing: if every database that a round reads is
    -- sound and its event log is the beginning of the last one, which is sound and has the run, and
    -- `stream_end` is among the frames, then the client has been sent all the run's events from its
    -- cursor on, those of the last database included.
    pub frames_complete :
        (cursor : ℕ)
        → has_end (frames include id cursor polls) ≡ true
        → sent (frames include id cursor polls) ≡ drop cursor (log final id)
    unfolding frames
    frames_complete cursor end = frames_from_complete 25 0 cursor none end
