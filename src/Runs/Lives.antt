-- ===== src/Runs/Lives.antt =====
-- The lives of runs, as the event log tells them, against the moves between statuses.
use mathlib.Core.List.{Memᴰ, append-nil}
use ai_powered_codebase_engi.Prelude.{
  ◌≡◌, refl, sym, ap, ◌∙◌, subst, Bool, true, false, ◌||◌, List, [], ◌∷◌, ◌++◌, arith, any, All,
  All-map, All-Memᴰ,
}
use ai_powered_codebase_engi.Runs.Model.{Status, queued, running, is_terminal, AnswerRun, Db}
use ai_powered_codebase_engi.Runs.Trace.{IsTrace, IsTrace-terminal, Allowed, statuses}
use ai_powered_codebase_engi.Runs.Invariant.{IsSoundRun, AreSound}
use ai_powered_codebase_engi.Runs.System.{Reach, Reach-AreSound}
use ai_powered_codebase_engi.Runs.Final.{Reach-Extends, statuses-append}

-- The moves of a run, none or several.
pub data Moves : Status → Status → Type 0 where
  stay : {s : Status} → Moves s s
  move : {s t u : Status} → Allowed s t → Moves t u → Moves s u

-- No status but the last is one that a run ends with.
abbrev pub EndsLast : List Status → Type 0
EndsLast [] = Unit
EndsLast (s ∷ []) = Unit
EndsLast (s ∷ t ∷ l) = (is_terminal s ≡ false) × EndsLast (t ∷ l)

pub trace-EndsLast : {s : Status} {l : List Status} → IsTrace s l → EndsLast l
trace-EndsLast IsTrace.submitted = tt
trace-EndsLast IsTrace.expired = (refl, tt)
trace-EndsLast IsTrace.withdrawn = (refl, tt)
trace-EndsLast IsTrace.started = (refl, tt)
trace-EndsLast IsTrace.answered = (refl, (refl, tt))
trace-EndsLast IsTrace.broken = (refl, (refl, tt))
trace-EndsLast IsTrace.stopped = (refl, (refl, tt))

pub ended-EndsLast :
    (l more : List Status) → EndsLast (l ++ more) → any is_terminal l ≡ true → more ≡ []
ended-EndsLast [] more h e = cc
ended-EndsLast (s ∷ []) [] h e = refl
ended-EndsLast (s ∷ []) (f ∷ more) h e = ground (arith, h.0)
ended-EndsLast (s ∷ t ∷ l) more h e =
    ended-EndsLast (t ∷ l) more h.1 (sym (ap (λ b. b || any is_terminal (t ∷ l)) h.0) ∙ e)

last_status : List Status → Status
last_status [] = queued
last_status (s ∷ []) = s
last_status (s ∷ t ∷ l) = last_status (t ∷ l)

trace-last : {s : Status} {l : List Status} → IsTrace s l → last_status l ≡ s
unfolding last_status
trace-last IsTrace.submitted = refl
trace-last IsTrace.expired = refl
trace-last IsTrace.withdrawn = refl
trace-last IsTrace.started = refl
trace-last IsTrace.answered = refl
trace-last IsTrace.broken = refl
trace-last IsTrace.stopped = refl

queued-Moves : {t : Status} {k : List Status} → IsTrace t k → Moves queued t
queued-Moves IsTrace.submitted = stay
queued-Moves IsTrace.expired = move Allowed.expire stay
queued-Moves IsTrace.withdrawn = move Allowed.withdraw stay
queued-Moves IsTrace.started = move Allowed.start stay
queued-Moves IsTrace.answered = move Allowed.start (move Allowed.answer stay)
queued-Moves IsTrace.broken = move Allowed.start (move Allowed.break stay)
queued-Moves IsTrace.stopped = move Allowed.start (move Allowed.stop stay)

second_runs : List Status → Bool
second_runs (s ∷ running ∷ l) = true
second_runs _ = false

running-Moves :
    {t : Status} {k : List Status} → IsTrace t k → second_runs k ≡ true → Moves running t
unfolding second_runs
running-Moves IsTrace.started e = stay
running-Moves IsTrace.answered e = move Allowed.answer stay
running-Moves IsTrace.broken e = move Allowed.break stay
running-Moves IsTrace.stopped e = move Allowed.stop stay
running-Moves IsTrace.submitted e = cc
running-Moves IsTrace.expired e = cc
running-Moves IsTrace.withdrawn e = cc

ended-Moves :
    {s t : Status} (l more : List Status)
    → IsTrace s l
    → is_terminal s ≡ true
    → IsTrace t (l ++ more)
    → Moves s t
ended-Moves {s} {t} l more h e k =
    let nothing = ended-EndsLast l more (trace-EndsLast k) (IsTrace-terminal h ∙ e) in
    let same : last_status (l ++ more) ≡ last_status l =
      ap (λ m. last_status (l ++ m)) nothing ∙ ap last_status (append-nil l) in
    subst (λ u. Moves s u) (sym (trace-last h) ∙ sym same ∙ trace-last k) stay

-- A longer life comes from a shorter one by moves.
trace-Moves :
    {s t : Status} (l more : List Status) → IsTrace s l → IsTrace t (l ++ more) → Moves s t
trace-Moves l more IsTrace.submitted k = queued-Moves k
trace-Moves l more IsTrace.started k = running-Moves k (unfold second_runs in refl)
trace-Moves l more IsTrace.expired k = ended-Moves _ more IsTrace.expired refl k
trace-Moves l more IsTrace.withdrawn k = ended-Moves _ more IsTrace.withdrawn refl k
trace-Moves l more IsTrace.answered k = ended-Moves _ more IsTrace.answered refl k
trace-Moves l more IsTrace.broken k = ended-Moves _ more IsTrace.broken refl k
trace-Moves l more IsTrace.stopped k = ended-Moves _ more IsTrace.stopped refl k

-- Every run refines the machine of statuses: from a sound database, along every sequence of steps of
-- users, workers and the dispatcher, the status of a run changes only by the machine's moves -
-- started, expired or withdrawn from the queue, answered, broken or stopped while it runs, and never
-- after that.
pub Reach-Moves :
    {a b : Db}
    → AreSound [] a
    → Reach a b
    → (r : AnswerRun) → Memᴰ r a.runs
    → All (λ k. k.id ≡ r.id → Moves r.status k.status) b.runs
Reach-Moves {a} {b} h reach r m =
    let x = Reach-Extends reach in
    All-map
      (λ k sound same.
        trace-Moves (statuses r.id a.events) (statuses r.id x.more)
          (All-Memᴰ (IsSoundRun a.events a.messages []) a.runs m h.rows).trace
          (subst (IsTrace k.status)
            (ap (λ i. statuses i b.events) same
              ∙ ap (statuses r.id) x.log
              ∙ statuses-append r.id a.events x.more)
            sound.trace))
      b.runs (Reach-AreSound h reach).rows
