-- ===== src/Runs/Trace.antt =====
-- What the events of a run say: the lives that a run can have, and the numbering of its events.
use mathlib.Core.List.{append-nil, map-append}
use ai_powered_codebase_engi.Prelude.{
  ℕ, suc, ◌+◌, ◌≤◌, ◌≡◌, ◌≢◌, refl, true, List, [], ◌∷◌, ◌++◌, map, arith, max, length, ◌==◌,
  ==_refl, ==_ne, any, not,
}
use ai_powered_codebase_engi.Sql.{select_where, select_where-append}
use ai_powered_codebase_engi.Runs.Model.{
  Status, queued, running, completed, failed, cancelled, is_queued, is_running, is_active,
  is_terminal, RunEvent,
}
use ai_powered_codebase_engi.Runs.Events.{events_of, max_sequence}

-- The statuses of a run's events, first to last, for a run that is now at a status.
pub data IsTrace : Status → List Status → Type 0 where
  submitted : IsTrace queued (queued ∷ [])
  expired : IsTrace failed (queued ∷ failed ∷ [])
  withdrawn : IsTrace cancelled (queued ∷ cancelled ∷ [])
  started : IsTrace running (queued ∷ running ∷ [])
  answered : IsTrace completed (queued ∷ running ∷ completed ∷ [])
  broken : IsTrace failed (queued ∷ running ∷ failed ∷ [])
  stopped : IsTrace cancelled (queued ∷ running ∷ cancelled ∷ [])

-- The moves between statuses.
pub data Allowed : Status → Status → Type 0 where
  start : Allowed queued running
  expire : Allowed queued failed
  withdraw : Allowed queued cancelled
  answer : Allowed running completed
  break : Allowed running failed
  stop : Allowed running cancelled

pub IsTrace-extend :
    {a b : Status} {l : List Status} → IsTrace a l → Allowed a b → IsTrace b (l ++ b ∷ [])
IsTrace-extend submitted start = started
IsTrace-extend submitted expire = expired
IsTrace-extend submitted withdraw = withdrawn
IsTrace-extend started answer = answered
IsTrace-extend started break = broken
IsTrace-extend started stop = stopped
IsTrace-extend expired m = elim m [ ]
IsTrace-extend withdrawn m = elim m [ ]
IsTrace-extend answered m = elim m [ ]
IsTrace-extend broken m = elim m [ ]
IsTrace-extend stopped m = elim m [ ]

pub IsTrace-length : {a : Status} {l : List Status} → IsTrace a l → (1 ≤ length l) × (length l ≤ 3)
IsTrace-length submitted = omega arith
IsTrace-length expired = omega arith
IsTrace-length withdrawn = omega arith
IsTrace-length started = omega arith
IsTrace-length answered = omega arith
IsTrace-length broken = omega arith
IsTrace-length stopped = omega arith

-- Events numbered one after the other, above `n`.
abbrev pub Numbered : ℕ → List RunEvent → Type 0
Numbered n [] = Unit
Numbered n (e ∷ es) = (e.sequence ≡ suc n) × Numbered (suc n) es

pub Numbered-append :
    (n : ℕ) (es : List RunEvent) (e : RunEvent)
    → Numbered n es
    → e.sequence ≡ suc (n + length es)
    → Numbered n (es ++ e ∷ [])
Numbered-append n [] e h s = (omega arith, tt)
Numbered-append n (f ∷ es) e h s = (h.0, Numbered-append (suc n) es e h.1 (omega arith))

Numbered-max :
    (n : ℕ) (es : List RunEvent) → Numbered n es → max n (max_sequence es) ≡ n + length es
unfolding max_sequence
Numbered-max n [] h = omega arith
Numbered-max n (e ∷ es) h = omega (arith, Numbered-max (suc n) es h.1)

pub max_sequence-eq-length : (es : List RunEvent) → Numbered 0 es → max_sequence es ≡ length es
max_sequence-eq-length es h = omega (arith, Numbered-max 0 es h)

-- The statuses of the events of one run.
abbrev pub statuses : ℕ → List RunEvent → List Status
statuses id es = map (λ (e : RunEvent). e.status) (events_of id es)

module _ (es : List RunEvent) (e : RunEvent) where
  pub events_of-append_self : events_of e.run_id (es ++ e ∷ []) ≡ events_of e.run_id es ++ e ∷ []
  unfolding events_of select_where
  events_of-append_self =
      rw (select_where-append _ es (e ∷ []), select_where, ==_refl e.run_id) refl

  pub events_of-append_ne : (id : ℕ) → e.run_id ≢ id → events_of id (es ++ e ∷ []) ≡ events_of id es
  unfolding events_of select_where
  events_of-append_ne id ne =
      rw (select_where-append _ es (e ∷ []), select_where, ==_ne e.run_id id ne)
        (append-nil (select_where (λ r. r.run_id == id) es))

  pub statuses-append_self :
      statuses e.run_id (es ++ e ∷ []) ≡ statuses e.run_id es ++ e.status ∷ []
  statuses-append_self =
      rw events_of-append_self
        (map-append (λ (f : RunEvent). f.status) (events_of e.run_id es) (e ∷ []))

  pub statuses-append_ne : (id : ℕ) → e.run_id ≢ id → statuses id (es ++ e ∷ []) ≡ statuses id es
  statuses-append_ne id ne = rw (events_of-append_ne id ne) refl

pub Allowed-queued : (s : Status) {t : Status} → is_queued s ≡ true → Allowed queued t → Allowed s t
Allowed-queued queued e m = m
Allowed-queued running e m = cc
Allowed-queued completed e m = cc
Allowed-queued failed e m = cc
Allowed-queued cancelled e m = cc

pub Allowed-running :
    (s : Status) {t : Status} → is_running s ≡ true → Allowed running t → Allowed s t
Allowed-running running e m = m
Allowed-running queued e m = cc
Allowed-running completed e m = cc
Allowed-running failed e m = cc
Allowed-running cancelled e m = cc

pub Allowed-active : (s : Status) → is_active s ≡ true → Allowed s cancelled
Allowed-active queued e = withdraw
Allowed-active running e = stop
Allowed-active completed e = cc
Allowed-active failed e = cc
Allowed-active cancelled e = cc

-- A run has ended exactly if some event says so, and has left the queue exactly if some event does.
pub IsTrace-terminal :
    {s : Status} {l : List Status} → IsTrace s l → any is_terminal l ≡ is_terminal s
IsTrace-terminal submitted = refl
IsTrace-terminal expired = refl
IsTrace-terminal withdrawn = refl
IsTrace-terminal started = refl
IsTrace-terminal answered = refl
IsTrace-terminal broken = refl
IsTrace-terminal stopped = refl

pub IsTrace-started :
    {s : Status} {l : List Status}
    → IsTrace s l
    → any (λ t. not (is_queued t)) l ≡ not (is_queued s)
IsTrace-started submitted = refl
IsTrace-started expired = refl
IsTrace-started withdrawn = refl
IsTrace-started started = refl
IsTrace-started answered = refl
IsTrace-started broken = refl
IsTrace-started stopped = refl
