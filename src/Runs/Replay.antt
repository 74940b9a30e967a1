-- ===== src/Runs/Replay.antt =====
-- The event log of a run and its replay by `after` of repositories/run_event.py.
use mathlib.Core.List.{Memᴰ}
use ai_powered_codebase_engi.Prelude.{
  ℕ, zero, suc, subst, ◌+◌, ◌-◌, ◌≤◌, ◌≡◌, refl, ◌∙◌, sym, ap, Bool, ◌&&◌, List, [], ◌∷◌, arith,
  All-Memᴰ, ◌==◌, Bool-cases, inl, inr, length, length-map, length-drop, take-all, drop, drop-nil,
  ltb,
}
use ai_powered_codebase_engi.Sql.{select_where, order_by, insert_by}
use ai_powered_codebase_engi.Runs.Model.{AnswerRun, Db, RunEvent}
use ai_powered_codebase_engi.Runs.Events.{events_of, events_after}
use ai_powered_codebase_engi.Runs.Trace.{IsTrace-length, Numbered}
use ai_powered_codebase_engi.Runs.Invariant.{IsSoundRun, AreSound}

-- In a sound database every run has between one and three events, and they are numbered from 1: the
-- check constraint of the event table is never violated.
pub events_bounded :
    (db : Db) (r : AnswerRun)
    → AreSound [] db
    → Memᴰ r db.runs
    → (1 ≤ length (events_of r.id db.events))
      × (length (events_of r.id db.events) ≤ 3)
      × Numbered 0 (events_of r.id db.events)
events_bounded db r h m =
    let k = All-Memᴰ (IsSoundRun db.events db.messages []) db.runs m h.rows in
    let n = IsTrace-length k.trace in
    let same = length-map (λ (e : RunEvent). e.status) (events_of r.id db.events) in
    (omega arith, omega arith, k.numbered)

-- The rows of one run with a number above the cursor.
select_above :
    (n cursor : ℕ) (es : List RunEvent)
    → Numbered n es
    → select_where (λ e. ltb cursor e.sequence) es ≡ drop (cursor - n) es
unfolding select_where
select_above n cursor [] h = sym (drop-nil (cursor - n))
select_above n cursor (e ∷ es) h = elim (Bool-cases (ltb cursor e.sequence)) [
  | inl t ↦
      let none_left : cursor - n ≡ 0 = ground arith in
      let none_later : cursor - suc n ≡ 0 = ground arith in
      rw (t, none_left) (ap (λ l. e ∷ l) (select_above (suc n) cursor es h.1 ∙ rw none_later refl))
  | inr t ↦
      let one_less : cursor - n ≡ suc (cursor - suc n) = ground arith in
      rw (t, one_less) (select_above (suc n) cursor es h.1)
]

select-both :
    (p q : RunEvent → Bool) (es : List RunEvent)
    → select_where (λ e. p e && q e) es ≡ select_where q (select_where p es)
unfolding select_where
select-both p q [] = refl
select-both p q (e ∷ es) = ground (arith, select-both p q es)

-- Numbered rows are in order.
ordered : (n : ℕ) (es : List RunEvent) → Numbered n es → order_by (λ e. e.sequence) es ≡ es
unfolding order_by
ordered n [] h = refl
ordered n (e ∷ []) h = refl
ordered n (e ∷ f ∷ es) h = rw (ordered (suc n) (f ∷ es) h.1) (unfold insert_by in ground arith)

pub Numbered-drop :
    (c n m : ℕ) (es : List RunEvent) → n + c ≡ m → Numbered n es → Numbered m (drop c es)
Numbered-drop zero n m es e h = let same : n ≡ m = omega arith in subst (λ k. Numbered k es) same h
Numbered-drop (suc c) n m [] e h = tt
Numbered-drop (suc c) n m (f ∷ es) e h = Numbered-drop c (suc n) m es (omega arith) h.1

-- The stream's query misses nothing: in a sound database it returns, for every cursor, all events of
-- the run with a higher number, in order, although it asks for three at most.
pub events_after-eq-drop :
    (db : Db) (r : AnswerRun) (cursor : ℕ)
    → AreSound [] db
    → Memᴰ r db.runs
    → events_after r.id cursor db ≡ drop cursor (events_of r.id db.events)
unfolding events_after events_of
events_after-eq-drop db r cursor h m =
    let (some_event, few, numbered) = events_bounded db r h m in
    let rest : select_where (λ e. e.run_id == r.id && ltb cursor e.sequence) db.events
        ≡ drop cursor (events_of r.id db.events) =
      select-both (λ e. e.run_id == r.id) (λ e. ltb cursor e.sequence) db.events
      ∙ select_above 0 cursor (events_of r.id db.events) numbered
      ∙ from_zero in
    rw rest (
      rw
        (ordered cursor (drop cursor (events_of r.id db.events))
          (Numbered-drop cursor 0 cursor _ (omega arith) numbered))
        (take-all 3 _ (omega (arith, length-drop cursor (events_of r.id db.events), few))))
  where
    from_zero :
        drop (cursor - 0) (events_of r.id db.events) ≡ drop cursor (events_of r.id db.events)
    from_zero = let e : cursor - 0 ≡ cursor = omega arith in rw e refl
