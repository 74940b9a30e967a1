-- ===== src/Runs/Owed.antt =====
-- Writing the events that are owed: `append_state` for one id, and the loops over the returned ids.
use mathlib.Core.Bool.{false≢true}
use mathlib.Core.List.{Memᴰ}
use ai_powered_codebase_engi.Prelude.{
  ℕ, ◌+◌, ◌≡◌, ◌≢◌, refl, sym, ap, ◌∙◌, Bool, true, false, Option, none, some, List, [], ◌∷◌, ◌++◌,
  map, arith, ◌==◌, All-map, All-zip, Bool-cases, inl, inr, ==_iff, ==_refl, ==_ne, subst,
}
use ai_powered_codebase_engi.Sql.{
  update_where, update_where-All₂, update_where-Unique, select_where, scalar, contains, Distinct,
  find, find-Memᴰ, find-key, find-none, returned-Distinct, Unique-only, select_where-single,
  select_where-some,
}
use ai_powered_codebase_engi.Runs.Model.{is_completed, is_terminal, AnswerRun, RunEvent, Db}
use ai_powered_codebase_engi.Runs.Events.{
  run_id, events_of, max_sequence, clear_preview, add_event, append_state,
}
use ai_powered_codebase_engi.Runs.Trace.{
  IsTrace, Numbered, Numbered-append, max_sequence-eq-length, statuses, events_of-append_self,
  events_of-append_ne, statuses-append_self, statuses-append_ne,
}
use ai_powered_codebase_engi.Runs.Invariant.{
  with_owed, IsSoundRun, IsMove, AreSound, update-AreSound,
}
use ai_powered_codebase_engi.Runs.Worker.{changed, transition}
use ai_powered_codebase_engi.Runs.Expiry.{append_states, expire_where}

-- The event that `append_state` adds for a run.
abbrev new_event : Db → AnswerRun → RunEvent
new_event db run = record {
  run_id = run.id;
  sequence = max_sequence (events_of run.id db.events) + 1;
  status = run.status;
}

module _ (db : Db) (owed : List ℕ) (run : AnswerRun) where
  paid_trace :
      IsSoundRun db.events db.messages (run.id ∷ owed) run
      → contains owed run.id ≡ false
      → IsTrace run.status (
          with_owed
            (contains owed run.id)
            run.status
            (statuses run.id (db.events ++ new_event db run ∷ [])))
  paid_trace h absent =
      let first : contains (run.id ∷ owed) run.id ≡ true = rw (==_refl run.id) refl in
      rw (absent, statuses-append_self db.events (new_event db run))
        (subst (λ b. IsTrace run.status (with_owed b run.status (statuses run.id db.events))) first
          h.trace)

  paid-Numbered :
      Numbered 0 (events_of run.id db.events)
      → Numbered 0 (events_of run.id (db.events ++ new_event db run ∷ []))
  paid-Numbered h = rw (events_of-append_self db.events (new_event db run)) (
      Numbered-append 0 _ _ h
        (omega (arith, max_sequence-eq-length (events_of run.id db.events) h)))

  -- The run whose event is written is owed nothing any more.
  paid_self :
      IsSoundRun db.events db.messages (run.id ∷ owed) run
      → contains owed run.id ≡ false
      → IsSoundRun (db.events ++ new_event db run ∷ []) db.messages owed (clear_preview run)
  unfolding clear_preview
  paid_self h absent = elim (Bool-cases (is_terminal run.status)) [
    | inl t ↦ rw t (record {
      trace = paid_trace h absent;
      numbered = paid-Numbered h.numbered;
      leased = h.leased;
      expiring = h.expiring;
      ended = h.ended;
      cleared = λ _ _. refl;
      revision = h.revision;
      published = h.published;
    })
    | inr t ↦ rw t (record {
      trace = paid_trace h absent;
      numbered = paid-Numbered h.numbered;
      leased = h.leased;
      expiring = h.expiring;
      ended = h.ended;
      cleared = λ _ e. absurd (false≢true (sym t ∙ e));
      revision = h.revision;
      published = h.published;
    })
  ]

  -- Another run is owed what it was owed.
  paid_other :
      (r : AnswerRun)
      → run.id ≢ r.id
      → IsSoundRun db.events db.messages (run.id ∷ owed) r
      → IsSoundRun (db.events ++ new_event db run ∷ []) db.messages owed r
  paid_other r ne h =
      let same : contains (run.id ∷ owed) r.id ≡ contains owed r.id =
        rw (==_ne run.id r.id ne) refl in
      record {
        trace = rw (statuses-append_ne db.events (new_event db run) r.id ne) (
            subst (λ b. IsTrace r.status (with_owed b r.status (statuses r.id db.events))) same
              h.trace);
        numbered = rw (events_of-append_ne db.events (new_event db run) r.id ne) h.numbered;
        leased = h.leased;
        expiring = h.expiring;
        ended = h.ended;
        cleared = λ absent t. h.cleared (same ∙ absent) t;
        revision = h.revision;
        published = h.published;
      }

-- No row has the id: nothing changes, and nothing was owed.
forgiven :
    (db : Db) (id : ℕ) (owed : List ℕ) (r : AnswerRun)
    → id ≢ r.id
    → IsSoundRun db.events db.messages (id ∷ owed) r
    → IsSoundRun db.events db.messages owed r
forgiven db id owed r ne h =
    let same : contains (id ∷ owed) r.id ≡ contains owed r.id = rw (==_ne id r.id ne) refl in
    record {
      trace =
          subst (λ b. IsTrace r.status (with_owed b r.status (statuses r.id db.events))) same
            h.trace;
      numbered = h.numbered;
      leased = h.leased;
      expiring = h.expiring;
      ended = h.ended;
      cleared = λ absent t. h.cleared (same ∙ absent) t;
      revision = h.revision;
      published = h.published;
    }

clear_preview-id : (r : AnswerRun) → run_id (clear_preview r) ≡ r.id
unfolding clear_preview
clear_preview-id r = ground arith

paid-AreSound :
    (db : Db) (owed : List ℕ) (run : AnswerRun)
    → Memᴰ run db.runs
    → contains owed run.id ≡ false
    → AreSound (run.id ∷ owed) db
    → AreSound owed (add_event (some run) run.id db)
unfolding add_event
paid-AreSound db owed run m absent h = record {
  unique = update_where-Unique run_id _ clear_preview clear_preview-id db.runs h.unique;
  rows =
      update_where-All₂ (λ r. r.id == run.id) clear_preview
        (λ r k e.
          let same : r ≡ run = k.1 ((==_iff r.id run.id).0 e) in
          subst
            (λ q.
              IsSoundRun (db.events ++ new_event db run ∷ []) db.messages owed (clear_preview q))
            (sym same)
            (paid_self db owed run
              (subst (IsSoundRun db.events db.messages (run.id ∷ owed)) same k.0) absent))
        (λ r k e.
          paid_other db owed run r (λ q. false≢true (sym e ∙ (==_iff r.id run.id).1 (sym q))) k.0)
        db.runs (All-zip _ _ db.runs h.rows (Unique-only run_id db.runs h.unique m));
}

-- `append_state` writes the first event that is owed.
pub append_state-AreSound :
    (id : ℕ) (owed : List ℕ) (db : Db)
    → contains owed id ≡ false
    → AreSound (id ∷ owed) db
    → AreSound owed (append_state id db)
unfolding append_state add_event
append_state-AreSound id owed db absent h = go (find run_id id db.runs) refl
  where
    go : (o : Option AnswerRun) → find run_id id db.runs ≡ o → AreSound owed (add_event o id db)
    go none e = record {
      unique = h.unique;
      rows =
          All-map (λ r k. forgiven db id owed r (λ q. k.1 (sym q)) k.0) db.runs
            (All-zip _ _ db.runs h.rows (find-none run_id id db.runs e));
    }
    go (some run) e =
        let same : run.id ≡ id = find-key run_id id db.runs e in
        subst (λ i. AreSound owed (add_event (some run) i db)) same
          (paid-AreSound db owed run (find-Memᴰ run_id id db.runs e) (rw same absent) (rw same h))

-- The loop writes all that is owed.
pub append_states-AreSound :
    (ids : List ℕ) (db : Db) → Distinct ids → AreSound ids db → AreSound [] (append_states ids db)
unfolding append_states
append_states-AreSound [] db d h = h
append_states-AreSound (id ∷ ids) db d h =
    append_states-AreSound ids (append_state id db) d.1 (append_state-AreSound id ids db d.0 h)

module _ (p : AnswerRun → Bool) (f : AnswerRun → AnswerRun)
    (same : (r : AnswerRun) → run_id (f r) ≡ r.id)
    (before_open : (r : AnswerRun) → p r ≡ true → is_completed r.status ≡ false)
    (after_open : (r : AnswerRun) → p r ≡ true → is_completed (f r).status ≡ false) where
  -- A legal UPDATE of any number of rows, and the loop over the returned ids.
  pub expire_where-AreSound :
      (db : Db)
      → ((r : AnswerRun) → IsSoundRun db.events db.messages [] r → p r ≡ true → IsMove r (f r))
      → AreSound [] db
      → AreSound [] (expire_where p f db)
  unfolding expire_where
  expire_where-AreSound db legal h =
      append_states-AreSound (map run_id (select_where p db.runs))
        (record db { runs = update_where p f db.runs })
        (returned-Distinct run_id p db.runs h.unique)
        (update-AreSound p f same db legal before_open after_open h)

  -- A legal UPDATE of the row that it names.
  pub transition-AreSound :
      (id : ℕ) (db : Db)
      → ((r : AnswerRun) → p r ≡ true → r.id ≡ id)
      → ((r : AnswerRun) → IsSoundRun db.events db.messages [] r → p r ≡ true → IsMove r (f r))
      → AreSound [] db
      → AreSound [] (transition id p f db)
  unfolding transition
  transition-AreSound id db named legal h = go (scalar (select_where p db.runs)) refl
    where
      updated : Db
      updated = record db { runs = update_where p f db.runs }

      go :
          (o : Option AnswerRun)
          → scalar (select_where p db.runs) ≡ o
          → AreSound [] (changed id o db updated)
      go none e = unfold changed in h
      go (some r) e =
          let one : map run_id (select_where p db.runs) ≡ id ∷ [] =
            rw (select_where-single run_id p id named db.runs h.unique e)
              (ap (λ i. i ∷ []) (named r (select_where-some p db.runs e))) in
          unfold changed in
          append_state-AreSound id [] updated refl
            (rw one at (update-AreSound p f same db legal before_open after_open h))
