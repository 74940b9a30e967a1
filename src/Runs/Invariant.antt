-- ===== src/Runs/Invariant.antt =====
-- What holds of every run, with its events and messages, between two transactions.
use mathlib.Core.Bool.{false≢true}
use ai_powered_codebase_engi.Prelude.{
  ℕ, ◌≤◌, ◌≡◌, refl, sym, ap, ◌∙◌, Bool, true, false, List, [], ◌∷◌, ◌++◌, map, ◌==◌, if◌then◌else◌,
  is_some, All, All-zip,
}
use ai_powered_codebase_engi.Sql.{
  update_where, update_where-All₂, update_where-Unique, select_where, contains, Unique,
  returned_iff,
}
use ai_powered_codebase_engi.Runs.Model.{
  Status, is_running, is_completed, is_terminal, AnswerRun, RunEvent, Role, user, assistant,
  Message, Db,
}
use ai_powered_codebase_engi.Runs.Events.{run_id, events_of}
use ai_powered_codebase_engi.Runs.Trace.{IsTrace, IsTrace-extend, Allowed, Numbered, statuses}

-- The messages of a turn, by their roles.
abbrev pub turn_roles : ℕ → List Message → List Role
turn_roles id ms =
    map (λ (m : Message). m.role) (select_where (λ (m : Message). m.turn_id == id) ms)

-- The statuses that the events of a run will show once those owed are written.
abbrev pub with_owed : Bool → Status → List Status → List Status
with_owed true s l = l ++ s ∷ []
with_owed false s l = l

-- A transaction changes a row first and writes its event after: meanwhile the row's id is owed.
pub record IsSoundRun (es : List RunEvent) (ms : List Message) (owed : List ℕ) (r : AnswerRun)
    : Type 0 where
  pub trace : IsTrace r.status (with_owed (contains owed r.id) r.status (statuses r.id es))
  pub numbered : Numbered 0 (events_of r.id es)
  pub leased : is_some r.lease_token ≡ is_running r.status
  pub expiring : is_some r.lease_expires_at ≡ is_running r.status
  pub ended : is_some r.finished_at ≡ is_terminal r.status
  pub cleared : contains owed r.id ≡ false → is_terminal r.status ≡ true → r.preview_text ≡ []
  pub revision : r.preview_revision ≤ 256
  pub published : turn_roles r.id ms ≡ (if is_completed r.status then user ∷ assistant ∷ [] else [])

-- A legal change of one row, which completes no run.
pub record IsMove (r q : AnswerRun) : Type 0 where
  pub same_id : q.id ≡ r.id
  pub allowed : Allowed r.status q.status
  pub leased : is_some q.lease_token ≡ is_running q.status
  pub expiring : is_some q.lease_expires_at ≡ is_running q.status
  pub ended : is_some q.finished_at ≡ is_terminal q.status
  pub revision : q.preview_revision ≡ r.preview_revision

-- What a legal change leaves: the row is sound once its event is written.
pub move-IsSoundRun :
    (es : List RunEvent) (ms more : List Message) (owed : List ℕ) (r q : AnswerRun)
    → IsSoundRun es ms [] r
    → IsMove r q
    → contains owed r.id ≡ true
    → turn_roles q.id more ≡ (if is_completed q.status then user ∷ assistant ∷ [] else [])
    → IsSoundRun es more owed q
move-IsSoundRun es ms more owed r q h m o p = record {
  trace = rw (m.same_id, o) (IsTrace-extend h.trace m.allowed);
  numbered = rw m.same_id h.numbered;
  leased = m.leased;
  expiring = m.expiring;
  ended = m.ended;
  cleared = λ absent _. absurd (false≢true (sym absent ∙ ap (contains owed) m.same_id ∙ o));
  revision = rw m.revision h.revision;
  published = p;
}

-- A row that no statement selected is owed nothing.
pub kept-IsSoundRun :
    (es : List RunEvent) (ms more : List Message) (owed : List ℕ) (r : AnswerRun)
    → IsSoundRun es ms [] r
    → contains owed r.id ≡ false
    → turn_roles r.id more ≡ turn_roles r.id ms
    → IsSoundRun es more owed r
kept-IsSoundRun es ms more owed r h o p = record {
  trace = rw o h.trace;
  numbered = h.numbered;
  leased = h.leased;
  expiring = h.expiring;
  ended = h.ended;
  cleared = λ _ t. h.cleared refl t;
  revision = h.revision;
  published = p ∙ h.published;
}

-- The rows and the events together, with the ids whose events are owed.
pub record AreSound (owed : List ℕ) (db : Db) : Type 0 where
  pub unique : Unique run_id db.runs
  pub rows : All (IsSoundRun db.events db.messages owed) db.runs

module _ (p : AnswerRun → Bool) (f : AnswerRun → AnswerRun)
    (same : (r : AnswerRun) → run_id (f r) ≡ r.id) where
  -- After an UPDATE that makes legal changes the returned ids are owed.
  pub update-AreSound :
      (db : Db)
      → ((r : AnswerRun) → IsSoundRun db.events db.messages [] r → p r ≡ true → IsMove r (f r))
      → ((r : AnswerRun) → p r ≡ true → is_completed r.status ≡ false)
      → ((r : AnswerRun) → p r ≡ true → is_completed (f r).status ≡ false)
      → AreSound [] db
      → AreSound
          (map run_id (select_where p db.runs))
          (record db { runs = update_where p f db.runs })
  update-AreSound db legal unanswered still h = record {
    unique = update_where-Unique run_id p f same db.runs h.unique;
    rows =
        update_where-All₂ p f
          (λ r k e.
            move-IsSoundRun db.events db.messages db.messages _ r (f r) k.0 (legal r k.0 e)
              (k.1 ∙ e) (rw (same r, still r e) (k.0.published ∙ rw (unanswered r e) refl)))
          (λ r k e. kept-IsSoundRun db.events db.messages db.messages _ r k.0 (k.1 ∙ e) refl)
          db.runs (All-zip _ _ db.runs h.rows (returned_iff run_id p db.runs h.unique));
  }
