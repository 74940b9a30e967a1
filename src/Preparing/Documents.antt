-- ===== src/Preparing/Documents.antt =====
-- What a step of `run_preparation` of jobs/prepare_search.py may do to the documents.
use mathlib.Core.List.{append_assoc, append-nil}
use ai_powered_codebase_engi.Prelude.{ℕ, ◌≡◌, refl, sym, ap, ◌∙◌, Bool, true, false, List, [], ◌++◌}
use ai_powered_codebase_engi.Prelude.Result.{AppError}
use ai_powered_codebase_engi.Jobs.Lease.{Outcome, committed, lease_lost}
use ai_powered_codebase_engi.Calls.Model.{Reply, fails, gives}
use ai_powered_codebase_engi.Preparing.Model.{
  World, Moment, Stop, Progress, stopped, going, after_step, done_ids, passes_if, leased, replied,
}

abbrev pub Any {ℓ} : {A : Type ℓ} → A → Type 0
Any a = Unit

-- The search index of the job.
module _ (job_id : ℕ) where
  abbrev pub stored_ids : {V : Type 0} → Moment V → List ℕ
  stored_ids m = done_ids job_id m.world.documents

  -- The documents of the earlier ones, and of a first part of those to do.
  pub record IsPart {V : Type 0} (earlier todo : List ℕ) (m : Moment V) : Type 0 where
    pub stored : List ℕ
    pub missing : List ℕ
    pub split : stored ++ missing ≡ todo
    pub ids : stored_ids m ≡ earlier ++ stored

  -- A step that ends well stores all that it has to, and one that stops a first part.
  abbrev pub Stores {ℓ} : {V : Type 0} {A : Type ℓ} → List ℕ → List ℕ → Progress V A → Type 0
  Stores earlier todo (stopped e m) = IsPart earlier todo m
  Stores earlier todo (going a m) = stored_ids m ≡ earlier ++ todo

  pub stop-Stores {ℓ} :
      {V : Type 0} (A : Type ℓ) (earlier todo : List ℕ) (e : Stop) (m : Moment V)
      → stored_ids m ≡ earlier
      → Stores {A = A} earlier todo (stopped e m)
  stop-Stores A earlier todo e m h = record {
    stored = [];
    missing = todo;
    split = refl;
    ids = h ∙ sym (append-nil earlier);
  }

  pub after-Stores {ℓ κ} :
      {V : Type 0} {A : Type ℓ} {B : Type κ} (earlier now later : List ℕ) (p : Progress V A)
      (rest : A → Moment V → Progress V B)
      → Stores earlier now p
      → ((a : A) (m : Moment V)
          → stored_ids m ≡ earlier ++ now
          → Stores (earlier ++ now) later (rest a m))
      → Stores earlier (now ++ later) (after_step p rest)
  after-Stores earlier now later (stopped e m) rest h k = record {
    stored = h.stored;
    missing = h.missing ++ later;
    split = sym (append_assoc h.stored h.missing later) ∙ ap (λ l. l ++ later) h.split;
    ids = h.ids;
  }
  after-Stores {V = V} {B = B} earlier now later (going a m) rest h k = go (rest a m) (k a m h)
    where
      go : (p : Progress V B) → Stores (earlier ++ now) later p → Stores earlier (now ++ later) p
      go (stopped e n) q = record {
        stored = now ++ q.stored;
        missing = q.missing;
        split = append_assoc now q.stored q.missing ∙ ap (λ l. now ++ l) q.split;
        ids = q.ids ∙ append_assoc earlier now q.stored;
      }
      go (going b n) q = q ∙ append_assoc earlier now later

  -- A step that stores nothing; of its result something more is known.
  abbrev pub Keeps {ℓ} : {V : Type 0} {A : Type ℓ} → List ℕ → (A → Type 0) → Progress V A → Type 0
  Keeps earlier Q (stopped e m) = stored_ids m ≡ earlier
  Keeps earlier Q (going a m) = (stored_ids m ≡ earlier) × Q a

  pub Keeps-Stores {ℓ κ} :
      {V : Type 0} {A : Type ℓ} {B : Type κ} (earlier todo : List ℕ) (p : Progress V A)
      (rest : A → Moment V → Progress V B) (Q : A → Type 0)
      → Keeps earlier Q p
      → ((a : A) (m : Moment V) → stored_ids m ≡ earlier → Q a → Stores earlier todo (rest a m))
      → Stores earlier todo (after_step p rest)
  Keeps-Stores {B = B} earlier todo (stopped e m) rest Q h k = stop-Stores B earlier todo e m h
  Keeps-Stores earlier todo (going a m) rest Q h k = k a m h.0 h.1

  pub bind-Keeps {ℓ κ} :
      {V : Type 0} {A : Type ℓ} {B : Type κ} (earlier : List ℕ) (p : Progress V A)
      (rest : A → Moment V → Progress V B) (Q : A → Type 0) (R : B → Type 0)
      → Keeps earlier Q p
      → ((a : A) (m : Moment V) → stored_ids m ≡ earlier → Q a → Keeps earlier R (rest a m))
      → Keeps earlier R (after_step p rest)
  bind-Keeps earlier (stopped e m) rest Q R h k = h
  bind-Keeps earlier (going a m) rest Q R h k = k a m h.0 h.1

  pub passes-Keeps :
      {V : Type 0} (earlier : List ℕ) (b : Bool) (e : AppError) (m : Moment V)
      → stored_ids m ≡ earlier
      → Keeps earlier Any (passes_if b e m)
  unfolding passes_if
  passes-Keeps earlier true e m h = (h, tt)
  passes-Keeps earlier false e m h = h

  pub replied-Keeps {ℓ} :
      {V : Type 0} {A : Type ℓ} (earlier : List ℕ) (r : Reply A) (m : Moment V)
      → stored_ids m ≡ earlier
      → Keeps earlier Any (replied r m)
  unfolding replied
  replied-Keeps earlier (fails r) m h = h
  replied-Keeps earlier (gives a) m h = (h, tt)

  pub leased-Keeps :
      {V : Type 0} (earlier : List ℕ) (tick : ℕ) (o : Outcome) (w : World V)
      → done_ids job_id w.documents ≡ earlier
      → Keeps earlier Any (leased tick o w)
  unfolding leased
  leased-Keeps earlier tick committed w h = (h, tt)
  leased-Keeps earlier tick lease_lost w h = h
