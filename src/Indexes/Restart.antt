-- ===== src/Indexes/Restart.antt =====
-- `cancel` followed by `start` of services/index.py.
use ai_powered_codebase_engi.Prelude.{
  ℕ, ◌≡◌, refl, sym, subst, true, false, List, [], ◌∷◌, arith, All, Bool-cases, inl, inr,
}
use ai_powered_codebase_engi.Prelude.Result.{ok}
use ai_powered_codebase_engi.Sql.{update_where, select_where, scalar}
use ai_powered_codebase_engi.Jobs.Model.{is_active}
use ai_powered_codebase_engi.Jobs.Control
use ai_powered_codebase_engi.Jobs.Control.{committed-eq-ok}
use ai_powered_codebase_engi.Indexes.Model.{
  RepositoryIndex, is_latest, latest, active_latest, cancellable, cancel,
}

stopped :
    (now repository_id source_id : ℕ) (jobs : List RepositoryIndex)
    → All
        (λ r. is_latest repository_id source_id r ≡ true → is_active r.status ≡ false)
        (update_where (cancellable repository_id source_id) (Control.cancel_values now) jobs)
unfolding update_where
stopped now repository_id source_id [] = tt
stopped now repository_id source_id (r ∷ rs) =
    elim (Bool-cases (cancellable repository_id source_id r)) [
      | inl e ↦
          rw e ((λ h. unfold Control.cancel_values in refl), stopped now repository_id source_id rs)
      | inr e ↦ rw e (
        (λ h. unfold is_latest in unfold cancellable in ground arith),
        stopped now repository_id source_id rs,
      )
    ]

latest_stopped :
    (repository_id source_id : ℕ) (jobs : List RepositoryIndex)
    → All (λ r. is_latest repository_id source_id r ≡ true → is_active r.status ≡ false) jobs
    → active_latest (scalar (select_where (is_latest repository_id source_id) jobs)) ≡ false
unfolding select_where active_latest
latest_stopped repository_id source_id [] h = refl
latest_stopped repository_id source_id (r ∷ rs) h =
    elim (Bool-cases (is_latest repository_id source_id r)) [
      | inl e ↦ rw e (h.0 e)
      | inr e ↦ rw e (latest_stopped repository_id source_id rs h.1)
    ]

-- After a cancellation that succeeds, the latest index job of the import is not active: `start` is
-- not refused for it.
pub cancel_unblocks :
    (now repository_id source_id : ℕ) (jobs : List RepositoryIndex) {after : List RepositoryIndex}
    → cancel now repository_id source_id jobs ≡ ok after
    → active_latest (latest repository_id source_id after) ≡ false
unfolding cancel latest
cancel_unblocks now repository_id source_id jobs e =
    subst (λ l. active_latest (scalar (select_where (is_latest repository_id source_id) l)) ≡ false)
      (sym (
        committed-eq-ok "index_inactive" _
          (scalar (select_where (cancellable repository_id source_id) jobs)) e))
      (latest_stopped repository_id source_id _ (stopped now repository_id source_id jobs))
