-- ===== src/Indexes/Tests.antt =====
-- An index job that is cancelled while it waits.
use ai_powered_codebase_engi.Prelude.{◌≡◌, refl, false, List, [], ◌∷◌}
use ai_powered_codebase_engi.Prelude.Result.{ok}
use ai_powered_codebase_engi.Sql.{update_where, select_where}
use ai_powered_codebase_engi.Jobs.Control
use ai_powered_codebase_engi.Jobs.Control.{new_job}
use ai_powered_codebase_engi.Indexes.Model.{
  RepositoryIndex, new_columns, latest, active_latest, cancel,
}
use ai_powered_codebase_engi.Indexes.Restart.{cancel_unblocks}

abbrev waiting : RepositoryIndex
waiting = new_job 5 1 7 (new_columns 3 "abc" "v1")

abbrev stopped_rows : List RepositoryIndex
stopped_rows = Control.cancel_values 9 waiting ∷ []

cancelled_rows : cancel 9 7 3 (waiting ∷ []) ≡ ok stopped_rows
unfolding cancel select_where update_where new_job new_columns Control.committed
cancelled_rows = refl

cancel_unblocks_example : active_latest (latest 7 3 stopped_rows) ≡ false
cancel_unblocks_example = cancel_unblocks 9 7 3 (waiting ∷ []) cancelled_rows
