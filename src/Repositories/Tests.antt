-- ===== src/Repositories/Tests.antt =====
-- One user connects a first repository beside another's.
use mathlib.Core.List.{Memᴰ}
use ai_powered_codebase_engi.Prelude.{◌≡◌, ◌≤◌, refl, [], ◌∷◌, arith}
use ai_powered_codebase_engi.Prelude.Result.{ok}
use ai_powered_codebase_engi.Sql.{select_where}
use ai_powered_codebase_engi.Jobs.Control.{new_job, no_counts}
use ai_powered_codebase_engi.Repositories.Model.{
  Library, Imports, is_users, new_repository, owned_count, create,
}
use ai_powered_codebase_engi.Repositories.Limit
use ai_powered_codebase_engi.Repositories.Limit.{Step, twenty_at_most}
use ai_powered_codebase_engi.Repositories.Others.{jobs_of, others_untouched}

abbrev github : Imports
github = record {
  limiter = λ _. ok tt;
  parse_repository_url = λ url. ok ("octo", url);
  source_key = λ owner name. name;
}

abbrev at_first : Library
at_first = record {
  repositories = new_repository 1 8 "other" "octo" "other" ∷ [];
  jobs = new_job 0 1 1 no_counts ∷ [];
}

abbrev then_two : Library
then_two = record {
  repositories =
      new_repository 1 8 "other" "octo" "other" ∷ new_repository 2 9 "demo" "octo" "demo" ∷ [];
  jobs = new_job 0 1 1 no_counts ∷ new_job 5 3 2 no_counts ∷ [];
}

connected : create 5 2 3 github 9 "demo" at_first ≡ ok then_two
unfolding create select_where new_repository
connected = refl

others_untouched_example :
    (select_where (is_users 8) then_two.repositories
      ≡ select_where (is_users 8) at_first.repositories)
    × (jobs_of 1 then_two.jobs ≡ jobs_of 1 at_first.jobs)
unfolding new_repository
others_untouched_example =
    others_untouched (new_repository 1 8 "other" "octo" "other") (tt, tt) (tt, tt) (Memᴰ.head refl)
      (λ q. omega (arith, q)) (Limit.created 5 2 3 github "demo" connected) (λ q. omega (arith, q))

twenty_at_most_example : owned_count 9 then_two ≤ 20
twenty_at_most_example =
    twenty_at_most 9 (Limit.created 5 2 3 github "demo" connected)
      (unfold owned_count in unfold select_where in unfold new_repository in omega arith)
