-- ===== src/Search/Steps.antt =====
-- `reserve` and `checkpoint` of jobs/prepare_search.py and `start` of services/search_preparation.py,
-- as steps of the system of all who write job rows.
use mathlib.Core.List.{Memᴰ}
use ai_powered_codebase_engi.Prelude.{◌≢◌, List, All}
use ai_powered_codebase_engi.Prelude.Result.{Result}
use ai_powered_codebase_engi.Jobs.Model.{Claim}
use ai_powered_codebase_engi.Jobs.System as Jobs
use ai_powered_codebase_engi.Jobs.System.{System}
use ai_powered_codebase_engi.Search.Model.{SearchColumns, SearchIndex}
use ai_powered_codebase_engi.Search.Budget

-- The job table beside the claims that workers hold.
abbrev pub beside : List Claim → List SearchIndex → System SearchColumns
beside claims jobs = record { jobs = jobs; claims = claims }

-- A worker has the claim that it shows, and a new row's id is new.
abbrev pub IsPermitted : {a b : List SearchIndex} → List Claim → Budget.Step a b → Type 0
IsPermitted claims (Budget.reserved_more now claim tokens e) = Memᴰ claim claims
IsPermitted claims (Budget.checkpointed now claim documents usage stored) = Memᴰ claim claims
IsPermitted {a} claims (Budget.started now id s user_id repository_id mode e) =
    All (λ r. r.id ≢ id) a
