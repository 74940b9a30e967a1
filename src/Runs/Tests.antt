-- ===== src/Runs/Tests.antt =====
-- A question that is asked, answered and delivered again, and the theorems at its states.
use mathlib.Core.List.{Memᴰ}
use ai_powered_codebase_engi.Prelude.{
  ◌≡◌, refl, String, true, false, none, some, [], ◌∷◌, All, drop, length, subst,
}
use ai_powered_codebase_engi.Prelude.Result.{ok, err, app_error}
use ai_powered_codebase_engi.Sql.{select_where, update_where, find}
use ai_powered_codebase_engi.Jobs.Model.{Repository}
use ai_powered_codebase_engi.Runs.Model.{
  Text, keyword, queued, running, failed, unknown, AnswerRun, Conversation, Answer, Db,
}
use ai_powered_codebase_engi.Runs.Conversation
use ai_powered_codebase_engi.Runs.Events.{events_of, events_after, append_state}
use ai_powered_codebase_engi.Runs.Worker.{start_run, fail_run, publish_answer, write_preview}
use ai_powered_codebase_engi.Runs.Service.{Services, RunRequest, submit, new_run}
use ai_powered_codebase_engi.Runs.Invariant.{AreSound}
use ai_powered_codebase_engi.Runs.System
use ai_powered_codebase_engi.Runs.System.{Reach, here, next, Reach-AreSound}
use ai_powered_codebase_engi.Runs.Replay.{events_after-eq-drop}
use ai_powered_codebase_engi.Runs.Lives.{Moves, Reach-Moves}
use ai_powered_codebase_engi.Runs.Final.{started_once, ended_ignores_workers}

abbrev pub home : Repository
home = record {
  id = 7;
  user_id = 1;
  source_key = "octo/demo";
  owner = "octo";
  name = "demo";
  github_repository_id = none;
  default_branch = none;
  last_commit_sha = none;
  imported_at = none;
}

abbrev pub talk : Conversation
talk = record { id = 3; user_id = 1; repository_id = 7; message_count = 0; updated_at = 0 }

abbrev pub quiet : Db
quiet = record {
  runs = [];
  events = [];
  conversations = talk ∷ [];
  messages = [];
  repositories = home ∷ [];
}

abbrev services : Services
services = record {
  answers_enabled = true;
  embeddings_enabled = false;
  answer_model = "model";
  config_hash = 11;
  source = ok 5;
  keyword_ready = true;
  hybrid_ready = false;
  limiter = ok tt;
  snapshot_history = λ _. [];
  fingerprint = λ question mode. length question;
}

abbrev request : RunRequest
request = record { request_key = 21; question = 104 ∷ 105 ∷ []; mode = keyword }

abbrev asked_run : AnswerRun
asked_run = new_run 10 40 services 3 request 5

abbrev pub asked : Db
asked = append_state 40 (record quiet { runs = asked_run ∷ [] })

asked_now :
    submit 10 40 services 1 3 request quiet
    ≡ ok (record { run = asked_run; created = true; db = asked })
unfolding submit Conversation.owned select_where find
asked_now = refl

quiet-AreSound : AreSound [] quiet
quiet-AreSound = record { unique = tt; rows = tt }

-- The worker takes the run and fails; the message is then delivered again.
abbrev pub running_run : AnswerRun
running_run = record asked_run {
  status = running;
  usage_state = unknown;
  started_at = some 20;
  lease_token = some 77;
  lease_expires_at = some 180000020;
}

abbrev pub failed_run : AnswerRun
failed_run = record running_run {
  status = failed;
  finished_at = some 30;
  lease_token = none;
  lease_expires_at = none;
  error_code = some "answer_timeout";
  error_message = some "Generation timed out. The provider may have charged.";
}

abbrev pub taken : Db
taken = append_state 40 (record asked { runs = running_run ∷ [] })

abbrev pub broken : Db
broken = append_state 40 (record taken { runs = failed_run ∷ [] })

taken-eq : start_run 20 77 40 asked ≡ taken
unfolding start_run append_state find select_where new_run update_where
taken-eq = refl

broken-eq :
    fail_run 30 40 77 "answer_timeout" "Generation timed out. The provider may have charged." taken
    ≡ broken
unfolding fail_run append_state find select_where new_run update_where
broken-eq = refl

asked_reached : Reach quiet asked
asked_reached = next here (
    System.submitted 10 40 services 1 3 request (record { runs = tt; events = tt; messages = tt })
      asked_now)

pub broken_reached : Reach asked broken
broken_reached = subst (Reach asked) broken-eq (
    next (subst (Reach asked) taken-eq (next here (System.started 20 77 40))) (
      System.failed 30 40 77 "answer_timeout"
        "Generation timed out. The provider may have charged."))

pub asked-AreSound : AreSound [] asked
asked-AreSound = Reach-AreSound quiet-AreSound asked_reached

Reach-AreSound_example : AreSound [] broken
Reach-AreSound_example = Reach-AreSound asked-AreSound broken_reached

pub broken-AreSound : AreSound [] broken
broken-AreSound = Reach-AreSound asked-AreSound broken_reached

-- A client that has seen the first event is sent the other two.
events_after-eq-drop_example : events_after 40 1 broken ≡ drop 1 (events_of 40 broken.events)
unfolding append_state find update_where new_run
events_after-eq-drop_example =
    events_after-eq-drop broken failed_run 1 broken-AreSound (Memᴰ.head refl)

pub redelivered : Reach broken (start_run 40 78 40 broken)
redelivered = next here (System.started 40 78 40)

started_once_example : start_run 41 79 40 (start_run 40 78 40 broken) ≡ start_run 40 78 40 broken
unfolding append_state find update_where new_run
started_once_example =
    started_once broken-AreSound redelivered failed_run (Memᴰ.head refl) refl 41 79

ended_ignores_workers_example :
    (start_run 41 77 40 broken ≡ broken)
    × ((code message : String) → fail_run 41 40 77 code message broken ≡ broken)
    × ((c : Conversation) (question : Text) (answer : Answer)
        → publish_answer 41 40 77 c question answer broken ≡ ok broken)
    × ((text : Text) → write_preview 41 40 77 text broken ≡ err (app_error "answer_stopped" 409))
unfolding append_state find update_where new_run
ended_ignores_workers_example =
    ended_ignores_workers broken-AreSound here failed_run (Memᴰ.head refl) refl 41 77

Reach-Moves_example : All (λ (k : AnswerRun). k.id ≡ 40 → Moves queued k.status) broken.runs
unfolding append_state find update_where new_run
Reach-Moves_example = Reach-Moves asked-AreSound broken_reached asked_run (Memᴰ.head refl)
