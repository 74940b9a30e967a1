-- ===== src/Runs/Service.antt =====
-- `submit`, `replay` and `cancel` of services/answer_runs.py, with `owned` of
-- repositories/answer_run.py.
use ai_powered_codebase_engi.Prelude.{
  ℕ, ◌&&◌, ◌||◌, not, String, Bool, true, false, Option, none, some, List, [], ◌∷◌, ◌++◌, leb, ◌==◌,
  if◌then◌else◌, any, length,
}
use ai_powered_codebase_engi.Prelude.Result.{◌>>◌, Result, ok, err, app_error, ◌>>=◌, raise_if}
use ai_powered_codebase_engi.Sql.{update_where, select_where, scalar, find}
use ai_powered_codebase_engi.Runs.Model.{
  Text, Mode, keyword, hybrid, queued, cancelled, is_active, not_started, HistoryTurn, AnswerRun,
  Conversation, Db,
}
use ai_powered_codebase_engi.Runs.Events.{append_state}
use ai_powered_codebase_engi.Runs.Conversation

-- The conversation of a run is the user's, and its repository too.
unfoldable pub owns_run : ℕ → ℕ → Db → AnswerRun → Bool
unfolding Conversation.owns
owns_run user_id id db r =
    r.id == id && any (Conversation.owns user_id r.conversation_id db) db.conversations

unfoldable pub run_or_not_found : Option AnswerRun → Result AnswerRun
run_or_not_found none = err (app_error "not_found" 404)
run_or_not_found (some r) = ok r

unfoldable pub owned : ℕ → ℕ → Db → Result AnswerRun
unfolding owns_run run_or_not_found
owned user_id id db = run_or_not_found (scalar (select_where (owns_run user_id id db) db.runs))

unfoldable pub cancel_values : ℕ → AnswerRun → AnswerRun
cancel_values now r = record r {
  status = cancelled;
  finished_at = some now;
  lease_token = none;
  lease_expires_at = none;
}

unfoldable pub cancellable : ℕ → AnswerRun → Bool
cancellable id r = r.id == id && is_active r.status

-- What follows the update: the event is written in the same transaction.
unfoldable pub cancelled_run : ℕ → ℕ → Option AnswerRun → Db → Result Db
cancelled_run user_id id none updated = err (app_error "answer_terminal" 409)
cancelled_run user_id id (some r) updated = ok (append_state id updated)

-- `cancel`; the response is read from the database that is returned.
unfoldable pub cancel : ℕ → ℕ → ℕ → Db → Result Db
unfolding owned cancel_values cancellable cancelled_run
cancel now user_id id db = do
  run ← owned user_id id db
  cancelled_run user_id id (scalar (select_where (cancellable id) db.runs))
      (record db { runs = update_where (cancellable id) (cancel_values now) db.runs })

-- `RunRequest`
pub record RunRequest : Type 0 where
  pub request_key : ℕ
  pub question : Text
  pub mode : Mode

-- What `submit` asks of the configuration and of the other services: the source index and the
-- search modes of services/search_preparation.py, the rate limiter, the history snapshot of
-- repositories/conversation_history.py, and SHA-256 of the request.
pub record Services : Type 0 where
  pub answers_enabled : Bool
  pub embeddings_enabled : Bool
  pub answer_model : String
  pub config_hash : ℕ
  pub source : Result ℕ
  pub keyword_ready : Bool
  pub hybrid_ready : Bool
  pub limiter : Result (Unit {0})
  pub snapshot_history : ℕ → List HistoryTurn
  pub fingerprint : Text → Mode → ℕ

unfoldable pub same_key : ℕ → ℕ → AnswerRun → Bool
same_key conversation_id key r = r.conversation_id == conversation_id && r.request_key == key

unfoldable pub replay : AnswerRun → ℕ → Result AnswerRun
replay run fingerprint =
    if run.request_hash == fingerprint then ok run else err (app_error "idempotency_conflict" 409)

unfoldable pub active_in : ℕ → AnswerRun → Bool
active_in conversation_id r = r.conversation_id == conversation_id && is_active r.status

search_missing : Services → Mode → Bool
search_missing s keyword = not s.keyword_ready
search_missing s hybrid = not s.hybrid_ready || not s.embeddings_enabled

-- The columns of a new run, by the model's defaults.
unfoldable pub new_run : ℕ → ℕ → Services → ℕ → RunRequest → ℕ → AnswerRun
new_run now id s conversation_id request source_id = record {
  id = id;
  conversation_id = conversation_id;
  request_key = request.request_key;
  request_hash = s.fingerprint request.question request.mode;
  question = request.question;
  preview_text = [];
  preview_revision = 0;
  history = s.snapshot_history source_id;
  mode = request.mode;
  source_index_id = source_id;
  config_hash = s.config_hash;
  model = s.answer_model;
  status = queued;
  receipt_version = 1;
  usage_state = not_started;
  input_tokens = none;
  output_tokens = none;
  error_code = none;
  error_message = none;
  lease_token = none;
  lease_expires_at = none;
  last_dispatched_at = none;
  started_at = none;
  finished_at = none;
  created_at = now;
}

message_count : Option Conversation → Result ℕ
message_count none = err (app_error "not_found" 404)
message_count (some c) = ok c.message_count

-- The checks before the insertion, in the source's order. They end with the source's id.
unfoldable pub admit : Services → ℕ → RunRequest → Db → Result ℕ
unfolding active_in search_missing message_count
admit s conversation_id request db = do
  raise_if (not s.answers_enabled) (app_error "answers_disabled" 409)
  count ← message_count (find (λ (c : Conversation). c.id) conversation_id db.conversations)
  raise_if (leb 200 count) (app_error "conversation_full" 409)
  raise_if (any (active_in conversation_id) db.runs) (app_error "answer_active" 409)
  raise_if (leb 1000 (length (select_where (λ r. r.conversation_id == conversation_id) db.runs)))
      (app_error "run_limit" 409)
  source_id ← s.source
  raise_if (search_missing s request.mode) (app_error "search_required" 409)
  s.limiter
  ok source_id

-- The unique indexes `uq_answer_run_request` and `uq_answer_run_active`
unfoldable pub violates : AnswerRun → List AnswerRun → Bool
unfolding same_key active_in
violates run runs =
    any (same_key run.conversation_id run.request_key) runs
    || (is_active run.status && any (active_in run.conversation_id) runs)

-- What `submit` returns: the run, whether it is new, and the database.
pub record Submission : Type 0 where
  pub run : AnswerRun
  pub created : Bool
  pub db : Db

-- A replay changes nothing.
abbrev pub replayed : Db → AnswerRun → Result Submission
replayed db run = ok (record { run = run; created = false; db = db })

-- After an `IntegrityError` the request is answered by the run that won.
unfoldable pub lost_race : Option AnswerRun → ℕ → Db → Result Submission
unfolding replay
lost_race none fingerprint db = err (app_error "answer_active" 409)
lost_race (some run) fingerprint db = replay run fingerprint >>= replayed db

-- The insertion with its first event.
unfoldable pub insert_run : ℕ → AnswerRun → Db → Result Submission
unfolding violates lost_race
insert_run fingerprint run db =
    if violates run db.runs
    then lost_race (scalar (select_where (same_key run.conversation_id run.request_key) db.runs))
        fingerprint db
    else ok (record {
      run = run;
      created = true;
      db = append_state run.id (record db { runs = db.runs ++ (run ∷ []) });
    })

unfoldable pub create_run :
    ℕ → ℕ → Services → ℕ → RunRequest → Option AnswerRun → Db → Result Submission
unfolding replay admit new_run insert_run
create_run now id s conversation_id request (some existing) db =
    replay existing (s.fingerprint request.question request.mode) >>= replayed db
create_run now id s conversation_id request none db = do
  source_id ← admit s conversation_id request db
  insert_run (s.fingerprint request.question request.mode)
      (new_run now id s conversation_id request source_id) db

-- `submit`; `id` is the new UUID.
unfoldable pub submit : ℕ → ℕ → Services → ℕ → ℕ → RunRequest → Db → Result Submission
unfolding create_run same_key
submit now id s user_id conversation_id request db = do
  conversation ← Conversation.owned user_id conversation_id db
  create_run now id s conversation_id request
      (scalar (select_where (same_key conversation_id request.request_key) db.runs)) db
