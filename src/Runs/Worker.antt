-- ===== src/Runs/Worker.antt =====
-- The transactions of `run_answer` and `fail_run` in jobs/answer_run.py, and of the preview writer in
-- jobs/answer_preview.py.
use ai_powered_codebase_engi.Prelude.{
  ℕ, ◌+◌, ◌&&◌, String, Bool, Option, none, some, ltb, ◌==◌, equals, after,
}
use ai_powered_codebase_engi.Prelude.Result.{◌>>=◌, Result, ok, err, app_error}
use ai_powered_codebase_engi.Sql.{update_where, select_where, scalar}
use ai_powered_codebase_engi.Jobs.Model.{seconds}
use ai_powered_codebase_engi.Runs.Model.{
  Text, running, completed, failed, is_queued, is_running, unknown, recorded, AnswerRun,
  Conversation, Answer, Db,
}
use ai_powered_codebase_engi.Runs.Events.{append_state}
use ai_powered_codebase_engi.Runs.Conversation.{append_pair}

-- `update(AnswerRun).where(p).values(...)`, then `append_state` if a row was returned
unfoldable pub changed : ℕ → Option AnswerRun → Db → Db → Db
changed id none db updated = db
changed id (some r) db updated = append_state id updated

unfoldable pub transition : ℕ → (AnswerRun → Bool) → (AnswerRun → AnswerRun) → Db → Db
unfolding changed
transition id p f db =
    changed id (scalar (select_where p db.runs)) db (record db { runs = update_where p f db.runs })

-- A run that waited an hour is not started.
unfoldable pub startable : ℕ → ℕ → AnswerRun → Bool
startable now id r = r.id == id && (is_queued r.status && ltb now (r.created_at + seconds 3600))

unfoldable pub start_values : ℕ → ℕ → AnswerRun → AnswerRun
start_values now token r = record r {
  status = running;
  usage_state = unknown;
  started_at = some now;
  lease_token = some token;
  lease_expires_at = some (now + seconds 180);
}

-- The first transaction: a duplicate delivery starts nothing.
unfoldable pub start_run : ℕ → ℕ → ℕ → Db → Db
unfolding transition startable start_values
start_run now token id = transition id (startable now id) (start_values now token)

unfoldable pub holds : ℕ → ℕ → AnswerRun → Bool
holds id token r = r.id == id && (is_running r.status && equals r.lease_token token)

unfoldable pub fail_values : ℕ → String → String → AnswerRun → AnswerRun
fail_values now code message r = record r {
  status = failed;
  finished_at = some now;
  lease_token = none;
  lease_expires_at = none;
  error_code = some code;
  error_message = some message;
}

-- `fail_run`
unfoldable pub fail_run : ℕ → ℕ → ℕ → String → String → Db → Db
unfolding transition holds fail_values
fail_run now id token code message = transition id (holds id token) (fail_values now code message)

unfoldable pub holds_lease : ℕ → ℕ → ℕ → AnswerRun → Bool
holds_lease now id token r =
    r.id == id
    && (is_running r.status && (equals r.lease_token token && after r.lease_expires_at now))

unfoldable pub completed_values : ℕ → Answer → AnswerRun → AnswerRun
completed_values now answer r = record r {
  status = completed;
  usage_state = recorded;
  input_tokens = some answer.input_tokens;
  output_tokens = some answer.output_tokens;
  finished_at = some now;
  lease_token = none;
  lease_expires_at = none;
}

-- The last transaction: the answer takes the run's id, and state, event and both messages are
-- committed together. Without the lease nothing is.
unfoldable pub publish_pair :
    ℕ → ℕ → Conversation → Text → Answer → Option AnswerRun → Db → Db → Result Db
publish_pair now id conversation question answer none db updated = ok db
publish_pair now id conversation question answer (some r) db updated = do
  stored ←
      append_pair now conversation.user_id conversation.id question
        (record answer { answer_id = id }) updated
  ok (append_state id stored)

unfoldable pub publish_answer : ℕ → ℕ → ℕ → Conversation → Text → Answer → Db → Result Db
unfolding publish_pair holds_lease completed_values
publish_answer now id token conversation question answer db =
    publish_pair now id conversation question answer
      (scalar (select_where (holds_lease now id token) db.runs)) db
      (record db {
        runs = update_where (holds_lease now id token) (completed_values now answer) db.runs;
      })

-- The update of `PreviewWriter.delta`
unfoldable pub previewing : ℕ → ℕ → ℕ → AnswerRun → Bool
unfolding holds_lease
previewing now id token r = holds_lease now id token r && ltb r.preview_revision 256

unfoldable pub preview_values : Text → AnswerRun → AnswerRun
preview_values text r = record r { preview_text = text; preview_revision = r.preview_revision + 1 }

unfoldable pub accepted : Option AnswerRun → Db → Result Db
accepted none updated = err (app_error "answer_stopped" 409)
accepted (some r) updated = ok updated

unfoldable pub write_preview : ℕ → ℕ → ℕ → Text → Db → Result Db
unfolding previewing preview_values accepted
write_preview now id token text db =
    accepted (scalar (select_where (previewing now id token) db.runs))
      (record db { runs = update_where (previewing now id token) (preview_values text) db.runs })
