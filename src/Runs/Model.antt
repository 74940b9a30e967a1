-- ===== src/Runs/Model.antt =====
-- The rows of models/answer_run.py, models/run_event.py and models/conversation.py, and the part of
-- the database that an answer run touches. Costs, which are floats, are left out.
use ai_powered_codebase_engi.Prelude.{ℕ, String, Bool, true, false, Option, List}
use ai_powered_codebase_engi.Jobs.Model.{Repository}

-- A text is the list of its code points.
abbrev pub Text : Type 0
Text = List ℕ

pub data Status : Type 0 where
  queued running completed failed cancelled : Status

abbrev pub is_queued : Status → Bool
is_queued queued = true
is_queued _ = false

abbrev pub is_running : Status → Bool
is_running running = true
is_running _ = false

abbrev pub is_completed : Status → Bool
is_completed completed = true
is_completed _ = false

-- `status in {"completed", "failed", "cancelled"}`
abbrev pub is_terminal : Status → Bool
is_terminal queued = false
is_terminal running = false
is_terminal _ = true

-- `status.in_(["queued", "running"])`
abbrev pub is_active : Status → Bool
is_active queued = true
is_active running = true
is_active _ = false

pub data UsageState : Type 0 where
  not_started unknown recorded : UsageState

pub data Mode : Type 0 where
  keyword hybrid : Mode

-- `HistoryTurn` of generation/history.py
pub record HistoryTurn : Type 0 where
  pub turn_id : ℕ
  pub question : Text
  pub answer : Text

pub record AnswerRun : Type 0 where
  pub id : ℕ
  pub conversation_id : ℕ
  pub request_key : ℕ
  pub request_hash : ℕ
  pub question : Text
  pub preview_text : Text
  pub preview_revision : ℕ
  pub history : List HistoryTurn
  pub mode : Mode
  pub source_index_id : ℕ
  pub config_hash : ℕ
  pub model : String
  pub status : Status
  pub receipt_version : ℕ
  pub usage_state : UsageState
  pub input_tokens : Option ℕ
  pub output_tokens : Option ℕ
  pub error_code : Option String
  pub error_message : Option String
  pub lease_token : Option ℕ
  pub lease_expires_at : Option ℕ
  pub last_dispatched_at : Option ℕ
  pub started_at : Option ℕ
  pub finished_at : Option ℕ
  pub created_at : ℕ

pub record RunEvent : Type 0 where
  pub run_id : ℕ
  pub sequence : ℕ
  pub status : Status

pub record Conversation : Type 0 where
  pub id : ℕ
  pub user_id : ℕ
  pub repository_id : ℕ
  pub message_count : ℕ
  pub updated_at : ℕ

pub data Role : Type 0 where
  user assistant tool : Role

-- The `answer` column is left out: it repeats the response.
pub record Message : Type 0 where
  pub conversation_id : ℕ
  pub turn_id : ℕ
  pub position : ℕ
  pub role : Role
  pub content : Text
  pub token_count : Option ℕ

-- What `AnswerResponse` hands to the transaction that publishes it.
pub record Answer : Type 0 where
  pub answer_id : ℕ
  pub claims : List Text
  pub limitation : Text
  pub model : Option String
  pub input_tokens : ℕ
  pub output_tokens : ℕ

pub record Db : Type 0 where
  pub runs : List AnswerRun
  pub events : List RunEvent
  pub conversations : List Conversation
  pub messages : List Message
  pub repositories : List Repository
