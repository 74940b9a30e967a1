-- ===== src/Receipts/Model.antt =====
-- `begin` and `finish` of services/usage_receipts.py over the rows of models/usage_receipt.py. A
-- rate is a decimal, here in its smallest unit; a cost is in a millionth of that unit, before its
-- column rounds it.
use ai_powered_codebase_engi.Prelude.{
  ℕ, ◌+◌, ◌*◌, ◌&&◌, not, String, Bool, true, false, Option, none, some, List, [], ◌∷◌, ◌++◌, ◌==◌,
  if◌then◌else◌, any, is_none, after, equals,
}
use ai_powered_codebase_engi.Prelude.Result.{Result, ok, err, app_error, raise_if, ◌>>◌}
use ai_powered_codebase_engi.Sql.{update_where, find}
use ai_powered_codebase_engi.Runs.Model.{is_running, AnswerRun, Db}
use ai_powered_codebase_engi.Runs.Events.{run_id}

pub data Kind : Type 0 where
  generation query_embedding : Kind

abbrev pub same_kind : Kind → Kind → Bool
same_kind generation generation = true
same_kind query_embedding query_embedding = true
same_kind _ _ = false

pub record Receipt : Type 0 where
  pub id : ℕ
  pub run_id : ℕ
  pub kind : Kind
  pub model : String
  pub input_rate : ℕ
  pub output_rate : ℕ
  pub input_tokens : Option ℕ
  pub output_tokens : Option ℕ
  pub estimated_cost : Option ℕ
  pub started_at : ℕ
  pub finished_at : Option ℕ

abbrev pub receipt_id : Receipt → ℕ
receipt_id r = r.id

-- The guard of `begin`, negated
unfoldable pub is_leased : ℕ → ℕ → Option AnswerRun → Bool
is_leased now token none = false
is_leased now token (some run) =
    is_running run.status && (equals run.lease_token token && after run.lease_expires_at now)

-- `uq_receipt_run_kind`
unfoldable pub is_of : ℕ → Kind → Receipt → Bool
is_of run kind r = r.run_id == run && same_kind r.kind kind

unfoldable pub new_receipt : ℕ → ℕ → ℕ → Kind → String → ℕ → ℕ → Receipt
new_receipt now id run kind model input_rate output_rate = record {
  id = id;
  run_id = run;
  kind = kind;
  model = model;
  input_rate = input_rate;
  output_rate = output_rate;
  input_tokens = none;
  output_tokens = none;
  estimated_cost = none;
  started_at = now;
  finished_at = none;
}

-- The insertion; the error is SQLAlchemy's, which nothing here catches.
unfoldable pub insert_receipt : Receipt → List Receipt → Result (List Receipt)
unfolding is_of
insert_receipt r receipts =
    if any (is_of r.run_id r.kind) receipts
    then err (app_error "IntegrityError" 500)
    else ok (receipts ++ (r ∷ []))

-- `begin` of the writer of one run and one token; `id` is the new UUID.
unfoldable pub begin :
    ℕ → ℕ → ℕ → ℕ → Kind → String → ℕ → ℕ → Db → List Receipt → Result (List Receipt)
unfolding is_leased new_receipt insert_receipt
begin now token run id kind model input_rate output_rate db receipts = do
  raise_if (not (is_leased now token (find run_id run db.runs))) (app_error "answer_inactive" 409)
  insert_receipt (new_receipt now id run kind model input_rate output_rate) receipts

unfoldable pub is_open : ℕ → Receipt → Bool
is_open id r = r.id == id && is_none r.input_tokens

unfoldable pub settle : ℕ → ℕ → ℕ → ℕ → Receipt → Receipt
settle now cost input_tokens output_tokens r = record r {
  input_tokens = some input_tokens;
  output_tokens = some output_tokens;
  estimated_cost = some cost;
  finished_at = some now;
}

unfoldable pub cost_of : ℕ → ℕ → Receipt → ℕ
cost_of input_tokens output_tokens r = input_tokens * r.input_rate + output_tokens * r.output_rate

-- What follows the checks, for the row that the session got.
unfoldable pub record_usage : ℕ → ℕ → ℕ → ℕ → Option Receipt → List Receipt → List Receipt
unfolding is_open settle cost_of
record_usage now id input_tokens output_tokens none receipts = receipts
record_usage now id input_tokens output_tokens (some row) receipts =
    update_where (is_open id)
      (settle now (cost_of input_tokens output_tokens row) input_tokens output_tokens) receipts

-- `finish`; a reported number is `none` where it is no integer, or a negative one.
unfoldable pub finish : ℕ → ℕ → Option ℕ → Option ℕ → List Receipt → Result (List Receipt)
unfolding record_usage
finish now id (some input_tokens) (some output_tokens) receipts =
    ok (record_usage now id input_tokens output_tokens (find receipt_id id receipts) receipts)
finish now id (some input_tokens) none receipts = err (app_error "usage_invalid" 502)
finish now id none output_tokens receipts = err (app_error "usage_invalid" 502)
