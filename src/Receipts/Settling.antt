-- ===== src/Receipts/Settling.antt =====
-- `finish` of services/usage_receipts.py, once and again.
use ai_powered_codebase_engi.Prelude.{
  ℕ, ◌≡◌, refl, ap, ◌∙◌, true, false, Option, none, some, List, arith, All, ==_iff, [], ◌∷◌,
}
use ai_powered_codebase_engi.Prelude.Result.{ok}
use ai_powered_codebase_engi.Sql.{
  update_where, update_where-none, find, find-key, find-update_where,
}
use ai_powered_codebase_engi.Receipts.Model.{
  Receipt, receipt_id, is_open, settle, cost_of, record_usage, finish,
}

-- After the update no row with the id waits for its usage.
closed :
    (now id cost input_tokens output_tokens : ℕ) (rs : List Receipt)
    → All
        (λ r. is_open id r ≡ false)
        (update_where (is_open id) (settle now cost input_tokens output_tokens) rs)
unfolding update_where is_open settle
closed now id cost input_tokens output_tokens [] = tt
closed now id cost input_tokens output_tokens (r ∷ rs) =
    (ground arith, closed now id cost input_tokens output_tokens rs)

unchanged :
    (now id input_tokens output_tokens : ℕ) (o : Option Receipt) (rs : List Receipt)
    → All (λ r. is_open id r ≡ false) rs
    → record_usage now id input_tokens output_tokens o rs ≡ rs
unfolding record_usage
unchanged now id input_tokens output_tokens none rs h = refl
unchanged now id input_tokens output_tokens (some row) rs h = update_where-none (is_open id) _ rs h

settled :
    (now id cost input_tokens output_tokens : ℕ) (rs : List Receipt) {row : Receipt}
    → find receipt_id id rs ≡ some row
    → row.input_tokens ≡ none
    → find receipt_id id (update_where (is_open id) (settle now cost input_tokens output_tokens) rs)
      ≡ some (settle now cost input_tokens output_tokens row)
unfolding is_open
settled now id cost input_tokens output_tokens rs {row} found waiting =
    let same = find-key receipt_id id rs found in
    let open_now : is_open id row ≡ true = rw (waiting, (==_iff row.id id).1 same) refl in
    find-update_where receipt_id (is_open id) (settle now cost input_tokens output_tokens)
      (λ r. unfold settle in refl) id rs
    ∙ rw (found, open_now) refl

-- For a receipt that waits for its usage `finish` records the tokens, the exact cost and the time in
-- that row, and every later `finish` of the receipt, with whatever numbers, leaves the table as it
-- is.
pub finish_settles_once :
    (now id input_tokens output_tokens : ℕ) (rs : List Receipt) (row : Receipt)
    → find receipt_id id rs ≡ some row
    → row.input_tokens ≡ none
    → (after : List Receipt) × (finish now id (some input_tokens) (some output_tokens) rs
        ≡ ok after)
      × (find receipt_id id after
          ≡ some
              (settle now (cost_of input_tokens output_tokens row) input_tokens output_tokens row))
      × ((later i o : ℕ) → finish later id (some i) (some o) after ≡ ok after)
unfolding finish
finish_settles_once now id input_tokens output_tokens rs row found waiting =
    let cost = cost_of input_tokens output_tokens row in
    let after = update_where (is_open id) (settle now cost input_tokens output_tokens) rs in
    (
      after,
      (rw found (unfold record_usage in refl)),
      settled now id cost input_tokens output_tokens rs found waiting,
      λ later i o. ap ok (
          unchanged later id i o (find receipt_id id after) after
            (closed now id cost input_tokens output_tokens rs)),
    )
