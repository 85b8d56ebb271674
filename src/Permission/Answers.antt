-- ===== src/Permission/Answers.antt =====
-- CompletePermission and FailInterruptedPermissions of internal/adapter/sqlite/execution_permission.go.
use tejun.Prelude.{String, Bool, false, Option, none, some, ◌==◌, ◌&&◌, if◌then◌else◌}
use tejun.Shared.{no_rows, plain}
use tejun.Sql.Tx.{
  Result, ok, err, Tx, pure, gets, modify, lift, require, for_each, commit, ◌>>=◌, ◌>>◌,
}
use tejun.Sql.Table.{update_where, delete_where, select_where, find}
use tejun.Database.{Db}
use tejun.Database.Time.{Time, format}
use tejun.Database.Rows.{PermissionState, Permission}
use tejun.Database.Ledger.{MutationResult, PermissionResponseResult, Stored, Receipt}
use tejun.Mutation.{same_receipt, next_sequence}
use tejun.Permission.Claims.{
  as_permission_response, is_responding, has_request, update_permissions, permission_updated,
}

-- UPDATE ... AND state = 'responding' RETURNING execution_id, selected_option_id
unfoldable pub close_responding : String → PermissionState → Time → Tx Db Permission
close_responding request_id state at = do
  p ←
      require
        (λ db.
          find (λ (q : Permission). has_request request_id q && is_responding q.state)
            db.permissions)
        no_rows
  update_permissions (λ q. has_request request_id q && is_responding q.state)
      (λ q. record q { state = state; responded_at = some (format at) })
  pure p

abbrev pub is_answer_receipt : String → Receipt → Bool
is_answer_receipt operation_id = same_receipt "permission_response" operation_id

-- The result that is stored once the answer was sent; the time of committed_at is that of the
-- result which the claim stored.
abbrev pub sent_result :
    String → String → String → Time → Time → MutationResult PermissionResponseResult
sent_result request_id operation_id option_id at committed_at = record {
  value = record {
    permission_request_id = request_id;
    status = "sent";
    selected_option_id = option_id;
    responded_at = some at;
  };
  receipt = record {
    operation_id = operation_id;
    committed_at = committed_at;
    change_sequence = 0;
  };
}

-- time.Parse of committed_at.
abbrev pub committed_time : Receipt → Result Time
committed_time r = elim (as_permission_response r.result) [
  | none ↦ err (plain "parsing time")
  | some v ↦ ok v.receipt.committed_at
]

-- Scan of selected_option_id into a string.
abbrev pub scan_text : Option String → Result String
scan_text none = err (plain "converting NULL to string is unsupported")
scan_text (some s) = ok s

unfoldable pub store_sent : String → String → String → Time → Tx Db Unit
store_sent request_id operation_id option_id at = do
  r ← require (λ db. find (is_answer_receipt operation_id) db.receipts) no_rows
  committed_at ← lift (committed_time r)
  modify (λ db. record db {
    receipts =
        update_where (is_answer_receipt operation_id)
          (λ s. record s {
            result =
                Stored.permission_response
                  (sent_result request_id operation_id option_id at committed_at);
          })
          db.receipts;
  })

abbrev pub answer_state : Bool → PermissionState
answer_state succeeded = if succeeded then PermissionState.sent else PermissionState.failed

unfoldable pub complete_permission_tx : String → String → Bool → Time → Tx Db Unit
complete_permission_tx request_id operation_id succeeded at = do
  p ← close_responding request_id (answer_state succeeded) at
  option_id ← lift (scan_text p.selected_option_id)
  (if succeeded
      then store_sent request_id operation_id option_id at
      else modify (λ db. record db {
        receipts = delete_where (is_answer_receipt operation_id) db.receipts;
      }))
  sequence ← next_sequence
  permission_updated request_id (if succeeded then "sent" else "failed") p.execution_id operation_id
      at sequence

unfoldable pub complete_permission : String → String → Bool → Time → Db → Result (Unit {0}) × Db
complete_permission request_id operation_id succeeded at =
    commit (complete_permission_tx request_id operation_id succeeded at)

-- scope = 'permission_response' AND json_extract(result_json, '$.Data.PermissionRequestID') = ?
abbrev pub answers_request : String → Receipt → Bool
answers_request request_id r =
    r.scope == "permission_response" && elim (as_permission_response r.result) [
      | none ↦ false
      | some v ↦ v.value.permission_request_id == request_id
    ]

-- The body of the loop of FailInterruptedPermissions.
unfoldable pub fail_permission : Time → Permission → Tx Db Unit
fail_permission at p = do
  update_permissions (has_request p.permission_request_id)
      (λ q. record q { state = PermissionState.failed; responded_at = some (format at) })
  modify (λ db. record db {
    receipts = delete_where (answers_request p.permission_request_id) db.receipts;
  })
  sequence ← next_sequence
  permission_updated p.permission_request_id "failed" p.execution_id "" at sequence

unfoldable pub fail_interrupted_tx : Time → Tx Db Unit
fail_interrupted_tx at = do
  items ← gets (λ db. select_where (λ (p : Permission). is_responding p.state) db.permissions)
  for_each items (fail_permission at)

unfoldable pub fail_interrupted_permissions : Time → Db → Result (Unit {0}) × Db
fail_interrupted_permissions at = commit (fail_interrupted_tx at)
