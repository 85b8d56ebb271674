-- ===== src/Permission/Claims.antt =====
-- RegisterPermission and ClaimPermission of internal/adapter/sqlite/execution_permission.go, with the
-- types of internal/application/execution_permission.go.
use tejun.Prelude.{
  ℕ, String, Bool, true, false, Option, none, some, List, [], ◌∷◌, ◌==◌, ◌+s◌, ◌&&◌, ◌||◌, not,
  is_empty, nat_eq, mem_text,
}
use tejun.Shared.{app_error}
use tejun.Sql.Tx.{
  Result, Tx, pure, modify, attempt, require, fail_if, found_or, commit, ◌>>=◌, ◌>>◌,
}
use tejun.Sql.Table.{update_where, exists, find, insert_row}
use tejun.Database.{Db}
use tejun.Database.Time.{Time, format, is_before}
use tejun.Database.Rows.{PermissionState, PermissionOption, Permission}
use tejun.Database.Ledger.{MutationResult, PermissionResponseResult, Stored}
use tejun.Mutation.{
  request_hash, existing_result, next_sequence, insert_outbox, insert_receipt, receipt_row,
}
use tejun.Execution.Statements.{execution_key}

pub record IncomingPermission : Type 0 where
  pub id : String
  pub execution_id : String
  pub session_id : String
  pub run_id : String
  pub options : List PermissionOption
  pub process_generation : ℕ
  pub requested_at : Time
  pub expires_at : Option Time

pub record PermissionClaim : Type 0 where
  pub session_id : String
  pub permission_request_id : String
  pub option_id : String
  pub operation_id : String
  pub process_generation : ℕ
  pub at : Time

abbrev pub as_permission_response : Stored → Option (MutationResult PermissionResponseResult)
as_permission_response (Stored.permission_response r) = some r
as_permission_response _ = none

abbrev pub is_pending : PermissionState → Bool
is_pending PermissionState.pending = true
is_pending _ = false

abbrev pub is_responding : PermissionState → Bool
is_responding PermissionState.responding = true
is_responding _ = false

abbrev pub has_request : String → Permission → Bool
has_request id p = p.permission_request_id == id

abbrev pub update_permissions : (Permission → Bool) → (Permission → Permission) → Tx Db Unit
update_permissions p f = modify (λ db. record db { permissions = update_where p f db.permissions })

-- The loop over incoming.Options: an id is empty or comes twice.
unfoldable pub bad_options : List String → List PermissionOption → Bool
bad_options seen [] = false
bad_options seen (o ∷ options) =
    o.id == "" || mem_text o.id seen || bad_options (o.id ∷ seen) options

abbrev pub permission_updated : String → String → String → String → Time → ℕ → Tx Db Unit
permission_updated request_id state execution_id correlation at sequence =
    insert_outbox
      (record {
        id = request_id +s ":" +s state;
        name = "execution.permission_updated";
        emitted_at = at;
        aggregate_type = "execution";
        aggregate_id = execution_id;
        correlation = correlation;
      })
      sequence

abbrev pub pending_row : IncomingPermission → Permission
pending_row i = record {
  permission_request_id = i.id;
  execution_id = i.execution_id;
  session_id = i.session_id;
  run_id = i.run_id;
  options = i.options;
  process_generation = i.process_generation;
  state = PermissionState.pending;
  selected_option_id = none;
  requested_at = format i.requested_at;
  expires_at = i.expires_at;
  responded_at = none;
}

-- INSERT INTO execution_permissions
unfoldable pub insert_permission : IncomingPermission → Tx Db Unit
insert_permission i = do
  rows ← attempt (λ db. insert_row (has_request i.id) (pending_row i) db.permissions)
  execution_key i.execution_id
  modify (λ db. record db { permissions = rows })

unfoldable pub register_tx : IncomingPermission → Tx Db Unit
register_tx i = do
  fail_if
      (i.id == ""
        || i.execution_id == ""
        || i.session_id == ""
        || nat_eq i.process_generation 0
        || is_empty i.options)
      (app_error "validation_failed" "permissionの入力が不正です")
  fail_if (bad_options [] i.options) (app_error "validation_failed" "permission optionが不正です")
  insert_permission i
  sequence ← next_sequence
  permission_updated i.id "pending" i.execution_id "" i.requested_at sequence

unfoldable pub register_permission : IncomingPermission → Db → Result (Unit {0}) × Db
register_permission i = commit (register_tx i)

-- expiresAt.Valid && !claim.At.Before(at)
abbrev pub is_expired : Option Time → Time → Bool
is_expired none at = false
is_expired (some t) at = not (is_before at t)

-- The tests of ClaimPermission on the row that it found.
unfoldable pub admit_claim : PermissionClaim → Permission → Tx Db Unit
admit_claim c p = do
  fail_if (not (is_pending p.state) || not (nat_eq p.process_generation c.process_generation))
      (app_error "invalid_state" "回答可能なpermissionではありません")
  fail_if (is_expired p.expires_at c.at) (app_error "invalid_state" "permissionの期限が切れています")
  fail_if (not (exists (λ (o : PermissionOption). o.id == c.option_id) p.options))
      (app_error "validation_failed" "提示されていないoptionです")

-- UPDATE execution_permissions SET state = 'responding' ... AND state = 'pending'
unfoldable pub take_pending : PermissionClaim → Tx Db Unit
take_pending c =
    update_permissions (λ p. has_request c.permission_request_id p && is_pending p.state)
      (λ p. record p { state = PermissionState.responding; selected_option_id = some c.option_id })

abbrev pub responding_result : PermissionClaim → MutationResult PermissionResponseResult
responding_result c = record {
  value = record {
    permission_request_id = c.permission_request_id;
    status = "responding";
    selected_option_id = c.option_id;
    responded_at = none;
  };
  receipt = record { operation_id = c.operation_id; committed_at = c.at; change_sequence = 0 };
}

module _ (sha256 : String → String) where
  abbrev pub claim_hash : PermissionClaim → String
  claim_hash c = request_hash sha256 (c.session_id ∷ c.permission_request_id ∷ c.option_id ∷ [])

  unfoldable pub claim_new :
      PermissionClaim → Tx Db (MutationResult PermissionResponseResult × Bool)
  claim_new c = do
    p ←
        require
          (λ db.
            find
              (λ (q : Permission).
                has_request c.permission_request_id q && q.session_id == c.session_id)
              db.permissions)
          (app_error "not_found" "permissionがありません")
    admit_claim c p
    take_pending c
    insert_receipt (
        receipt_row "permission_response" c.operation_id (claim_hash c)
          (Stored.permission_response (responding_result c)) c.at)
    pure (responding_result c, true)

  unfoldable pub claim_permission_tx :
      PermissionClaim → Tx Db (MutationResult PermissionResponseResult × Bool)
  claim_permission_tx c = do
    replayed ←
        existing_result as_permission_response "permission_response" c.operation_id (claim_hash c)
    found_or replayed (λ r. pure (r, false)) (claim_new c)

  -- ClaimPermission: the result, and whether the answer has to be sent.
  unfoldable pub claim_permission :
      PermissionClaim → Db → Result (MutationResult PermissionResponseResult × Bool) × Db
  claim_permission c = commit (claim_permission_tx c)
