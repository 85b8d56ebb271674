-- ===== src/Mutation.antt =====
-- The statements that every mutation ends with (internal/adapter/sqlite/agent_connection.go and
-- preparation.go): the look-up of a receipt, the next change_sequence, the receipt and the event.
pub mod Receipts
use tejun.Prelude.{
  ℕ, ◌+◌, String, Bool, true, false, Option, none, some, List, [], ◌∷◌, ◌==◌, ◌+s◌, ◌&&◌, ◌||◌, not,
  nat_eq, if◌then◌else◌, ◌≡◌,
}
use tejun.Shared.{Error, app, no_rows, plain, app_error}
use tejun.Sql.Tx.{
  Result, ok, err, Tx, pure, fail, gets, modify, lift, attempt, require, fail_if, ◌>>=◌, ◌>>◌,
}
use tejun.Sql.Table.{find, insert_row}
use tejun.Database.{Db}
use tejun.Database.Time.{Time, format}
use tejun.Database.Rows.{Procedure, ProcedureStatus, Project}
use tejun.Database.Ledger.{
  MutationReceipt, MutationResult, OutboxEvent, Stored, Receipt, EventData, Outbox,
}

-- requestHash: SHA-256 of the parts, each with a zero byte after it, in hexadecimal. `sha256` stands
-- for the hash of the standard library.
unfoldable pub framed : List String → String
framed [] = ""
framed (part ∷ parts) = part +s "\0" +s framed parts

abbrev pub request_hash : (String → String) → List String → String
request_hash sha256 parts = sha256 (framed parts)

unfoldable pub request_hash_version : String → ℕ
request_hash_version scope =
    if scope == "create_project"
      || scope == "duplicate_project"
      || scope == "create_revision"
      || scope == "archive_project"
      || scope == "delete_project"
      || scope == "reconnect_project_session"
      || scope == "export_procedure"
    then 1
    else 0

abbrev pub same_receipt : String → String → Receipt → Bool
same_receipt scope operation_id r = r.scope == scope && r.operation_id == operation_id

-- The tests on a receipt that was found. `decode` is json.Unmarshal at the result's type.
unfoldable pub check_receipt :
    {T : Type 0}
    → (Stored → Option (MutationResult T))
    → String
    → String
    → Option Receipt
    → Result (Option (MutationResult T))
check_receipt decode scope hash none = ok none
check_receipt decode scope hash (some r) =
    if not (r.request_hash == hash)
      || not (nat_eq r.request_hash_version (request_hash_version scope))
    then err (app_error "operation_id_conflict" "operationIdが別の入力で使用されています")
    else elim (decode r.result) [
      | none ↦ err (plain "json: cannot unmarshal")
      | some result ↦ ok (some result)
    ]

unfoldable pub existing_result :
    {T : Type 0}
    → (Stored → Option (MutationResult T))
    → String
    → String
    → String
    → Tx Db (Option (MutationResult T))
existing_result decode scope operation_id hash =
    attempt
      (λ db. check_receipt decode scope hash (find (same_receipt scope operation_id) db.receipts))

-- UPDATE app_settings SET change_sequence = change_sequence + 1 ... RETURNING change_sequence
unfoldable pub next_sequence : Tx Db ℕ
next_sequence = do
  modify (λ db. record db { change_sequence = db.change_sequence + 1 })
  gets (λ db. db.change_sequence)

unfoldable pub status_text : ProcedureStatus → String
status_text ProcedureStatus.generating = "generating"
status_text ProcedureStatus.draft = "draft"
status_text ProcedureStatus.checking = "checking"
status_text ProcedureStatus.completed = "completed"
status_text ProcedureStatus.failed = "failed"

unfoldable pub procedure_data : String → Option Procedure → Result EventData
procedure_data id none = err no_rows
procedure_data id (some p) =
    ok (EventData.procedure_updated p.project_id (status_text p.status) p.revision)

unfoldable pub project_data : String → Option Project → Result EventData
project_data id none = err no_rows
project_data id (some p) = ok (EventData.project_changed id p.status p.current_stage)

-- eventData, for "procedure.updated", "project.deleted", "project.changed" and the names of its
-- default branch.
unfoldable pub event_data : OutboxEvent → Db → Result EventData
unfolding procedure_data project_data status_text
event_data event db =
    if event.name == "procedure.updated"
    then procedure_data event.aggregate_id
        (find (λ (p : Procedure). p.procedure_id == event.aggregate_id) db.procedures)
    else if event.name == "project.deleted"
    then ok (EventData.project_deleted event.aggregate_id)
    else if event.name == "project.changed"
    then project_data event.aggregate_id
        (find (λ (p : Project). p.project_id == event.aggregate_id) db.projects)
    else ok EventData.plain

abbrev pub outbox_row : OutboxEvent → ℕ → EventData → Outbox
outbox_row event sequence payload = record {
  event_id = event.id;
  name = event.name;
  emitted_at = format event.emitted_at;
  aggregate_type = event.aggregate_type;
  aggregate_id = event.aggregate_id;
  change_sequence = sequence;
  stream_key = event.aggregate_type +s ":" +s event.aggregate_id;
  stream_revision = sequence;
  event_data = payload;
}

unfoldable pub insert_outbox : OutboxEvent → ℕ → Tx Db Unit
insert_outbox event sequence = do
  payload ← attempt (λ db. event_data event db)
  rows ← attempt (λ db.
      insert_row (λ (o : Outbox). o.event_id == event.id) (outbox_row event sequence payload)
        db.outbox)
  modify (λ db. record db { outbox = rows })

abbrev pub receipt_row : String → String → String → Stored → Time → Receipt
receipt_row scope operation_id hash stored committed_at = record {
  scope = scope;
  operation_id = operation_id;
  request_hash = hash;
  request_hash_version = request_hash_version scope;
  result = stored;
  committed_at = format committed_at;
}

unfoldable pub insert_receipt : Receipt → Tx Db Unit
insert_receipt r = do
  rows ← attempt (λ db. insert_row (same_receipt r.scope r.operation_id) r db.receipts)
  modify (λ db. record db { receipts = rows })

-- saveMutation. `encode` is json.Marshal at the result's type.
unfoldable pub save_mutation :
    {T : Type 0}
    → (MutationResult T → Stored)
    → String
    → String
    → String
    → MutationResult T
    → OutboxEvent
    → ℕ
    → Tx Db Unit
save_mutation encode scope operation_id hash result event sequence = do
  insert_receipt (receipt_row scope operation_id hash (encode result) result.receipt.committed_at)
  insert_outbox event sequence

-- mutation of preparation.go: the result with its receipt, and all three statements.
unfoldable pub mutation :
    {T : Type 0}
    → (MutationResult T → Stored)
    → String
    → String
    → String
    → T
    → Time
    → OutboxEvent
    → Tx Db (MutationResult T)
mutation {T} encode scope operation_id hash value at event = do
  let out : MutationResult T = record {
    value = value;
    receipt = record { operation_id = operation_id; committed_at = at; change_sequence = 0 };
  }
  sequence ← next_sequence
  save_mutation encode scope operation_id hash out event sequence
  pure out
