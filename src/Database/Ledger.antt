-- ===== src/Database/Ledger.antt =====
-- What a mutation leaves besides its rows: the receipt that makes a repeated operation id harmless,
-- the event of the outbox, and the counter change_sequence (internal/adapter/sqlite/
-- agent_connection.go, with the types of internal/application).
use tejun.Prelude.{ℕ, String, Bool, Option, List}
use tejun.Database.Time.{Time}
use tejun.Database.Rows.{ProcedureStatus, ProjectStatus, Stage}
use tejun.Domain.Integrity.{Document, Integrity}

pub record MutationReceipt : Type 0 where
  pub operation_id : String
  pub committed_at : Time
  pub change_sequence : ℕ

pub record MutationResult (T : Type 0) : Type 0 where
  pub value : T
  pub receipt : MutationReceipt

pub record OutboxEvent : Type 0 where
  pub id : String
  pub name : String
  pub emitted_at : Time
  pub aggregate_type : String
  pub aggregate_id : String
  pub correlation : String

pub record ExecutionJobAccepted : Type 0 where
  pub execution_id : String
  pub run_id : String
  pub turn_id : String
  pub session_id : String
  pub job_id : String
  pub accepted_at : Time
  pub targeted_check_ids : List String

pub record CancellationAccepted : Type 0 where
  pub job_id : String
  pub target_status : String
  pub requested_at : Time
  pub mechanism : String

pub record AcceptedTurn : Type 0 where
  pub session_id : String
  pub turn_id : String
  pub job_id : String
  pub accepted_at : Time

pub record PermissionResponseResult : Type 0 where
  pub permission_request_id : String
  pub status : String
  pub selected_option_id : String
  pub responded_at : Option Time

pub record ProcedureSaved : Type 0 where
  pub procedure_id : String
  pub revision : ℕ
  pub document : Document
  pub integrity : Integrity
  pub updated_at : Time

pub record ProcedureCompleted : Type 0 where
  pub procedure_id : String
  pub revision : ℕ
  pub status : ProcedureStatus
  pub completed_at : Time
  pub project_id : String
  pub project_revision : ℕ

pub record CreatedProject : Type 0 where
  pub project_id : String
  pub revision : ℕ
  pub status : ProjectStatus
  pub current_stage : String
  pub next_route : String
  pub created_at : Time

pub record ArchivedProject : Type 0 where
  pub project_id : String
  pub revision : ℕ
  pub archived_at : Time

-- ProcedureGenerationAccepted
pub record GenerationAccepted : Type 0 where
  pub procedure_id : String
  pub next_route : String
  pub accepted_at : Time

pub record DeletedProject : Type 0 where
  pub project_id : String
  pub deleted_at : Time

-- result_json: the JSON text of a MutationResult stands for the value that it encodes, at one of
-- the types that the modelled scopes store; the scope evidence_pending stores the id of an evidence.
pub data Stored : Type 0 where
  job_accepted : MutationResult ExecutionJobAccepted → Stored
  job_cancelled : MutationResult Bool → Stored
  cancellation : MutationResult CancellationAccepted → Stored
  accepted_turn : MutationResult AcceptedTurn → Stored
  permission_response : MutationResult PermissionResponseResult → Stored
  procedure_saved : MutationResult ProcedureSaved → Stored
  procedure_completed : MutationResult ProcedureCompleted → Stored
  created_project : MutationResult CreatedProject → Stored
  archived_project : MutationResult ArchivedProject → Stored
  deleted_project : MutationResult DeletedProject → Stored
  generation_accepted : MutationResult GenerationAccepted → Stored
  pending_evidence : String → Stored

-- A row of operation_receipts.
pub record Receipt : Type 0 where
  pub scope : String
  pub operation_id : String
  pub request_hash : String
  pub request_hash_version : ℕ
  pub result : Stored
  pub committed_at : String

-- correlation and payload_json of an event, for the names that the modelled code emits.
pub data EventData : Type 0 where
  plain : EventData
  procedure_updated : String → String → ℕ → EventData
  project_changed : String → ProjectStatus → Stage → EventData
  project_deleted : String → EventData

-- A row of event_outbox.
pub record Outbox : Type 0 where
  pub event_id : String
  pub name : String
  pub emitted_at : String
  pub aggregate_type : String
  pub aggregate_id : String
  pub change_sequence : ℕ
  pub stream_key : String
  pub stream_revision : ℕ
  pub event_data : EventData
