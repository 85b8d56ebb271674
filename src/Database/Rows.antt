-- ===== src/Database/Rows.antt =====
-- The rows of the tables, after migration/000002, 000003, 000006, 000009, 000010 and 000011. A column
-- with a CHECK (... IN ...) is a data type of its values, a nullable column an Option.
use tejun.Database.Time.{Time}
use tejun.Prelude.{ℕ, Bool, String, Option, List}

-- state of execution_agent_jobs, execution_runs and procedure_revision_jobs
pub data JobState : Type 0 where
  queued running cancellation_requested completed failed cancelled interrupted : JobState

-- ai_status of execution_checks
pub data AiStatus : Type 0 where
  pending queued running completed failed : AiStatus

-- human_status of execution_checks
pub data HumanStatus : Type 0 where
  pending completed : HumanStatus

-- status of executions
pub data ExecutionStatus : Type 0 where
  active completed cancelled : ExecutionStatus

-- kind of execution_agent_jobs
pub data JobKind : Type 0 where
  checks message : JobKind

-- state of execution_permissions
pub data PermissionState : Type 0 where
  pending responding sent expired failed : PermissionState

-- status of procedures
pub data ProcedureStatus : Type 0 where
  generating draft checking completed failed : ProcedureStatus

-- status of projects
pub data ProjectStatus : Type 0 where
  preparing ai_running human_waiting procedure_editing completed error archived : ProjectStatus

-- current_stage of projects
pub data Stage : Type 0 where
  preparation execution procedure completed : Stage

-- status of evidence_blobs
pub data BlobStatus : Type 0 where
  pending available corrupt : BlobStatus

pub record Connection : Type 0 where
  pub connection_id : String
  pub command : String
  pub args : List String
  pub transport : String

pub record Project : Type 0 where
  pub project_id : String
  pub lineage_id : String
  pub source_project_id : Option String
  pub source_procedure_id : Option String
  pub connection_id : String
  pub name : String
  pub description : String
  pub workspace_path : String
  pub status : ProjectStatus
  pub current_stage : Stage
  pub current_session_id : Option String
  pub revision : ℕ
  pub created_at : ℕ
  pub updated_at : ℕ
  pub completed_at : Option ℕ
  pub archived_at : Option ℕ
  pub error_code : Option String

pub record Session : Type 0 where
  pub session_id : String
  pub agent_session_id : String
  pub previous_session_id : String
  pub project_id : String
  pub state : String
  pub revision : ℕ
  pub started_at : String
  pub disconnected_at : Option String

pub record Execution : Type 0 where
  pub execution_id : String
  pub project_id : String
  pub session_id : String
  pub status : ExecutionStatus
  pub active_run_id : Option String
  pub revision : ℕ
  pub started_at : String
  pub completed_at : Option String

pub record Check : Type 0 where
  pub execution_id : String
  pub check_id : String
  pub sequence : ℕ
  pub title : String
  pub instruction : String
  pub expected_result : String
  pub suggested_command : String
  pub ai_required : Bool
  pub human_required : Bool
  pub ai_status : AiStatus
  pub human_status : HumanStatus
  pub human_evidence_requirement : String
  pub ai_checked_at : Option String
  pub human_checked_at : Option String
  pub ai_failure_summary : String

pub record Run : Type 0 where
  pub run_id : String
  pub execution_id : String
  pub session_id : String
  pub job_id : String
  pub state : JobState
  pub accepted_at : String
  pub completed_at : Option String

pub record RunCheck : Type 0 where
  pub run_id : String
  pub check_id : String

pub record Turn : Type 0 where
  pub turn_id : String
  pub execution_id : String
  pub role : String
  pub text : String
  pub status : String
  pub created_at : String

pub record Job : Type 0 where
  pub job_id : String
  pub execution_id : String
  pub run_id : Option String
  pub turn_id : Option String
  pub session_id : String
  pub kind : JobKind
  pub state : JobState
  pub prompt_text : String
  pub accepted_at : String
  pub completed_at : Option String

pub record Evidence : Type 0 where
  pub evidence_id : String
  pub execution_id : String
  pub check_id : String
  pub actor : String
  pub kind : String
  pub text : String
  pub display_name : String
  pub blob_hash : Option String
  pub created_at : String

-- evidence_blobs
pub record Blob : Type 0 where
  pub hash : String
  pub size : ℕ
  pub mime : String
  pub relative_path : String
  pub status : BlobStatus
  pub ref_count : ℕ

pub record PermissionOption : Type 0 where
  pub id : String
  pub name : String
  pub kind : String

pub record Permission : Type 0 where
  pub permission_request_id : String
  pub execution_id : String
  pub session_id : String
  pub run_id : String
  pub options : List PermissionOption
  pub process_generation : ℕ
  pub state : PermissionState
  pub selected_option_id : Option String
  pub requested_at : String
  pub expires_at : Option Time
  pub responded_at : Option String

pub record Procedure : Type 0 where
  pub procedure_id : String
  pub project_id : String
  pub document : String
  pub status : ProcedureStatus
  pub revision : ℕ
  pub created_at : ℕ
  pub updated_at : ℕ
  pub completed_at : Option ℕ

-- procedure_sources
pub record ProcedureSource : Type 0 where
  pub procedure_id : String
  pub execution_id : String
  pub execution_revision : ℕ
  pub check_count : ℕ
  pub evidence_count : ℕ
  pub captured_at : ℕ

-- procedure_source_evidence
pub record SourceEvidence : Type 0 where
  pub procedure_id : String
  pub evidence_id : String

pub record ProcedureTurn : Type 0 where
  pub turn_id : String
  pub procedure_id : String
  pub role : String
  pub content : String
  pub status : String
  pub created_at : ℕ

pub record RevisionJob : Type 0 where
  pub job_id : String
  pub procedure_id : String
  pub turn_id : String
  pub session_id : String
  pub state : JobState
  pub prompt_text : String
  pub expected_revision : ℕ
  pub accepted_at : ℕ
  pub completed_at : Option ℕ
  pub error_code : Option String
