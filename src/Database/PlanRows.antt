-- ===== src/Database/PlanRows.antt =====
-- The tables of projects, preparations and evidence that only ProjectRepository reads or writes, after
-- migration/000003 to 000006 and 000009, with the columns that it uses.
use tejun.Prelude.{ℕ, String, Bool, Option, List}
use tejun.Database.Rows.{SourceEvidence}

pub record Preparation : Type 0 where
  pub project_id : String
  pub purpose : String
  pub completion_criteria : String
  pub intended_users : String
  pub revision : ℕ

pub record CheckPlan : Type 0 where
  pub project_id : String
  pub revision : ℕ

pub record CheckItem : Type 0 where
  pub check_id : String
  pub project_id : String
  pub sequence : ℕ
  pub title : String
  pub instruction : String
  pub expected_result : String
  pub suggested_command : String
  pub ai_required : Bool
  pub human_required : Bool
  pub human_evidence_requirement : String

-- state of background_jobs
pub data BackgroundState : Type 0 where
  pending running succeeded failed interrupted : BackgroundState

pub record BackgroundJob : Type 0 where
  pub job_id : String
  pub project_id : String
  pub state : BackgroundState

-- A row of preparation_messages, preparation_turns, preparation_jobs or session_configuration_claims.
pub record SessionRow : Type 0 where
  pub id : String
  pub session_id : String
  pub state : String

-- elicitation_requests
pub record Elicitation : Type 0 where
  pub elicitation_request_id : String
  pub session_id : Option String
  pub state : String

pub record AcpSession : Type 0 where
  pub session_id : String
  pub project_id : String

pub record Export : Type 0 where
  pub export_id : String
  pub project_id : String
  pub procedure_id : String

pub record EvidenceRecord : Type 0 where
  pub evidence_id : String
  pub execution_id : String
  pub blob_hash : String

pub record CheckEvidence : Type 0 where
  pub check_id : String
  pub evidence_id : String

pub record ProcedureDraft : Type 0 where
  pub procedure_id : String
  pub execution_id : String
  pub source_revision : ℕ
  pub created_at : String

pub record BlobDeletion : Type 0 where
  pub hash : String
  pub relative_path : String

pub record Plans : Type 0 where
  pub default_connection_id : Option String
  pub preparations : List Preparation
  pub check_plans : List CheckPlan
  pub check_items : List CheckItem
  pub background_jobs : List BackgroundJob
  pub preparation_jobs : List SessionRow
  pub preparation_messages : List SessionRow
  pub preparation_turns : List SessionRow
  pub configuration_claims : List SessionRow
  pub elicitations : List Elicitation
  pub acp_sessions : List AcpSession
  pub exports : List Export
  pub evidence_records : List EvidenceRecord
  pub check_evidence : List CheckEvidence
  pub procedure_evidence : List SourceEvidence
  pub procedure_drafts : List ProcedureDraft
  pub blob_deletions : List BlobDeletion
