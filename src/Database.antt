-- ===== src/Database.antt =====
-- The SQLite database that the repositories of internal/adapter/sqlite share: one record of the
-- tables that the modelled statements read or write, with the columns that they use.
pub mod Time
pub mod Rows
pub mod Ledger
pub mod PlanRows
use tejun.Prelude.{ℕ, String, List}
use Rows.{
  Connection, Project, Session, Execution, Check, Run, RunCheck, Turn, Job, Evidence, Permission,
  Procedure, ProcedureTurn, ProcedureSource, SourceEvidence, RevisionJob, Blob,
}
use Ledger.{Receipt, Outbox}
use PlanRows.{Plans}

pub record Db : Type 0 where
  pub connections : List Connection
  pub projects : List Project
  pub sessions : List Session
  pub executions : List Execution
  pub checks : List Check
  pub runs : List Run
  pub run_checks : List RunCheck
  pub turns : List Turn
  pub jobs : List Job
  pub evidence : List Evidence
  pub permissions : List Permission
  pub procedures : List Procedure
  pub procedure_turns : List ProcedureTurn
  pub revision_jobs : List RevisionJob
  pub procedure_sources : List ProcedureSource
  pub source_evidence : List SourceEvidence
  pub blobs : List Blob
  pub plans : Plans
  pub receipts : List Receipt
  pub outbox : List Outbox
  pub change_sequence : ℕ
