-- ===== src/Project/Delete.antt =====
-- DeleteProject: the rows of a project, table by table, under the foreign keys that the connection
-- enforces (foreign_keys(1) in internal/adapter/sqlite/db.go). The file clean-up that follows the
-- transaction is not part of it.
use tejun.Prelude.{
  ℕ, String, Bool, false, Option, none, some, List, [], ◌==◌, ◌&&◌, ◌||◌, not, nat_eq, ltb, map,
  ◌++◌, if◌then◌else◌,
}
use tejun.Shared.{app_error}
use tejun.Sql.Tx.{
  Result, Tx, pure, gets, require, fail_if, found_or, modify, for_each, commit, ◌>>=◌, ◌>>◌,
}
use tejun.Sql.Table.{find, exists, count_where, select_where, update_where}
use tejun.Database.{Db}
use tejun.Database.Rows.{Project, Session, Execution, Evidence, Blob, Procedure}
use tejun.Database.PlanRows.{
  Preparation, CheckPlan, BackgroundJob, SessionRow, AcpSession, Export, EvidenceRecord,
  BlobDeletion,
}
use tejun.Database.Ledger.{MutationReceipt, MutationResult, OutboxEvent, DeletedProject, Stored}
use tejun.Mutation.{existing_result}
use tejun.Execution.Recover.{distinct}
use tejun.Project.Statements.{
  revision_conflict, project_not_found, finish_project_mutation, delete_rows, on_plans,
}
use tejun.Project.Create.{has_project}
use tejun.Project.Archive.{active_jobs, is_project_at}
use tejun.Project.Links.{
  in_executions, in_sessions, delete_procedure_links, delete_evidence, delete_executions,
  delete_sessions, delete_plans,
}

-- ProjectDeleteRecord, with the fields of DeleteProjectInput.
pub record ProjectDeleteRecord : Type 0 where
  pub project_id : String
  pub expected_revision : ℕ
  pub operation_id : String
  pub request_hash : String
  pub receipt : MutationReceipt
  pub event : OutboxEvent

abbrev pub as_deleted_project : Stored → Option (MutationResult DeletedProject)
as_deleted_project (Stored.deleted_project r) = some r
as_deleted_project _ = none

-- SELECT DISTINCT er.blob_hash ... WHERE e.project_id=?
abbrev pub blob_hashes : String → Db → List String
blob_hashes id db = distinct (
    map (λ (r : EvidenceRecord). r.blob_hash)
      (select_where (λ (r : EvidenceRecord). in_executions id db r.execution_id)
        db.plans.evidence_records))

abbrev pub is_orphan : String → Blob → Bool
is_orphan hash b = b.hash == hash && nat_eq b.ref_count 0

-- INSERT OR IGNORE INTO evidence_blob_deletions: a row whose hash is there is left out.
abbrev pub noted_deletions : String → Db → List BlobDeletion
noted_deletions hash db =
    if exists (λ (d : BlobDeletion). d.hash == hash) db.plans.blob_deletions
    then []
    else map (λ (b : Blob). record { hash = b.hash; relative_path = b.relative_path })
        (select_where (is_orphan hash) db.blobs)

-- One round of the loop over the hashes.
unfoldable pub release_blob : String → Tx Db Unit
release_blob hash = do
  modify (λ db. record db {
    blobs =
        update_where (λ (b : Blob). b.hash == hash)
          (λ b. record b {
            ref_count =
                count_where (λ (r : EvidenceRecord). r.blob_hash == hash) db.plans.evidence_records;
          })
          db.blobs;
  })
  modify (λ db.
      on_plans
        (λ plans. record plans { blob_deletions = plans.blob_deletions ++ noted_deletions hash db })
        db)
  delete_rows (λ db. db.blobs) (λ rows db. record db { blobs = rows }) (λ db. is_orphan hash)
      (λ db b.
        exists (λ (r : EvidenceRecord). r.blob_hash == b.hash) db.plans.evidence_records
        || exists (λ (v : Evidence). elim v.blob_hash [ none ↦ false | some h ↦ h == b.hash ])
            db.evidence)

abbrev pub is_source : String → Option String → Bool
is_source id none = false
is_source id (some source) = source == id

abbrev pub refers_to_project : Db → Project → Bool
refers_to_project db p =
    exists (λ (q : Preparation). q.project_id == p.project_id) db.plans.preparations
    || exists (λ (q : CheckPlan). q.project_id == p.project_id) db.plans.check_plans
    || exists (λ (q : Procedure). q.project_id == p.project_id) db.procedures
    || exists (λ (s : AcpSession). s.project_id == p.project_id) db.plans.acp_sessions
    || exists (λ (j : BackgroundJob). j.project_id == p.project_id) db.plans.background_jobs
    || exists (λ (x : Export). x.project_id == p.project_id) db.plans.exports
    || exists (λ (e : Execution). e.project_id == p.project_id) db.executions
    || exists (λ (s : Session). s.project_id == p.project_id) db.sessions
    || exists (λ (q : Project). is_source p.project_id q.source_project_id) db.projects

-- The copies of the project lose their source, then its row goes.
unfoldable pub delete_project_row : String → ℕ → Tx Db Unit
delete_project_row id revision = do
  modify (λ db. record db {
    projects =
        update_where (λ (p : Project). is_source id p.source_project_id)
          (λ p. record p { source_project_id = none; source_procedure_id = none }) db.projects;
  })
  delete_rows (λ db. db.projects) (λ rows db. record db { projects = rows })
      (λ db. is_project_at id revision) refers_to_project

-- COUNT(*) FROM preparation_jobs ... AND state IN ('pending','running')
abbrev pub active_preparations : String → Db → ℕ
active_preparations id db =
    count_where
      (λ (j : SessionRow).
        in_sessions id db j.session_id && (j.state == "pending" || j.state == "running"))
      db.plans.preparation_jobs

-- The two guards on running jobs.
unfoldable pub refuse_active : String → Tx Db Unit
refuse_active id = do
  active ← gets (active_jobs id)
  fail_if (ltb 0 active) (app_error "active_job" "処理中のプロジェクトは削除できません")
  preparing ← gets (active_preparations id)
  fail_if (ltb 0 preparing) (app_error "active_job" "処理中のプロジェクトは削除できません")

-- The statements in their order.
unfoldable pub delete_all : String → ℕ → Tx Db Unit
delete_all id revision = do
  hashes ← gets (blob_hashes id)
  delete_procedure_links id
  delete_evidence id
  delete_executions id
  delete_sessions id
  delete_plans id
  for_each hashes release_blob
  delete_project_row id revision

-- The branch of a request that has no receipt yet.
unfoldable pub delete_new : ProjectDeleteRecord → Tx Db (MutationResult DeletedProject)
delete_new r = do
  p ← require (λ db. find (has_project r.project_id) db.projects) project_not_found
  fail_if (not (nat_eq p.revision r.expected_revision)) (revision_conflict p.revision)
  refuse_active r.project_id
  delete_all r.project_id p.revision
  finish_project_mutation Stored.deleted_project "delete_project" r.operation_id r.request_hash
      (record {
        value = record { project_id = r.project_id; deleted_at = r.receipt.committed_at };
        receipt = r.receipt;
      })
      r.event

unfoldable pub delete_tx : ProjectDeleteRecord → Tx Db (MutationResult DeletedProject)
delete_tx r = do
  replayed ← existing_result as_deleted_project "delete_project" r.operation_id r.request_hash
  found_or replayed pure (delete_new r)

unfoldable pub delete_project :
    ProjectDeleteRecord → Db → Result (MutationResult DeletedProject) × Db
delete_project r = commit (delete_tx r)
