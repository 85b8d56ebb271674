-- ===== src/Project/Archive.antt =====
-- ArchiveProject: a project without active jobs is put away, once.
use tejun.Prelude.{
  ℕ, ◌+◌, String, Bool, true, false, Option, none, some, ◌==◌, ◌&&◌, not, nat_eq, ltb,
}
use tejun.Sql.Tx.{Result, Tx, pure, gets, require, fail_if, found_or, modify, commit, ◌>>=◌, ◌>>◌}
use tejun.Sql.Table.{find, count_where, update_where}
use tejun.Database.{Db}
use tejun.Database.Rows.{ProjectStatus, Project}
use tejun.Database.PlanRows.{BackgroundState, BackgroundJob}
use tejun.Database.Ledger.{MutationReceipt, MutationResult, OutboxEvent, ArchivedProject, Stored}
use tejun.Domain.Project.{can_archive}
use tejun.Mutation.{existing_result}
use tejun.Project.Statements.{
  revision_conflict, project_not_found, fail_with, finish_project_mutation,
}
use tejun.Project.Create.{has_project}

-- ProjectArchiveRecord, with the fields of ArchiveProjectInput.
pub record ProjectArchiveRecord : Type 0 where
  pub project_id : String
  pub expected_revision : ℕ
  pub operation_id : String
  pub request_hash : String
  pub receipt : MutationReceipt
  pub event : OutboxEvent

abbrev pub as_archived_project : Stored → Option (MutationResult ArchivedProject)
as_archived_project (Stored.archived_project r) = some r
as_archived_project _ = none

-- state IN ('pending','running')
abbrev pub is_active : BackgroundState → Bool
is_active BackgroundState.pending = true
is_active BackgroundState.running = true
is_active _ = false

abbrev pub active_jobs : String → Db → ℕ
active_jobs id db =
    count_where (λ (j : BackgroundJob). j.project_id == id && is_active j.state)
      db.plans.background_jobs

-- WHERE project_id=? AND revision=?
abbrev pub is_project_at : String → ℕ → Project → Bool
is_project_at id revision p = p.project_id == id && nat_eq p.revision revision

-- UPDATE projects SET status='archived',revision=revision+1,... WHERE project_id=? AND revision=?
unfoldable pub put_away : String → ℕ → ℕ → Tx Db Unit
put_away id revision at = modify (λ db. record db {
  projects =
      update_where (is_project_at id revision)
        (λ p. record p {
          status = ProjectStatus.archived;
          revision = p.revision + 1;
          archived_at = some at;
          updated_at = at;
        })
        db.projects;
})

abbrev pub archived_result : ProjectArchiveRecord → ℕ → MutationResult ArchivedProject
archived_result r revision = record {
  value = record {
    project_id = r.project_id;
    revision = revision + 1;
    archived_at = r.receipt.committed_at;
  };
  receipt = r.receipt;
}

-- The branch of a request that has no receipt yet.
unfoldable pub archive_new : ProjectArchiveRecord → Tx Db (MutationResult ArchivedProject)
archive_new r = do
  p ← require (λ db. find (has_project r.project_id) db.projects) project_not_found
  fail_if (not (nat_eq p.revision r.expected_revision)) (revision_conflict p.revision)
  active ← gets (active_jobs r.project_id)
  fail_with (can_archive p.status (ltb 0 active))
  affected ← gets (λ db. count_where (is_project_at r.project_id r.expected_revision) db.projects)
  put_away r.project_id r.expected_revision r.receipt.committed_at.micros
  fail_if (nat_eq affected 0) (revision_conflict p.revision)
  finish_project_mutation Stored.archived_project "archive_project" r.operation_id r.request_hash
      (archived_result r p.revision) r.event

unfoldable pub archive_tx : ProjectArchiveRecord → Tx Db (MutationResult ArchivedProject)
archive_tx r = do
  replayed ← existing_result as_archived_project "archive_project" r.operation_id r.request_hash
  found_or replayed pure (archive_new r)

unfoldable pub archive_project :
    ProjectArchiveRecord → Db → Result (MutationResult ArchivedProject) × Db
archive_project r = commit (archive_tx r)
