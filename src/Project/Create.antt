-- ===== src/Project/Create.antt =====
-- CreateProject, DuplicateProject and CreateRevision: a project begins in its preparation, from
-- nothing, from another project, or from another project's completed procedure.
use tejun.Prelude.{
  ℕ, String, Bool, true, false, Option, none, some, List, [], ◌∷◌, ◌==◌, ◌+s◌, ◌&&◌, ◌||◌, not,
  nat_eq, if◌then◌else◌, decimal, map,
}
use tejun.Shared.{app_error, constraint}
use tejun.Sql.Tx.{
  Result, err, Tx, pure, gets, attempt, modify, require, fail_if, found_or, commit, ◌>>=◌, ◌>>◌,
}
use tejun.Sql.Table.{find, exists, insert_row, select_where}
use tejun.Database.{Db}
use tejun.Database.Rows.{ProjectStatus, Stage, ProcedureStatus, Connection, Procedure, Project}
use tejun.Database.PlanRows.{Preparation, CheckPlan, CheckItem}
use tejun.Database.Ledger.{MutationReceipt, MutationResult, OutboxEvent, CreatedProject, Stored}
use tejun.Domain.Project.{can_revise, resume_route}
use tejun.Mutation.{existing_result}
use tejun.Project.Statements.{
  revision_conflict, fail_with, finish_project_mutation, insert_rows, on_plans,
}

-- ProjectCreateRecord, with the fields of CreateProjectInput.
pub record ProjectCreateRecord : Type 0 where
  pub name : String
  pub description : String
  pub workspace_path : String
  pub connection_id : String
  pub operation_id : String
  pub project_id : String
  pub request_hash : String
  pub receipt : MutationReceipt
  pub event : OutboxEvent

pub record ProjectCopyRecord : Type 0 where
  pub source_project_id : String
  pub source_procedure_id : String
  pub name : String
  pub workspace_path : String
  pub project_id : String
  pub request_hash : String
  pub source_revision : ℕ
  pub source_procedure_revision : ℕ
  pub operation_id : String
  pub receipt : MutationReceipt
  pub event : OutboxEvent

abbrev pub as_created_project : Stored → Option (MutationResult CreatedProject)
as_created_project (Stored.created_project r) = some r
as_created_project _ = none

-- createdProject
abbrev pub created_project : String → MutationReceipt → MutationResult CreatedProject
created_project id receipt = record {
  value = record {
    project_id = id;
    revision = 1;
    status = ProjectStatus.preparing;
    current_stage = "preparation";
    next_route = resume_route id "preparation";
    created_at = receipt.committed_at;
  };
  receipt = receipt;
}

abbrev pub text_or_empty : Option String → String
text_or_empty none = ""
text_or_empty (some text) = text

-- nullableString
abbrev pub nullable : String → Option String
nullable text = if text == "" then none else some text

abbrev pub connection_of : String → Db → String
connection_of id db = if id == "" then text_or_empty db.plans.default_connection_id else id

abbrev pub has_project : String → Project → Bool
has_project id p = p.project_id == id

-- INSERT INTO projects: project_id is the key, and the connection has to exist. A source project was
-- read before.
unfoldable pub insert_project : Project → Tx Db Unit
insert_project p = do
  rows ← attempt (λ db.
      if exists (λ (c : Connection). c.connection_id == p.connection_id) db.connections
      then insert_row (has_project p.project_id) p db.projects
      else err constraint)
  modify (λ db. record db { projects = rows })

abbrev pub same_preparation : Preparation → Preparation → Bool
same_preparation p q = q.project_id == p.project_id

-- INSERT INTO preparations; the project was inserted before.
unfoldable pub insert_preparations : (Db → List Preparation) → Tx Db Unit
insert_preparations new = do
  rows ← attempt (λ db. insert_rows same_preparation (new db) db.plans.preparations)
  modify (on_plans (λ plans. record plans { preparations = rows }))

abbrev pub same_plan : CheckPlan → CheckPlan → Bool
same_plan p q = q.project_id == p.project_id

unfoldable pub insert_check_plans : (Db → List CheckPlan) → Tx Db Unit
insert_check_plans new = do
  rows ← attempt (λ db. insert_rows same_plan (new db) db.plans.check_plans)
  modify (on_plans (λ plans. record plans { check_plans = rows }))

-- check_id is the key, and UNIQUE(project_id, sequence).
abbrev pub same_item : CheckItem → CheckItem → Bool
same_item i j =
    j.check_id == i.check_id || j.project_id == i.project_id && nat_eq j.sequence i.sequence

-- INSERT INTO check_items; a source that has items has a plan, which was copied before.
unfoldable pub insert_check_items : (Db → List CheckItem) → Tx Db Unit
insert_check_items new = do
  rows ← attempt (λ db. insert_rows same_item (new db) db.plans.check_items)
  modify (on_plans (λ plans. record plans { check_items = rows }))

abbrev pub new_project : ProjectCreateRecord → String → Project
new_project r connection_id = record {
  project_id = r.project_id;
  lineage_id = r.project_id;
  source_project_id = none;
  source_procedure_id = none;
  connection_id = connection_id;
  name = r.name;
  description = r.description;
  workspace_path = r.workspace_path;
  status = ProjectStatus.preparing;
  current_stage = Stage.preparation;
  current_session_id = none;
  revision = 1;
  created_at = r.receipt.committed_at.micros;
  updated_at = r.receipt.committed_at.micros;
  completed_at = none;
  archived_at = none;
  error_code = none;
}

abbrev pub empty_preparation : String → Preparation
empty_preparation id = record {
  project_id = id;
  purpose = "";
  completion_criteria = "[]";
  intended_users = "";
  revision = 1;
}

-- The branch of a request that has no receipt yet.
unfoldable pub create_new : ProjectCreateRecord → Tx Db (MutationResult CreatedProject)
create_new r = do
  connection_id ← gets (connection_of r.connection_id)
  fail_if (connection_id == "") (app_error "connection_required" "Agent接続が必要です")
  insert_project (new_project r connection_id)
  insert_preparations (λ db. empty_preparation r.project_id ∷ [])
  insert_check_plans (λ db. record { project_id = r.project_id; revision = 1 } ∷ [])
  finish_project_mutation Stored.created_project "create_project" r.operation_id r.request_hash
      (created_project r.project_id r.receipt) r.event

unfoldable pub create_tx : ProjectCreateRecord → Tx Db (MutationResult CreatedProject)
create_tx r = do
  replayed ← existing_result as_created_project "create_project" r.operation_id r.request_hash
  found_or replayed pure (create_new r)

unfoldable pub create_project :
    ProjectCreateRecord → Db → Result (MutationResult CreatedProject) × Db
create_project r = commit (create_tx r)

abbrev pub is_unset : Option ℕ → Bool
is_unset none = true
is_unset (some at) = false

abbrev pub is_completed_procedure : ProcedureStatus → Bool
is_completed_procedure ProcedureStatus.completed = true
is_completed_procedure _ = false

-- The tests on the source: its completed procedure for a revision, its own revision for a duplicate.
unfoldable pub admit_copy : ProjectCopyRecord → Bool → Project → Tx Db Unit
admit_copy r true p = do
  fail_with (can_revise p.status)
  q ←
      require
        (λ db.
          find
            (λ (q : Procedure).
              q.procedure_id == r.source_procedure_id
              && q.project_id == r.source_project_id
              && is_completed_procedure q.status)
            db.procedures)
        (app_error "procedure_not_found" "完成版が見つかりません")
  fail_if (not (nat_eq q.revision r.source_procedure_revision)) (revision_conflict q.revision)
admit_copy r false p =
    fail_if (not (nat_eq p.revision r.source_revision)) (revision_conflict p.revision)

abbrev pub project_copy : ProjectCopyRecord → Bool → Project → Project
project_copy r revision p = record {
  project_id = r.project_id;
  lineage_id = if revision then p.lineage_id else r.project_id;
  source_project_id = some r.source_project_id;
  source_procedure_id = nullable r.source_procedure_id;
  connection_id = p.connection_id;
  name = r.name;
  description = p.description;
  workspace_path = r.workspace_path;
  status = ProjectStatus.preparing;
  current_stage = Stage.preparation;
  current_session_id = none;
  revision = 1;
  created_at = r.receipt.committed_at.micros;
  updated_at = r.receipt.committed_at.micros;
  completed_at = none;
  archived_at = none;
  error_code = none;
}

-- SELECT ? || ':' || sequence,?,... FROM check_items
abbrev pub item_copy : String → CheckItem → CheckItem
item_copy id i = record i { check_id = id +s ":" +s decimal i.sequence; project_id = id }

abbrev pub of_project : String → CheckItem → Bool
of_project id i = i.project_id == id

abbrev pub copied_items : String → String → Db → List CheckItem
copied_items id source db =
    map (item_copy id) (select_where (of_project source) db.plans.check_items)

-- The three INSERT ... SELECT.
unfoldable pub copy_plan : ProjectCopyRecord → Tx Db Unit
copy_plan r = do
  insert_preparations (λ db.
      map (λ (p : Preparation). record p { project_id = r.project_id; revision = 1 })
        (select_where (λ (p : Preparation). p.project_id == r.source_project_id)
          db.plans.preparations))
  insert_check_plans (λ db.
      map (λ (p : CheckPlan). record { project_id = r.project_id; revision = 1 })
        (select_where (λ (p : CheckPlan). p.project_id == r.source_project_id)
          db.plans.check_plans))
  insert_check_items (copied_items r.project_id r.source_project_id)

abbrev pub copy_scope : Bool → String
copy_scope revision = if revision then "create_revision" else "duplicate_project"

-- The branch of a request that has no receipt yet.
unfoldable pub copy_new : ProjectCopyRecord → Bool → Tx Db (MutationResult CreatedProject)
copy_new r revision = do
  p ←
      require
        (λ db.
          find (λ (p : Project). p.project_id == r.source_project_id && is_unset p.archived_at)
            db.projects)
        (app_error "project_not_found" "元のプロジェクトが見つかりません")
  admit_copy r revision p
  insert_project (project_copy r revision p)
  copy_plan r
  finish_project_mutation Stored.created_project (copy_scope revision) r.operation_id r.request_hash
      (created_project r.project_id r.receipt) r.event

unfoldable pub copy_tx : ProjectCopyRecord → Bool → Tx Db (MutationResult CreatedProject)
copy_tx r revision = do
  replayed ← existing_result as_created_project (copy_scope revision) r.operation_id r.request_hash
  found_or replayed pure (copy_new r revision)

-- copyProject: DuplicateProject for `false`, CreateRevision for `true`.
unfoldable pub copy_project :
    ProjectCopyRecord → Bool → Db → Result (MutationResult CreatedProject) × Db
copy_project r revision = commit (copy_tx r revision)
