-- ===== src/Project/Tests.antt =====
-- A project with a plan, a copy of it, and its deletion.
use tejun.Prelude.{String, true, false, none, some, [], ◌∷◌, ◌≡◌, refl, Memᴰ}
use tejun.Shared.{Error}
use tejun.Sql.Tx.{ok, err}
use tejun.Sql.Table.{find, delete_where}
use tejun.Database.{Db}
use tejun.Database.Rows.{JobState, ExecutionStatus, Execution}
use tejun.Database.PlanRows.{CheckItem}
use tejun.Database.Ledger.{OutboxEvent}
use tejun.Domain.Project.{can_revise, can_archive_idle, can_archive, resume_route}
use tejun.Mutation.{same_receipt}
use tejun.Execution.Tests.{noon, start, no_plans}
use tejun.Execution.Tests.Program.{program}
use tejun.Project.Statements.{
  fail_with, finish_project_mutation, insert_rows, delete_unreferenced, delete_rows, with_sequence,
}
use tejun.Project.Create.{
  ProjectCopyRecord, created_project, insert_project, insert_preparations, insert_check_plans,
  insert_check_items, create_new, create_tx, create_project, admit_copy, copy_plan, copy_new,
  copy_tx, copy_project,
}
use tejun.Project.Archive.{put_away, archive_new, archive_tx, archive_project}
use tejun.Project.Links.{
  has_history, delete_procedure_links, delete_evidence, delete_executions, delete_sessions,
  delete_plans,
}
use tejun.Project.Delete.{
  ProjectDeleteRecord, release_blob, delete_project_row, refuse_active, delete_all, delete_new,
  delete_tx, delete_project,
}
use tejun.Project.Stuck.{delete_project-refused}
use tejun.Project.Spares.{Spares, delete_project-Spares}
use tejun.Project.Copies.{Copied, copy_project-Copied}

unfoldable project_program : Unit {0}
unfolding program can_revise can_archive_idle can_archive resume_route fail_with
    finish_project_mutation insert_rows delete_unreferenced delete_rows delete_where insert_project
    insert_preparations insert_check_plans insert_check_items create_new create_tx create_project
    admit_copy copy_plan copy_new copy_tx copy_project put_away archive_new archive_tx
    archive_project delete_procedure_links delete_evidence delete_executions delete_sessions
    delete_plans release_blob delete_project_row refuse_active delete_all delete_new delete_tx
    delete_project
project_program = tt

abbrev item : String → CheckItem
item id = record {
  check_id = id;
  project_id = "p1";
  sequence = 1;
  title = id;
  instruction = "look";
  expected_result = "there";
  suggested_command = "";
  ai_required = true;
  human_required = false;
  human_evidence_requirement = "none";
}

abbrev planned : Db
planned = record start {
  plans = record no_plans {
    preparations =
        record {
          project_id = "p1";
          purpose = "to check";
          completion_criteria = "[]";
          intended_users = "";
          revision = 4;
        }
        ∷ [];
    check_plans = record { project_id = "p1"; revision = 2 } ∷ [];
    check_items = item "c1" ∷ [];
  };
}

abbrev event : String → String → OutboxEvent
event name id = record {
  id = "v1";
  name = name;
  emitted_at = noon;
  aggregate_type = "project";
  aggregate_id = id;
  correlation = "o1";
}

abbrev duplicate : ProjectCopyRecord
duplicate = record {
  source_project_id = "p1";
  source_procedure_id = "";
  name = "second";
  workspace_path = "/other";
  project_id = "p2";
  request_hash = "h";
  source_revision = 1;
  source_procedure_revision = 0;
  operation_id = "o1";
  receipt = record { operation_id = "o1"; committed_at = noon; change_sequence = 0 };
  event = event "project.changed" "p2";
}

abbrev copied : Db
copied = (copy_project duplicate false planned).1

abbrev removal : ProjectDeleteRecord
removal = record {
  project_id = "p1";
  expected_revision = 1;
  operation_id = "o2";
  request_hash = "h";
  receipt = record { operation_id = "o2"; committed_at = noon; change_sequence = 0 };
  event = record (event "project.deleted" "p1") { id = "v2" };
}

-- The project after a run.
abbrev execution : Execution
execution = record {
  execution_id = "e1";
  project_id = "p1";
  session_id = "s1";
  status = ExecutionStatus.active;
  active_run_id = none;
  revision = 3;
  started_at = "2026-09-26T11:00:00Z";
  completed_at = none;
}

abbrev ran : Db
ran = record planned {
  runs =
      record {
        run_id = "r1";
        execution_id = "e1";
        session_id = "s1";
        job_id = "j1";
        state = JobState.completed;
        accepted_at = "2026-09-26T12:00:00Z";
        completed_at = some "2026-09-26T12:00:05Z";
      }
      ∷ [];
}

copied_run :
    copy_project duplicate false planned
    ≡ (ok (with_sequence (created_project "p2" duplicate.receipt) 8), copied)
unfolding project_program
copied_run = refl

-- Without a run, the project and what belongs to it go, and its copy stays.
removed_run :
    (delete_project removal copied).1.plans.check_items
    ≡ record (item "c1") { check_id = "p2:1"; project_id = "p2" } ∷ []
unfolding project_program
removed_run = refl

new_copy : find (same_receipt "duplicate_project" "o1") planned.receipts ≡ none
unfolding project_program
new_copy = refl

new_removal : find (same_receipt "delete_project" "o2") ran.receipts ≡ none
unfolding project_program
new_removal = refl

copy_project-Copied_example : Copied duplicate false planned copied
copy_project-Copied_example = copy_project-Copied duplicate false planned copied_run new_copy

delete_project-Spares_example : Spares "p1" copied (delete_project removal copied).1
delete_project-Spares_example = delete_project-Spares removal copied

has_run : has_history execution.execution_id ran ≡ true
unfolding project_program
has_run = refl

delete_project-refused_example : (x : Error) × (delete_project removal ran ≡ (err x, ran))
delete_project-refused_example =
    delete_project-refused removal execution ran refl (Memᴰ.head refl) has_run new_removal
