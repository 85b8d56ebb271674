-- ===== src/Execution/Generate.antt =====
-- GenerateProcedureDraft (internal/adapter/sqlite/execution.go): an execution that is ready becomes
-- the draft of a procedure, with the evidence that it was made from.
pub mod Writes
pub mod Ready
pub mod Drafted
pub mod References
use tejun.Prelude.{
  ℕ, ◌+◌, String, Bool, true, false, Option, none, some, List, [], ◌∷◌, ◌==◌, ◌+s◌, ◌&&◌, ◌||◌, not,
  nat_eq, map, length, decimal,
}
use tejun.Shared.{no_rows, app_error, conflict_error}
use tejun.Sql.Tx.{
  Result, Tx, pure, gets, attempt, modify, require, fail_if, found_or, commit, ◌>>=◌, ◌>>◌,
}
use tejun.Sql.Table.{find, exists, insert_row, select_where, update_where, count_where}
use tejun.Database.{Db}
use tejun.Database.Time.{Time, format}
use tejun.Database.Rows.{
  ExecutionStatus, ProcedureStatus, ProjectStatus, Stage, Execution, Check, Evidence, Project,
  Procedure, ProcedureSource, SourceEvidence,
}
use tejun.Database.PlanRows.{ProcedureDraft, EvidenceRecord}
use tejun.Database.Ledger.{MutationResult, OutboxEvent, GenerationAccepted, Stored}
use tejun.Domain.Integrity.{EvidenceRef, Step, Document}
use tejun.Domain.Readiness.{readiness}
use tejun.Mutation.{request_hash, existing_result, next_sequence, save_mutation}
use tejun.Execution.Statements.{has_execution, update_executions}
use tejun.Execution.Snapshot.{execution_checks, evidence_of, snapshot_of}
use tejun.Procedure.Codec.{Json}
use tejun.Project.Create.{has_project}
use tejun.Project.Statements.{insert_rows, on_plans}

pub record ProcedureDraftRecord : Type 0 where
  pub execution_id : String
  pub operation_id : String
  pub procedure_id : String
  pub expected_revision : ℕ
  pub at : Time
  pub event : OutboxEvent

abbrev pub as_generation : Stored → Option (MutationResult GenerationAccepted)
as_generation (Stored.generation_accepted r) = some r
as_generation _ = none

abbrev pub evidence_ref : Evidence → EvidenceRef
evidence_ref v = record {
  evidence_id = v.evidence_id;
  display_name = v.display_name;
  included = true;
}

abbrev pub step_of : Db → Check → Step
step_of db c = record {
  id = c.check_id;
  client_key = c.check_id;
  title = c.title;
  description = c.instruction;
  command = c.suggested_command;
  notes = [];
  evidence_refs = map evidence_ref (evidence_of c db);
}

-- The document of an execution.
abbrev pub document_of : String → String → Db → Document
document_of name execution_id db = record {
  title = name;
  overview = "";
  prerequisites = [];
  steps = map (step_of db) (execution_checks execution_id db);
}

-- INSERT INTO procedure_drafts: procedure_id is the key, and execution_id is UNIQUE.
unfoldable pub insert_draft : ProcedureDraft → Tx Db Unit
insert_draft d = do
  rows ← attempt (λ db.
      insert_row
        (λ (e : ProcedureDraft).
          e.procedure_id == d.procedure_id || e.execution_id == d.execution_id)
        d db.plans.procedure_drafts)
  modify (on_plans (λ plans. record plans { procedure_drafts = rows }))

-- INSERT INTO procedures; the project was read before.
unfoldable pub insert_procedure : Procedure → Tx Db Unit
insert_procedure p = do
  rows ←
      attempt
        (λ db. insert_row (λ (q : Procedure). q.procedure_id == p.procedure_id) p db.procedures)
  modify (λ db. record db { procedures = rows })

unfoldable pub insert_source : (Db → ProcedureSource) → Tx Db Unit
insert_source new = do
  rows ← attempt (λ db.
      insert_row (λ (p : ProcedureSource). p.procedure_id == (new db).procedure_id) (new db)
        db.procedure_sources)
  modify (λ db. record db { procedure_sources = rows })

abbrev pub same_link : SourceEvidence → SourceEvidence → Bool
same_link p q = q.procedure_id == p.procedure_id && q.evidence_id == p.evidence_id

abbrev pub source_links : String → String → Db → List SourceEvidence
source_links procedure_id execution_id db =
    map (λ (v : Evidence). record { procedure_id = procedure_id; evidence_id = v.evidence_id })
      (select_where (λ (v : Evidence). v.execution_id == execution_id) db.evidence)

-- INSERT INTO procedure_source_evidence ... SELECT
unfoldable pub insert_source_evidence : (Db → List SourceEvidence) → Tx Db Unit
insert_source_evidence new = do
  rows ← attempt (λ db. insert_rows same_link (new db) db.source_evidence)
  modify (λ db. record db { source_evidence = rows })

-- evidence_records er JOIN execution_evidence ee ... WHERE ee.execution_id=? AND ee.kind='image'
abbrev pub image_links : String → String → Db → List SourceEvidence
image_links procedure_id execution_id db =
    map
      (λ (r : EvidenceRecord). record { procedure_id = procedure_id; evidence_id = r.evidence_id })
      (select_where
        (λ (r : EvidenceRecord).
          exists
            (λ (v : Evidence).
              v.evidence_id == r.evidence_id && v.execution_id == execution_id && v.kind == "image")
            db.evidence)
        db.plans.evidence_records)

-- INSERT INTO procedure_evidence ... SELECT
unfoldable pub insert_procedure_evidence : (Db → List SourceEvidence) → Tx Db Unit
insert_procedure_evidence new = do
  rows ← attempt (λ db. insert_rows same_link (new db) db.plans.procedure_evidence)
  modify (on_plans (λ plans. record plans { procedure_evidence = rows }))

-- UPDATE projects SET status='procedure_editing',current_stage='procedure',... WHERE project_id=?
unfoldable pub open_editing : String → ℕ → Tx Db Unit
open_editing project_id at = modify (λ db. record db {
  projects =
      update_where (has_project project_id)
        (λ p. record p {
          status = ProjectStatus.procedure_editing;
          current_stage = Stage.procedure;
          revision = p.revision + 1;
          updated_at = at;
        })
        db.projects;
})

-- UPDATE executions SET status = 'completed', completed_at = ?, revision = revision + 1 WHERE ...
unfoldable pub close_execution : String → Time → Tx Db Unit
close_execution execution_id at = update_executions (has_execution execution_id) (λ e. record e {
  status = ExecutionStatus.completed;
  completed_at = some (format at);
  revision = e.revision + 1;
})

abbrev pub generated_procedure : ProcedureDraftRecord → String → String → Procedure
generated_procedure r project_id text = record {
  procedure_id = r.procedure_id;
  project_id = project_id;
  document = text;
  status = ProcedureStatus.draft;
  revision = 1;
  created_at = r.at.micros;
  updated_at = r.at.micros;
  completed_at = none;
}

abbrev pub generated_source : ProcedureDraftRecord → ℕ → Db → ProcedureSource
generated_source r revision db = record {
  procedure_id = r.procedure_id;
  execution_id = r.execution_id;
  execution_revision = revision;
  check_count = length (execution_checks r.execution_id db);
  evidence_count = count_where (λ (v : Evidence). v.execution_id == r.execution_id) db.evidence;
  captured_at = r.at.micros;
}

-- The receipt of this mutation has no change_sequence.
abbrev pub generation_accepted : ProcedureDraftRecord → String → MutationResult GenerationAccepted
generation_accepted r project_id = record {
  value = record {
    procedure_id = r.procedure_id;
    next_route = "#/projects/" +s project_id +s "/procedure";
    accepted_at = r.at;
  };
  receipt = record { operation_id = r.operation_id; committed_at = r.at; change_sequence = 0 };
}

-- The tests on the execution.
unfoldable pub admit_generation : ProcedureDraftRecord → Execution → Tx Db Unit
admit_generation r e = do
  fail_if (not (nat_eq e.revision r.expected_revision))
      (conflict_error "executionが更新されています" e.revision)
  ready ← gets (λ db. (readiness (snapshot_of e db)).0)
  fail_if (not ready) (app_error "invalid_state" "必須チェックと証跡が揃っていません")

-- The links from the procedure to its execution and its evidence.
unfoldable pub link_sources : ProcedureDraftRecord → Execution → Tx Db Unit
link_sources r e = do
  insert_source (generated_source r e.revision)
  insert_source_evidence (source_links r.procedure_id r.execution_id)
  insert_procedure_evidence (image_links r.procedure_id r.execution_id)
  open_editing e.project_id r.at.micros
  close_execution r.execution_id r.at

module _ (sha256 : String → String) (json : Json) where
  abbrev pub generate_hash : ProcedureDraftRecord → String
  generate_hash r = request_hash sha256 (r.execution_id ∷ decimal r.expected_revision ∷ [])

  -- The rows of the procedure.
  unfoldable pub write_draft : ProcedureDraftRecord → Execution → Tx Db Unit
  write_draft r e = do
    insert_draft (record {
      procedure_id = r.procedure_id;
      execution_id = r.execution_id;
      source_revision = e.revision;
      created_at = format r.at;
    })
    p ← require (λ db. find (has_project e.project_id) db.projects) no_rows
    document ← gets (document_of p.name r.execution_id)
    insert_procedure (generated_procedure r e.project_id (json.marshal document))

  -- The branch of a request that has no receipt yet. execution_id is a key, so that readExecution
  -- finds the same row.
  unfoldable pub generate_new : ProcedureDraftRecord → Tx Db (MutationResult GenerationAccepted)
  generate_new r = do
    e ← require (λ db. find (has_execution r.execution_id) db.executions) no_rows
    admit_generation r e
    write_draft r e
    link_sources r e
    sequence ← next_sequence
    save_mutation Stored.generation_accepted "generate_procedure_draft" r.operation_id
        (generate_hash r) (generation_accepted r e.project_id) r.event sequence
    pure (generation_accepted r e.project_id)

  unfoldable pub generate_tx : ProcedureDraftRecord → Tx Db (MutationResult GenerationAccepted)
  generate_tx r = do
    replayed ←
        existing_result as_generation "generate_procedure_draft" r.operation_id (generate_hash r)
    found_or replayed pure (generate_new r)

  unfoldable pub generate_procedure_draft :
      ProcedureDraftRecord → Db → Result (MutationResult GenerationAccepted) × Db
  generate_procedure_draft r = commit (generate_tx r)
