-- ===== src/Project/Links.antt =====
-- The DELETE statements of DeleteProject (internal/adapter/sqlite/project.go) up to the preparation, with
-- the rows that each selects and the foreign keys to them.
use tejun.Prelude.{String, Bool, false, Option, none, some, ◌==◌, ◌&&◌, ◌||◌}
use tejun.Sql.Tx.{Tx, ◌>>◌}
use tejun.Sql.Table.{exists}
use tejun.Database.{Db}
use tejun.Database.Rows.{
  Session, Execution, Check, Run, Turn, Job, Permission, Evidence, Procedure, ProcedureTurn,
  ProcedureSource, SourceEvidence, RevisionJob,
}
use tejun.Database.PlanRows.{
  Preparation, CheckPlan, CheckItem, BackgroundJob, SessionRow, Elicitation, AcpSession, Export,
  EvidenceRecord, CheckEvidence, ProcedureDraft,
}
use tejun.Project.Statements.{delete_rows, never, on_plans}

-- IN (SELECT procedure_id FROM procedures WHERE project_id=?)
abbrev pub in_procedures : String → Db → String → Bool
in_procedures id db procedure_id =
    exists (λ (q : Procedure). q.procedure_id == procedure_id && q.project_id == id) db.procedures

-- IN (SELECT execution_id FROM executions WHERE project_id=?)
abbrev pub in_executions : String → Db → String → Bool
in_executions id db execution_id =
    exists (λ (e : Execution). e.execution_id == execution_id && e.project_id == id) db.executions

-- IN (SELECT session_id FROM preparation_sessions WHERE project_id=?)
abbrev pub in_sessions : String → Db → String → Bool
in_sessions id db session_id =
    exists (λ (s : Session). s.session_id == session_id && s.project_id == id) db.sessions

abbrev pub in_some_session : String → Db → Option String → Bool
in_some_session id db none = false
in_some_session id db (some session_id) = in_sessions id db session_id

-- IN (SELECT check_id FROM check_items WHERE project_id=?)
abbrev pub in_items : String → Db → String → Bool
in_items id db check_id =
    exists (λ (i : CheckItem). i.check_id == check_id && i.project_id == id) db.plans.check_items

-- The rows that refer to an execution but are neither its evidence nor its checks: no statement of
-- DeleteProject deletes them.
abbrev pub has_history : String → Db → Bool
has_history execution_id db =
    exists (λ (r : Run). r.execution_id == execution_id) db.runs
    || exists (λ (j : Job). j.execution_id == execution_id) db.jobs
    || exists (λ (t : Turn). t.execution_id == execution_id) db.turns
    || exists (λ (p : Permission). p.execution_id == execution_id) db.permissions

-- The foreign keys to executions(execution_id).
abbrev pub refers_to_execution : Db → Execution → Bool
refers_to_execution db e =
    exists (λ (r : EvidenceRecord). r.execution_id == e.execution_id) db.plans.evidence_records
    || exists (λ (p : ProcedureSource). p.execution_id == e.execution_id) db.procedure_sources
    || exists (λ (c : Check). c.execution_id == e.execution_id) db.checks
    || exists (λ (v : Evidence). v.execution_id == e.execution_id) db.evidence
    || exists (λ (d : ProcedureDraft). d.execution_id == e.execution_id) db.plans.procedure_drafts
    || has_history e.execution_id db

-- The first five statements: what refers to the procedures' sources and turns.
unfoldable pub delete_procedure_links : String → Tx Db Unit
delete_procedure_links id = do
  delete_rows (λ db. db.revision_jobs) (λ rows db. record db { revision_jobs = rows })
      (λ db (j : RevisionJob). in_procedures id db j.procedure_id) never
  delete_rows (λ db. db.procedure_turns) (λ rows db. record db { procedure_turns = rows })
      (λ db (t : ProcedureTurn). in_procedures id db t.procedure_id)
      (λ db t. exists (λ (j : RevisionJob). j.turn_id == t.turn_id) db.revision_jobs)
  delete_rows (λ db. db.source_evidence) (λ rows db. record db { source_evidence = rows })
      (λ db (p : SourceEvidence). in_procedures id db p.procedure_id) never
  delete_rows (λ db. db.plans.procedure_evidence)
      (λ rows. on_plans (λ plans. record plans { procedure_evidence = rows }))
      (λ db (p : SourceEvidence). in_procedures id db p.procedure_id) never
  delete_rows (λ db. db.procedure_sources) (λ rows db. record db { procedure_sources = rows })
      (λ db (p : ProcedureSource). in_procedures id db p.procedure_id)
      (λ db p.
        exists (λ (v : SourceEvidence). v.procedure_id == p.procedure_id) db.source_evidence
        || exists (λ (v : SourceEvidence). v.procedure_id == p.procedure_id)
            db.plans.procedure_evidence)

-- The next five: drafts, evidence and checks.
unfoldable pub delete_evidence : String → Tx Db Unit
delete_evidence id = do
  delete_rows (λ db. db.plans.procedure_drafts)
      (λ rows. on_plans (λ plans. record plans { procedure_drafts = rows }))
      (λ db (d : ProcedureDraft). in_procedures id db d.procedure_id) never
  delete_rows (λ db. db.plans.check_evidence)
      (λ rows. on_plans (λ plans. record plans { check_evidence = rows }))
      (λ db (c : CheckEvidence). in_items id db c.check_id) never
  delete_rows (λ db. db.evidence) (λ rows db. record db { evidence = rows })
      (λ db (v : Evidence). in_executions id db v.execution_id)
      (λ db v. exists (λ (p : SourceEvidence). p.evidence_id == v.evidence_id) db.source_evidence)
  delete_rows (λ db. db.plans.evidence_records)
      (λ rows. on_plans (λ plans. record plans { evidence_records = rows }))
      (λ db (r : EvidenceRecord). in_executions id db r.execution_id)
      (λ db r.
        exists (λ (c : CheckEvidence). c.evidence_id == r.evidence_id) db.plans.check_evidence
        || exists (λ (p : SourceEvidence). p.evidence_id == r.evidence_id)
            db.plans.procedure_evidence)
  delete_rows (λ db. db.checks) (λ rows db. record db { checks = rows })
      (λ db (c : Check). in_executions id db c.execution_id)
      (λ db c.
        exists (λ (v : Evidence). v.execution_id == c.execution_id && v.check_id == c.check_id)
          db.evidence)

-- DELETE FROM executions WHERE project_id=?
unfoldable pub delete_executions : String → Tx Db Unit
delete_executions id =
    delete_rows (λ db. db.executions) (λ rows db. record db { executions = rows })
      (λ db (e : Execution). e.project_id == id) refers_to_execution

abbrev pub of_session : String → Db → SessionRow → Bool
of_session id db row = in_sessions id db row.session_id

abbrev pub refers_to_session : Db → Session → Bool
refers_to_session db s =
    exists (λ (r : SessionRow). r.session_id == s.session_id) db.plans.preparation_messages
    || exists (λ (r : SessionRow). r.session_id == s.session_id) db.plans.preparation_turns
    || exists (λ (r : SessionRow). r.session_id == s.session_id) db.plans.preparation_jobs
    || exists (λ (r : SessionRow). r.session_id == s.session_id) db.plans.configuration_claims
    || exists (λ (e : Execution). e.session_id == s.session_id) db.executions

-- The sessions of the preparation and what refers to them.
unfoldable pub delete_sessions : String → Tx Db Unit
delete_sessions id = do
  delete_rows (λ db. db.plans.elicitations)
      (λ rows. on_plans (λ plans. record plans { elicitations = rows }))
      (λ db (e : Elicitation). in_some_session id db e.session_id) never
  delete_rows (λ db. db.plans.configuration_claims)
      (λ rows. on_plans (λ plans. record plans { configuration_claims = rows })) (of_session id)
      never
  delete_rows (λ db. db.plans.preparation_jobs)
      (λ rows. on_plans (λ plans. record plans { preparation_jobs = rows })) (of_session id) never
  delete_rows (λ db. db.plans.preparation_messages)
      (λ rows. on_plans (λ plans. record plans { preparation_messages = rows })) (of_session id)
      never
  delete_rows (λ db. db.plans.preparation_turns)
      (λ rows. on_plans (λ plans. record plans { preparation_turns = rows })) (of_session id) never
  delete_rows (λ db. db.sessions) (λ rows db. record db { sessions = rows })
      (λ db (s : Session). s.project_id == id) refers_to_session

abbrev pub refers_to_procedure : Db → Procedure → Bool
refers_to_procedure db q =
    exists (λ (p : ProcedureSource). p.procedure_id == q.procedure_id) db.procedure_sources
    || exists (λ (t : ProcedureTurn). t.procedure_id == q.procedure_id) db.procedure_turns
    || exists (λ (j : RevisionJob). j.procedure_id == q.procedure_id) db.revision_jobs
    || exists (λ (x : Export). x.procedure_id == q.procedure_id) db.plans.exports

-- The statements that are left.
unfoldable pub delete_plans : String → Tx Db Unit
delete_plans id = do
  delete_rows (λ db. db.plans.exports) (λ rows. on_plans (λ plans. record plans { exports = rows }))
      (λ db (x : Export). x.project_id == id) never
  delete_rows (λ db. db.plans.background_jobs)
      (λ rows. on_plans (λ plans. record plans { background_jobs = rows }))
      (λ db (j : BackgroundJob). j.project_id == id) never
  delete_rows (λ db. db.plans.acp_sessions)
      (λ rows. on_plans (λ plans. record plans { acp_sessions = rows }))
      (λ db (s : AcpSession). s.project_id == id) never
  delete_rows (λ db. db.procedures) (λ rows db. record db { procedures = rows })
      (λ db (q : Procedure). q.project_id == id) refers_to_procedure
  delete_rows (λ db. db.plans.check_items)
      (λ rows. on_plans (λ plans. record plans { check_items = rows }))
      (λ db (i : CheckItem). i.project_id == id)
      (λ db i. exists (λ (c : CheckEvidence). c.check_id == i.check_id) db.plans.check_evidence)
  delete_rows (λ db. db.plans.check_plans)
      (λ rows. on_plans (λ plans. record plans { check_plans = rows }))
      (λ db (p : CheckPlan). p.project_id == id)
      (λ db p. exists (λ (i : CheckItem). i.project_id == p.project_id) db.plans.check_items)
  delete_rows (λ db. db.plans.preparations)
      (λ rows. on_plans (λ plans. record plans { preparations = rows }))
      (λ db (p : Preparation). p.project_id == id) never
