-- ===== src/Procedure/Revision/Claim.antt =====
-- ClaimProcedureRevision: the worker takes the oldest queued revision.
use tejun.Prelude.{
  ℕ, String, Bool, false, Option, none, some, List, ◌==◌, ◌&&◌, ◌||◌, nat_eq, ltb, text_lt,
}
use tejun.Shared.{no_rows}
use tejun.Sql.Tx.{Result, Tx, pure, gets, require, found_or, commit, ◌>>=◌, ◌>>◌}
use tejun.Sql.Table.{find, select_where, first_by}
use tejun.Database.{Db}
use tejun.Database.Rows.{JobState, Connection, Project, RevisionJob}
use tejun.Execution.Statements.{is_queued}
use tejun.Procedure.Statements.{has_procedure, update_revision_jobs, update_procedure_turns}

-- ClaimedProcedureRevision
pub record ClaimedProcedureRevision : Type 0 where
  pub procedure_id : String
  pub turn_id : String
  pub job_id : String
  pub session_id : String
  pub prompt_text : String
  pub workspace_path : String
  pub expected_revision : ℕ
  pub command : String
  pub args : List String
  pub transport : String

-- ORDER BY accepted_at,job_id
abbrev pub revision_before : RevisionJob → RevisionJob → Bool
revision_before j k =
    ltb j.accepted_at k.accepted_at
    || (nat_eq j.accepted_at k.accepted_at && text_lt j.job_id k.job_id)

abbrev pub next_revision : Db → Option RevisionJob
next_revision db =
    first_by revision_before
      (select_where (λ (j : RevisionJob). is_queued j.state) db.revision_jobs)

abbrev pub is_next_revision : Option RevisionJob → RevisionJob → Bool
is_next_revision none k = false
is_next_revision (some j) k = k.job_id == j.job_id

-- UPDATE procedure_revision_jobs SET state='running' WHERE job_id=(SELECT ...) RETURNING ...
unfoldable pub take_revision : Tx Db (Option RevisionJob)
take_revision = do
  next ← gets next_revision
  update_revision_jobs (is_next_revision next) (λ k. record k { state = JobState.running })
  pure next

-- The workspace and the connection, by two joins from the procedure.
unfoldable pub procedure_workspace : String → Tx Db (Project × Connection)
procedure_workspace procedure_id = do
  q ← require (λ db. find (has_procedure procedure_id) db.procedures) no_rows
  p ← require (λ db. find (λ (p : Project). p.project_id == q.project_id) db.projects) no_rows
  c ←
      require (λ db. find (λ (c : Connection). c.connection_id == p.connection_id) db.connections)
        no_rows
  pure (p, c)

abbrev pub claimed_revision : RevisionJob → Project → Connection → ClaimedProcedureRevision
claimed_revision j p c = record {
  procedure_id = j.procedure_id;
  turn_id = j.turn_id;
  job_id = j.job_id;
  session_id = j.session_id;
  prompt_text = j.prompt_text;
  workspace_path = p.workspace_path;
  expected_revision = j.expected_revision;
  command = c.command;
  args = c.args;
  transport = c.transport;
}

unfoldable pub claim_revision_job : RevisionJob → Tx Db (Option ClaimedProcedureRevision)
claim_revision_job j = do
  found ← procedure_workspace j.procedure_id
  update_procedure_turns (λ db t. t.turn_id == j.turn_id) "running"
  pure (some (claimed_revision j found.0 found.1))

unfoldable pub claim_revision_tx : Tx Db (Option ClaimedProcedureRevision)
claim_revision_tx = do next ← take_revision; found_or next claim_revision_job (pure none)

unfoldable pub claim_procedure_revision : Db → Result (Option ClaimedProcedureRevision) × Db
claim_procedure_revision = commit claim_revision_tx
