-- ===== src/Execution/Claim.antt =====
-- ClaimExecutionJob: the worker takes the oldest queued job. ReconnectExecutionSession: it moves
-- the job to a new agent session.
use tejun.Prelude.{
  ◌+◌, String, Bool, true, false, Option, none, some, List, [], ◌==◌, ◌&&◌, ◌||◌, not,
  if◌then◌else◌, coalesce, map, ltb, text_lt,
}
use tejun.Shared.{no_rows, app_error}
use tejun.Sql.Tx.{
  Result, Tx, pure, gets, modify, attempt, require, fail_if, found_or, commit, ◌>>=◌, ◌>>◌,
}
use tejun.Sql.Table.{update_where, find, select_where, first_by, order_by, insert_row}
use tejun.Database.{Db}
use tejun.Database.Time.{Time, format}
use tejun.Database.Rows.{
  JobState, PermissionState, Connection, Project, Session, Execution, Check, Job, Permission,
}
use tejun.Execution.Statements.{
  ClaimedExecutionJob, ExecutionCheckTarget, has_execution, is_queued, is_running, update_jobs,
  update_runs, update_executions, in_run,
}

-- ORDER BY accepted_at, job_id: both are texts.
abbrev pub accepted_before : Job → Job → Bool
accepted_before j k =
    text_lt j.accepted_at k.accepted_at
    || (j.accepted_at == k.accepted_at && text_lt j.job_id k.job_id)

abbrev pub next_queued : Db → Option Job
next_queued db = first_by accepted_before (select_where (λ (j : Job). is_queued j.state) db.jobs)

abbrev pub is_next : Option Job → Job → Bool
is_next none k = false
is_next (some j) k = k.job_id == j.job_id

-- UPDATE execution_agent_jobs SET state = 'running' WHERE job_id = (SELECT ...) RETURNING ...
unfoldable pub take_queued : Tx Db (Option Job)
take_queued = do
  next ← gets next_queued
  update_jobs (is_next next) (λ k. record k { state = JobState.running })
  pure next

unfoldable pub target_of : Check → ExecutionCheckTarget
target_of c = record {
  check_id = c.check_id;
  instruction = c.instruction;
  expected_result = c.expected_result;
  sequence = c.sequence;
  title = c.title;
  suggested_command = c.suggested_command;
}

-- The join of execution_run_checks and execution_checks, by sequence.
abbrev pub run_targets : String → String → Db → List ExecutionCheckTarget
run_targets execution_id run_id db = map target_of (
    order_by (λ (c d : Check). ltb c.sequence d.sequence)
      (select_where (λ (c : Check). c.execution_id == execution_id && in_run run_id db c.check_id)
        db.checks))

-- The workspace and the connection, by two joins from the execution.
unfoldable pub workspace_of : String → Tx Db (Project × Connection)
workspace_of execution_id = do
  e ← require (λ db. find (has_execution execution_id) db.executions) no_rows
  p ← require (λ db. find (λ (q : Project). q.project_id == e.project_id) db.projects) no_rows
  c ←
      require (λ db. find (λ (d : Connection). d.connection_id == p.connection_id) db.connections)
        no_rows
  pure (p, c)

abbrev pub start_run : String → Tx Db Unit
start_run run_id =
    if run_id == ""
    then pure tt
    else update_runs (λ r. r.run_id == run_id) (λ r. record r { state = JobState.running })

abbrev pub claimed : Job → Project → Connection → List ExecutionCheckTarget → ClaimedExecutionJob
claimed j p c targets = record {
  execution_id = j.execution_id;
  run_id = coalesce j.run_id "";
  turn_id = coalesce j.turn_id "";
  session_id = j.session_id;
  job_id = j.job_id;
  kind = j.kind;
  prompt_text = j.prompt_text;
  workspace_path = p.workspace_path;
  command = c.command;
  args = c.args;
  transport = c.transport;
  check_ids = map (λ (t : ExecutionCheckTarget). t.check_id) targets;
  checks = targets;
}

-- The branch with a queued job.
unfoldable pub claim_job : Job → Tx Db (Option ClaimedExecutionJob)
claim_job j = do
  found ← workspace_of j.execution_id
  targets ← gets (λ db.
      if coalesce j.run_id "" == ""
      then []
      else run_targets j.execution_id (coalesce j.run_id "") db)
  start_run (coalesce j.run_id "")
  pure (some (claimed j found.0 found.1 targets))

unfoldable pub claim_tx : Tx Db (Option ClaimedExecutionJob)
claim_tx = do next ← take_queued; found_or next claim_job (pure none)

unfoldable pub claim_execution_job : Db → Result (Option ClaimedExecutionJob) × Db
claim_execution_job = commit claim_tx

unfoldable pub insert_session : Session → Tx Db Unit
insert_session s = do
  rows ← attempt (λ db. insert_row (λ (t : Session). t.session_id == s.session_id) s db.sessions)
  modify (λ db. record db { sessions = rows })

-- state IN ('pending', 'responding')
abbrev pub is_open : PermissionState → Bool
is_open PermissionState.pending = true
is_open PermissionState.responding = true
is_open _ = false

-- UPDATE execution_agent_jobs SET session_id=? WHERE job_id=? AND state='running'
unfoldable pub move_job : String → String → Tx Db Unit
move_job job_id session_id =
    update_jobs (λ j. j.job_id == job_id && is_running j.state)
      (λ j. record j { session_id = session_id })

unfoldable pub reconnect_tx : ClaimedExecutionJob → String → String → Time → Tx Db Unit
reconnect_tx job session_id agent_session_id at = do
  e ←
      require
        (λ db.
          find
            (λ (x : Execution).
              x.execution_id == job.execution_id
              && x.session_id == job.session_id
              && coalesce x.active_run_id "" == job.run_id)
            db.executions)
        no_rows
  p ← require (λ db. find (λ (q : Project). q.project_id == e.project_id) db.projects) no_rows
  fail_if (not (coalesce p.current_session_id e.session_id == job.session_id))
      (app_error "invalid_state" "現在のAgent sessionではありません")
  modify (λ db. record db {
    sessions =
        update_where (λ (s : Session). s.session_id == job.session_id)
          (λ s. record s {
            state = "interrupted";
            disconnected_at = some (format at);
            revision = s.revision + 1;
          })
          db.sessions;
  })
  insert_session (record {
    session_id = session_id;
    agent_session_id = agent_session_id;
    previous_session_id = job.session_id;
    project_id = e.project_id;
    state = "ready";
    revision = 1;
    started_at = format at;
    disconnected_at = none;
  })
  modify (λ db. record db {
    projects =
        update_where (λ (q : Project). q.project_id == e.project_id)
          (λ q. record q {
            current_session_id = some session_id;
            revision = q.revision + 1;
            updated_at = at.micros;
          })
          db.projects;
  })
  update_executions (has_execution job.execution_id)
      (λ x. record x { session_id = session_id; revision = x.revision + 1 })
  move_job job.job_id session_id
  (if job.run_id == ""
      then pure tt
      else update_runs (λ r. r.run_id == job.run_id) (λ r. record r { session_id = session_id }))
  modify (λ db. record db {
    permissions =
        update_where (λ (q : Permission). q.session_id == job.session_id && is_open q.state)
          (λ q. record q { state = PermissionState.expired }) db.permissions;
  })

unfoldable pub reconnect_execution_session :
    ClaimedExecutionJob → String → String → Time → Db → Result (Unit {0}) × Db
reconnect_execution_session job session_id agent_session_id at =
    commit (reconnect_tx job session_id agent_session_id at)
