-- ===== src/Execution/Tests.antt =====
-- One execution with two checks, and requests on it: the concrete runs that the examples start from.
pub mod Program
pub mod Examples
pub mod Queue
pub mod Generated
use tejun.Prelude.{
  ℕ, String, Bool, true, false, Option, none, some, List, [], ◌∷◌, ◌≡◌, refl, ◌+s◌, ◌++◌,
}
use tejun.Sql.Tx.{Result, ok, err}
use tejun.Database.{Db}
use tejun.Database.Time.{Time, format}
use tejun.Database.Rows.{
  JobState, AiStatus, HumanStatus, ExecutionStatus, ProjectStatus, Stage, JobKind, Connection,
  Project, Session, Execution, Check, Job,
}
use tejun.Database.PlanRows.{Plans}
use tejun.Database.Ledger.{MutationResult, ExecutionJobAccepted, CancellationAccepted}
use tejun.Execution.Statements.{
  ClaimedExecutionJob, ExecutionJobRecord, ExecutionCheckTarget, ExecutionCheckResult,
  ExecutionJobResult,
}
use tejun.Execution.Accept.{accept_execution_job, accepted}
use tejun.Execution.Claim.{claim_execution_job}
use tejun.Execution.Complete.{ExecuteError, complete_execution_job}
use tejun.Execution.Cancel.{
  CancelAgentOperationInput, CancelAgentOperationRecord, cancel_execution_job,
  accept_execution_cancellation,
}
use tejun.Execution.Recover.{fail_interrupted_execution_jobs}

abbrev pub noon : Time
noon = record { second = "2026-09-26T12:00:00"; nanos = 0; micros = 1790424000000000 }

abbrev pub later : Time
later = record { second = "2026-09-26T12:00:05"; nanos = 500000000; micros = 1790424005500000 }

abbrev pub check : String → ℕ → AiStatus → Check
check id sequence status = record {
  execution_id = "e1";
  check_id = id;
  sequence = sequence;
  title = id;
  instruction = "look";
  expected_result = "there";
  suggested_command = "";
  ai_required = true;
  human_required = false;
  ai_status = status;
  human_status = HumanStatus.pending;
  human_evidence_requirement = "none";
  ai_checked_at = none;
  human_checked_at = none;
  ai_failure_summary = "";
}

-- A project without preparation, exports and evidence records.
abbrev pub no_plans : Plans
no_plans = record {
  default_connection_id = some "a1";
  preparations = [];
  check_plans = [];
  check_items = [];
  background_jobs = [];
  preparation_jobs = [];
  preparation_messages = [];
  preparation_turns = [];
  configuration_claims = [];
  elicitations = [];
  acp_sessions = [];
  exports = [];
  evidence_records = [];
  check_evidence = [];
  procedure_evidence = [];
  procedure_drafts = [];
  blob_deletions = [];
}

abbrev pub start : Db
start = record {
  connections =
      record { connection_id = "a1"; command = "agent"; args = []; transport = "stdio" } ∷ [];
  projects =
      record {
        project_id = "p1";
        lineage_id = "p1";
        source_project_id = none;
        source_procedure_id = none;
        connection_id = "a1";
        name = "first";
        description = "";
        workspace_path = "/work";
        status = ProjectStatus.ai_running;
        current_stage = Stage.execution;
        current_session_id = some "s1";
        revision = 1;
        created_at = 0;
        updated_at = 0;
        completed_at = none;
        archived_at = none;
        error_code = none;
      }
      ∷ [];
  sessions = [];
  executions =
      record {
        execution_id = "e1";
        project_id = "p1";
        session_id = "s1";
        status = ExecutionStatus.active;
        active_run_id = none;
        revision = 3;
        started_at = "2026-09-26T11:00:00Z";
        completed_at = none;
      }
      ∷ [];
  checks = check "c1" 1 AiStatus.pending ∷ check "c2" 2 AiStatus.failed ∷ [];
  runs = [];
  run_checks = [];
  turns = [];
  jobs = [];
  evidence = [];
  permissions = [];
  procedures = [];
  procedure_turns = [];
  revision_jobs = [];
  procedure_sources = [];
  source_evidence = [];
  blobs = [];
  plans = no_plans;
  receipts = [];
  outbox = [];
  change_sequence = 7;
}

-- A request to run both checks.
abbrev pub run_both : ExecutionJobRecord
run_both = record {
  execution_id = "e1";
  job_id = "j1";
  run_id = "r1";
  turn_id = "";
  kind = JobKind.checks;
  prompt_text = "";
  operation_id = "o1";
  expected_revision = 3;
  check_ids = [];
  accepted_at = noon;
  event = record {
    id = "v1";
    name = "execution.updated";
    emitted_at = noon;
    aggregate_type = "execution";
    aggregate_id = "e1";
    correlation = "o1";
  };
}

-- The same operation id for the first check alone.
abbrev pub run_one : ExecutionJobRecord
run_one = record run_both { check_ids = "c1" ∷ [] }

-- A hash and a digest that keep all of their input.
abbrev pub plain_hash : String → String
plain_hash s = s

abbrev pub plain_digest : CancelAgentOperationInput → String
plain_digest i = i.session_id +s "|" +s i.turn_id +s "|" +s i.run_id +s "|" +s i.job_id

abbrev pub queued : Db
queued = (accept_execution_job plain_hash run_both start).1

abbrev pub running : Db
running = (claim_execution_job queued).1

abbrev pub target : String → ℕ → ExecutionCheckTarget
target id sequence = record {
  check_id = id;
  instruction = "look";
  expected_result = "there";
  sequence = sequence;
  title = id;
  suggested_command = "";
}

-- The job as the worker has it.
abbrev pub job : ClaimedExecutionJob
job = record {
  execution_id = "e1";
  run_id = "r1";
  turn_id = "";
  session_id = "s1";
  job_id = "j1";
  kind = JobKind.checks;
  prompt_text = "";
  workspace_path = "/work";
  command = "agent";
  args = [];
  transport = "stdio";
  check_ids = "c1" ∷ "c2" ∷ [];
  checks = target "c1" 1 ∷ target "c2" 2 ∷ [];
}

abbrev pub both_seen : ExecutionJobResult
both_seen = record {
  message = "done";
  checks =
      record { check_id = "c2"; status = "failed"; evidence = "not there" }
      ∷ record { check_id = "c1"; status = "completed"; evidence = "there" }
      ∷ [];
  logs = [];
  is_cancelled = false;
  incremental = false;
}

abbrev pub completed : Db
completed = (complete_execution_job job both_seen none later running).1

abbrev pub cancel_input : CancelAgentOperationInput
cancel_input = record {
  session_id = "s1";
  turn_id = "";
  run_id = "";
  job_id = "j1";
  operation_id = "o2";
}

abbrev pub cancel_record : CancelAgentOperationRecord
cancel_record = record {
  input = cancel_input;
  cancellation_job_id = "k1";
  event_id = "v2";
  requested_at = later;
}

abbrev pub stopping : Db
stopping = (cancel_execution_job plain_hash "j1" "o2" later running).1

abbrev pub asked : Db
asked = (accept_execution_cancellation plain_digest cancel_record running).1

abbrev pub recovered : Db
recovered = (fail_interrupted_execution_jobs later stopping).1

-- A second job in the queue, a message.
abbrev pub waiting : Db
waiting = record queued {
  jobs =
      queued.jobs
      ++ record {
        job_id = "j2";
        execution_id = "e1";
        run_id = none;
        turn_id = some "t2";
        session_id = "s1";
        kind = JobKind.message;
        state = JobState.queued;
        prompt_text = "hello";
        accepted_at = "2026-09-26T12:00:09Z";
        completed_at = none;
      }
        ∷ [];
}

abbrev pub first_claimed : Db
first_claimed = (claim_execution_job waiting).1

abbrev pub other_job : ClaimedExecutionJob
other_job = record job {
  run_id = "";
  turn_id = "t2";
  job_id = "j2";
  kind = JobKind.message;
  prompt_text = "hello";
  check_ids = [];
  checks = [];
}
