-- ===== src/Execution/Complete.antt =====
-- CompleteExecutionJob: the worker's outcome of a job ends it, its run, its checks and its turn.
pub mod Results
use tejun.Prelude.{
  ℕ, zero, suc, ◌+◌, String, Bool, true, false, Option, none, some, List, [], ◌∷◌, ◌==◌, ◌+s◌, ◌&&◌,
  ◌||◌, not, nat_eq, if◌then◌else◌, is_blank, is_empty, length, decimal, map, coalesce, mem_text,
  remove_text,
}
use tejun.Shared.{Error, AppError, app_error, no_rows}
use tejun.Sql.Tx.{
  Result, ok, err, Tx, pure, gets, modify, fail_if, require, for_each, commit, ◌>>=◌, ◌>>◌,
}
use tejun.Sql.Table.{update_where, exists, find, count_where, select_where}
use tejun.Database.{Db}
use tejun.Database.Time.{Time, format}
use tejun.Database.Rows.{JobState, AiStatus, Check, Job, Run, RunCheck, Turn}
use tejun.Mutation.{next_sequence, insert_outbox}
use tejun.Execution.Checks.{bad_status, record_result}
use tejun.Execution.Statements.{
  ClaimedExecutionJob, ExecutionCheckResult, ExecutionJobResult, job_state_text, has_job,
  is_claimed, is_cancellation_requested, insert_turn, insert_evidence, in_run, update_jobs,
  update_runs, update_turns, update_checks, release_run,
}

-- The error of the executor: a `*shared.Error`, or another with the text of its Error method.
pub data ExecuteError : Type 0 where
  app : AppError → ExecuteError
  other : String → ExecuteError

-- What the results of a run amount to: is the job still completed, and do they count at all?
pub record Verdict : Type 0 where
  pub succeeded : Bool
  pub valid : Bool

abbrev pub rejected : Verdict
rejected = record { succeeded = false; valid = false }

-- !expected[item.CheckID] || strings.TrimSpace(item.Evidence) == "" || ...
abbrev pub bad_item : List String → ExecutionCheckResult → Bool
bad_item expected item =
    not (mem_text item.check_id expected) || is_blank item.evidence || bad_status item

-- The loop over output.Checks, and the test after it; `expected` is the set of ids that are left.
unfoldable pub review : List String → List ExecutionCheckResult → Verdict
review expected [] =
    if is_empty expected then record { succeeded = true; valid = true } else rejected
review expected (item ∷ items) =
    let rest = review (remove_text item.check_id expected) items in
    if bad_item expected item
    then rejected
    else record { succeeded = rest.succeeded && not (item.status == "failed"); valid = rest.valid }

-- The test on the number of results, then the loop.
unfoldable pub judge : List String → List ExecutionCheckResult → Verdict
unfolding review
judge expected items =
    if is_empty expected || not (nat_eq (length items) (length expected))
    then rejected
    else review expected items

-- The state before the results are looked at.
abbrev pub first_state : JobState → ExecutionJobResult → Option ExecuteError → JobState
first_state current output none =
    if output.is_cancelled then JobState.cancelled else JobState.completed
first_state current output (some e) =
    if output.is_cancelled
    then JobState.cancelled
    else if is_cancellation_requested current
    then JobState.interrupted
    else JobState.failed

abbrev pub is_completed : JobState → Bool
is_completed JobState.completed = true
is_completed _ = false

abbrev pub is_cancelled_state : JobState → Bool
is_cancelled_state JobState.cancelled = true
is_cancelled_state _ = false

-- SELECT check_id FROM execution_run_checks WHERE run_id = ?
abbrev pub run_check_ids : String → Db → List String
run_check_ids run_id db =
    map (λ (c : RunCheck). c.check_id)
      (select_where (λ (c : RunCheck). c.run_id == run_id) db.run_checks)

-- The state that the job ends in, and whether its results count.
unfoldable pub final_state :
    ClaimedExecutionJob → ExecutionJobResult → Option ExecuteError → JobState → Db → JobState × Bool
unfolding judge
final_state job output error current db =
    let first = first_state current output error in
    let verdict = judge (run_check_ids job.run_id db) output.checks in
    if not (job.run_id == "") && is_completed first
    then (if verdict.succeeded then JobState.completed else JobState.failed, verdict.valid)
    else (first, false)

-- One result of a run that was not recorded check by check.
unfoldable pub write_result : ClaimedExecutionJob → Time → ExecutionCheckResult → Tx Db Unit
write_result job at item = do
  matched ← gets (λ db.
      count_where (λ (c : RunCheck). c.run_id == job.run_id && c.check_id == item.check_id)
        db.run_checks)
  if bad_status item || not (nat_eq matched 1) then pure tt else do
    update_checks (λ db c. c.execution_id == job.execution_id && c.check_id == item.check_id)
        (record_result item at)
    insert_evidence (record {
      evidence_id = job.job_id +s ":" +s item.check_id;
      execution_id = job.execution_id;
      check_id = item.check_id;
      actor = "ai";
      kind = "text";
      text = item.evidence;
      display_name = "";
      blob_hash = none;
      created_at = format at;
    })

unfoldable pub failure_summary : Option ExecuteError → String
failure_summary none = "AIチェックに失敗しました"
failure_summary (some (ExecuteError.app e)) = e.message
failure_summary (some (ExecuteError.other text)) = text

unfoldable pub insert_failed_logs : ClaimedExecutionJob → Time → ℕ → List String → Tx Db Unit
insert_failed_logs job at i [] = pure tt
insert_failed_logs job at i (log ∷ logs) =
    insert_turn (record {
      turn_id = job.job_id +s ":failed-log:" +s decimal i;
      execution_id = job.execution_id;
      role = "system";
      text = log;
      status = "completed";
      created_at = format at;
    })
    >> insert_failed_logs job at (suc i) logs

-- if executeErr != nil { ... }
unfoldable pub report_failure :
    ClaimedExecutionJob → ExecutionJobResult → Option ExecuteError → Time → Tx Db Unit
report_failure job output none at = pure tt
report_failure job output (some e) at = do
  insert_failed_logs job at 0 output.logs
  insert_turn (record {
    turn_id = job.job_id +s ":error";
    execution_id = job.execution_id;
    role = "system";
    text = failure_summary (some e);
    status = "failed";
    created_at = format at;
  })

abbrev pub is_queued_status : AiStatus → Bool
is_queued_status AiStatus.queued = true
is_queued_status _ = false

abbrev pub is_running_status : AiStatus → Bool
is_running_status AiStatus.running = true
is_running_status _ = false

-- A check of the run whose status is among those that `p` tells.
abbrev pub check_of_run : ClaimedExecutionJob → (AiStatus → Bool) → Db → Check → Bool
check_of_run job p db c =
    c.execution_id == job.execution_id && p c.ai_status && in_run job.run_id db c.check_id

-- The three branches on the checks of the run.
unfoldable pub settle_checks :
    ClaimedExecutionJob
    → ExecutionJobResult
    → Option ExecuteError
    → JobState
    → Bool
    → Time
    → Tx Db Unit
settle_checks job output error state valid at =
    if is_cancelled_state state
    then update_checks (check_of_run job (λ a. is_queued_status a || is_running_status a))
        (λ c. record c { ai_status = AiStatus.pending })
    else if valid && not output.incremental
    then for_each output.checks (write_result job at)
    else if not valid
    then (do
      update_checks (check_of_run job is_running_status) (λ c. record c {
        ai_status = AiStatus.failed;
        ai_checked_at = none;
        ai_failure_summary = failure_summary error;
      })
      update_checks (check_of_run job is_queued_status)
          (λ c. record c { ai_status = AiStatus.pending })
      report_failure job output error at)
    else pure tt

-- if job.RunID != "" { ... }
unfoldable pub settle_run :
    ClaimedExecutionJob
    → ExecutionJobResult
    → Option ExecuteError
    → JobState
    → Bool
    → Time
    → Tx Db Unit
settle_run job output error state valid at = if job.run_id == "" then pure tt else do
  update_runs (λ r. r.run_id == job.run_id)
      (λ r. record r { state = state; completed_at = some (format at) })
  settle_checks job output error state valid at
  release_run job.execution_id job.run_id

-- The turn of a message, and the agent's answer.
unfoldable pub settle_turns :
    ClaimedExecutionJob → ExecutionJobResult → JobState → Time → Tx Db Unit
settle_turns job output state at = do
  (if job.turn_id == ""
      then pure tt
      else update_turns (λ t. t.turn_id == job.turn_id)
          (λ t. record t { status = job_state_text state }))
  if output.message == ""
      then pure tt
      else insert_turn (record {
        turn_id = job.job_id +s ":response";
        execution_id = job.execution_id;
        role = "agent";
        text = output.message;
        status = job_state_text state;
        created_at = format at;
      })

-- state IN ('running', 'cancellation_requested')
abbrev pub is_open_job : String → Job → Bool
is_open_job id j = j.job_id == id && is_claimed j.state

-- The first part of the transaction: the job's row, its outcome, and the update that ends it.
unfoldable pub close_job :
    ClaimedExecutionJob → ExecutionJobResult → Option ExecuteError → Time → Tx Db (JobState × Bool)
close_job job output error at = do
  row ← require (λ db. find (has_job job.job_id) db.jobs) no_rows
  fail_if (not (is_claimed row.state)) (app_error "invalid_state" "jobは既に終了しています")
  outcome ← gets (final_state job output error row.state)
  affected ← gets (λ db. count_where (is_open_job job.job_id) db.jobs)
  update_jobs (is_open_job job.job_id)
      (λ j. record j { state = outcome.0; completed_at = some (format at) })
  fail_if (nat_eq affected 0) (app_error "invalid_state" "jobは既に終了しています")
  pure outcome

unfoldable pub complete_tx :
    ClaimedExecutionJob → ExecutionJobResult → Option ExecuteError → Time → Tx Db Unit
complete_tx job output error at = do
  outcome ← close_job job output error at
  settle_run job output error outcome.0 outcome.1 at
  settle_turns job output outcome.0 at
  sequence ← next_sequence
  insert_outbox
      (record {
        id = job.job_id +s ":" +s job_state_text outcome.0;
        name = "execution.updated";
        emitted_at = at;
        aggregate_type = "execution";
        aggregate_id = job.execution_id;
        correlation = "";
      })
      sequence

unfoldable pub complete_execution_job :
    ClaimedExecutionJob
    → ExecutionJobResult
    → Option ExecuteError
    → Time
    → Db
    → Result (Unit {0}) × Db
complete_execution_job job output error at = commit (complete_tx job output error at)
