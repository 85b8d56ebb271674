-- ===== src/Execution/Checks.antt =====
-- StartExecutionCheck and CompleteExecutionCheck: one check of a run that the worker carries out.
use Prim.Native.String.{String}
use tejun.Prelude.{
  ℕ, suc, Bool, true, false, none, some, List, [], ◌∷◌, ◌==◌, ◌+s◌, ◌&&◌, ◌||◌, not, nat_eq,
  if◌then◌else◌, is_blank, decimal,
}
use tejun.Shared.{app_error}
use tejun.Sql.Tx.{Result, Tx, pure, gets, fail_if, commit, ◌>>=◌, ◌>>◌}
use tejun.Sql.Table.{exists, count_where}
use tejun.Database.{Db}
use tejun.Database.Time.{Time, format}
use tejun.Database.Rows.{AiStatus, Check, Job}
use tejun.Mutation.{next_sequence}
use tejun.Execution.Statements.{
  ClaimedExecutionJob, ExecutionCheckTarget, ExecutionCheckResult, is_running, insert_turn,
  insert_evidence, update_checks,
}

abbrev pub is_queued_check : AiStatus → Bool
is_queued_check AiStatus.queued = true
is_queued_check _ = false

abbrev pub is_running_check : AiStatus → Bool
is_running_check AiStatus.running = true
is_running_check _ = false

-- WHERE execution_id=? AND check_id=? AND ai_status='queued' AND EXISTS (... state='running')
abbrev pub startable : ClaimedExecutionJob → ExecutionCheckTarget → Db → Check → Bool
startable job check db c =
    c.execution_id == job.execution_id
    && c.check_id == check.check_id
    && is_queued_check c.ai_status
    && exists (λ (j : Job). j.job_id == job.job_id && is_running j.state) db.jobs

unfoldable pub start_check_tx : ClaimedExecutionJob → ExecutionCheckTarget → Time → Tx Db Unit
start_check_tx job check at = do
  changed ← gets (λ db. count_where (startable job check db) db.checks)
  update_checks (startable job check) (λ c. record c { ai_status = AiStatus.running })
  fail_if (not (nat_eq changed 1)) (app_error "invalid_state" "実行対象のチェックがありません")
  insert_turn (record {
    turn_id = job.job_id +s ":" +s check.check_id +s ":start";
    execution_id = job.execution_id;
    role = "system";
    text = decimal check.sequence +s ". " +s check.title +s " のAIチェックを開始しました";
    status = "completed";
    created_at = format at;
  })
  sequence ← next_sequence
  pure tt

unfoldable pub start_execution_check :
    ClaimedExecutionJob → ExecutionCheckTarget → Time → Db → Result (Unit {0}) × Db
start_execution_check job check at = commit (start_check_tx job check at)

-- item.Status as a column's value, once it is known to be one of the two.
abbrev pub item_status : ExecutionCheckResult → AiStatus
item_status item = if item.status == "completed" then AiStatus.completed else AiStatus.failed

-- item.Status != "completed" && item.Status != "failed"
abbrev pub bad_status : ExecutionCheckResult → Bool
bad_status item = not (item.status == "completed") && not (item.status == "failed")

-- What a result writes into its check.
abbrev pub record_result : ExecutionCheckResult → Time → Check → Check
record_result item at c = record c {
  ai_status = item_status item;
  ai_checked_at = if item.status == "completed" then some (format at) else none;
  ai_failure_summary = if item.status == "completed" then "" else item.evidence;
}

abbrev pub is_running_target : ClaimedExecutionJob → ExecutionCheckTarget → Check → Bool
is_running_target job check c =
    c.execution_id == job.execution_id
    && c.check_id == check.check_id
    && is_running_check c.ai_status

-- The turns of the tool's log, numbered from `i`.
unfoldable pub insert_logs :
    ClaimedExecutionJob → ExecutionCheckTarget → Time → ℕ → List String → Tx Db Unit
insert_logs job check at i [] = pure tt
insert_logs job check at i (log ∷ logs) =
    insert_turn (record {
      turn_id = job.job_id +s ":" +s check.check_id +s ":tool:" +s decimal i;
      execution_id = job.execution_id;
      role = "system";
      text = log;
      status = "completed";
      created_at = format at;
    })
    >> insert_logs job check at (suc i) logs

unfoldable pub complete_check_tx :
    ClaimedExecutionJob
    → ExecutionCheckTarget
    → ExecutionCheckResult
    → List String
    → Time
    → Tx Db Unit
complete_check_tx job check item logs at = do
  fail_if (not (item.check_id == check.check_id) || is_blank item.evidence || bad_status item)
      (app_error "validation_failed" "AIチェックの結果が不正です")
  changed ← gets (λ db. count_where (is_running_target job check) db.checks)
  update_checks (λ db. is_running_target job check) (record_result item at)
  fail_if (not (nat_eq changed 1)) (app_error "invalid_state" "実行中のチェックがありません")
  insert_evidence (record {
    evidence_id = job.job_id +s ":" +s check.check_id;
    execution_id = job.execution_id;
    check_id = check.check_id;
    actor = "ai";
    kind = "text";
    text = item.evidence;
    display_name = "";
    blob_hash = none;
    created_at = format at;
  })
  insert_logs job check at 0 logs
  insert_turn (record {
    turn_id = job.job_id +s ":" +s check.check_id +s ":result";
    execution_id = job.execution_id;
    role = "agent";
    text =
        decimal check.sequence
        +s ". "
        +s check.title
        +s ": "
        +s (if item.status == "completed" then "完了" else "失敗")
        +s "。証跡: "
        +s item.evidence;
    status = "completed";
    created_at = format at;
  })
  sequence ← next_sequence
  pure tt

unfoldable pub complete_execution_check :
    ClaimedExecutionJob
    → ExecutionCheckTarget
    → ExecutionCheckResult
    → List String
    → Time
    → Db
    → Result (Unit {0}) × Db
complete_execution_check job check item logs at = commit (complete_check_tx job check item logs at)
