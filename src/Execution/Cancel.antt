-- ===== src/Execution/Cancel.antt =====
-- CancelExecutionJob and AcceptExecutionCancellation: a queued job is cancelled at once, a running
-- one is asked to stop.
use tejun.Prelude.{
  String, Bool, false, Option, none, some, [], ◌∷◌, ◌==◌, ◌+s◌, ◌&&◌, ◌||◌, not, if◌then◌else◌,
  coalesce, text_lt,
}
use tejun.Shared.{no_rows, app_error}
use tejun.Sql.Tx.{Result, Tx, pure, require, fail_if, found_or, commit, ◌>>=◌, ◌>>◌}
use tejun.Sql.Table.{find, select_where, first_by}
use tejun.Database.{Db}
use tejun.Database.Time.{Time, format}
use tejun.Database.Rows.{JobState, AiStatus, Job}
use tejun.Database.Ledger.{MutationResult, CancellationAccepted, Stored}
use tejun.Mutation.{request_hash, existing_result, next_sequence, save_mutation, mutation}
use tejun.Execution.Statements.{
  has_job, is_queued, is_running, is_claimed, is_cancellation_requested, column_is, in_run,
  update_jobs, update_runs, update_turns, update_checks, release_run,
}

abbrev pub as_job_cancelled : Stored → Option (MutationResult Bool)
as_job_cancelled (Stored.job_cancelled r) = some r
as_job_cancelled _ = none

abbrev pub as_cancellation : Stored → Option (MutationResult CancellationAccepted)
as_cancellation (Stored.cancellation r) = some r
as_cancellation _ = none

-- state != "queued" && state != "running" && state != "cancellation_requested"
abbrev pub is_finished : JobState → Bool
is_finished state = not (is_queued state || is_claimed state)

-- The run of a queued job that is cancelled, its checks, and the execution's active run.
unfoldable pub cancel_run : String → String → Time → Tx Db Unit
cancel_run execution_id run_id at = if run_id == "" then pure tt else do
  update_runs (λ r. r.run_id == run_id)
      (λ r. record r { state = JobState.cancelled; completed_at = some (format at) })
  update_checks (λ db c. c.execution_id == execution_id && in_run run_id db c.check_id)
      (λ c. record c { ai_status = AiStatus.pending })
  release_run execution_id run_id

-- UPDATE execution_agent_jobs SET state = 'cancelled', completed_at = ? WHERE ... state = 'queued'
unfoldable pub cancel_queued : String → Time → Tx Db Unit
cancel_queued job_id at =
    update_jobs (λ j. j.job_id == job_id && is_queued j.state)
      (λ j. record j { state = JobState.cancelled; completed_at = some (format at) })

-- UPDATE execution_agent_jobs SET state = 'cancellation_requested' WHERE ... state = 'running'
unfoldable pub request_running : String → Tx Db Unit
request_running job_id =
    update_jobs (λ j. j.job_id == job_id && is_running j.state)
      (λ j. record j { state = JobState.cancellation_requested })

unfoldable pub request_run : String → Tx Db Unit
request_run run_id =
    if run_id == ""
    then pure tt
    else update_runs (λ r. r.run_id == run_id && is_running r.state)
        (λ r. record r { state = JobState.cancellation_requested })

-- The switch on the job's state.
unfoldable pub cancel_job : Job → Time → Tx Db Unit
cancel_job j at =
    if is_queued j.state
    then (do
      cancel_queued j.job_id at
      cancel_run j.execution_id (coalesce j.run_id "") at
      update_turns (λ t. column_is j.turn_id t.turn_id) (λ t. record t { status = "cancelled" }))
    else if is_running j.state
    then (do request_running j.job_id; request_run (coalesce j.run_id ""))
    else pure tt

abbrev pub cancel_result : Job → String → Time → MutationResult Bool
cancel_result j operation_id at = record {
  value = is_running j.state;
  receipt = record { operation_id = operation_id; committed_at = at; change_sequence = 0 };
}

module _ (sha256 : String → String) where
  -- The branch of a cancellation that has no receipt yet.
  unfoldable pub cancel_new : String → String → Time → Tx Db Bool
  cancel_new job_id operation_id at = do
    j ← require (λ db. find (has_job job_id) db.jobs) no_rows
    fail_if (is_finished j.state) (app_error "invalid_state" "jobは既に終了しています")
    cancel_job j at
    sequence ← next_sequence
    save_mutation Stored.job_cancelled "execution_job:cancel" operation_id
        (request_hash sha256 (job_id ∷ [])) (cancel_result j operation_id at)
        (record {
          id = job_id +s ":cancel:" +s operation_id;
          name = "execution.updated";
          emitted_at = at;
          aggregate_type = "execution";
          aggregate_id = j.execution_id;
          correlation = operation_id;
        })
        sequence
    pure (is_running j.state)

  -- The transaction; the result tells whether a running job has to be stopped.
  unfoldable pub cancel_tx : String → String → Time → Tx Db Bool
  cancel_tx job_id operation_id at = do
    replayed ←
        existing_result as_job_cancelled "execution_job:cancel" operation_id
          (request_hash sha256 (job_id ∷ []))
    found_or replayed (λ _. pure false) (cancel_new job_id operation_id at)

  unfoldable pub cancel_execution_job : String → String → Time → Db → Result Bool × Db
  cancel_execution_job job_id operation_id at = commit (cancel_tx job_id operation_id at)

-- CancelAgentOperationInput and CancelAgentOperationRecord of
-- internal/application/preparation_agent.go
pub record CancelAgentOperationInput : Type 0 where
  pub session_id : String
  pub turn_id : String
  pub run_id : String
  pub job_id : String
  pub operation_id : String

pub record CancelAgentOperationRecord : Type 0 where
  pub input : CancelAgentOperationInput
  pub open input use *
  pub cancellation_job_id : String
  pub event_id : String
  pub requested_at : Time

-- (? = '' OR job_id = ?) AND (? = '' OR run_id = ?) AND (? = '' OR turn_id = ?)
abbrev pub is_cancel_target : CancelAgentOperationRecord → Job → Bool
is_cancel_target r j =
    (r.job_id == "" || j.job_id == r.job_id)
    && (r.run_id == "" || column_is j.run_id r.run_id)
    && (r.turn_id == "" || column_is j.turn_id r.turn_id)

-- ORDER BY accepted_at DESC
abbrev pub accepted_after : Job → Job → Bool
accepted_after j k = text_lt k.accepted_at j.accepted_at

unfoldable pub target_status : JobState → String
target_status state = if is_queued state then "cancelled" else "cancellation_requested"

-- "local_cancel", "session_cancel" or "rpc_cancel"
unfoldable pub mechanism_of : Job → String
mechanism_of j =
    if is_queued j.state
    then "local_cancel"
    else if coalesce j.run_id "" == "" && coalesce j.turn_id "" == ""
    then "rpc_cancel"
    else "session_cancel"

-- The updates of a cancellation that names a session.
unfoldable pub cancel_target : Job → Time → Tx Db Unit
cancel_target j at =
    if is_cancellation_requested j.state
    then pure tt
    else if is_queued j.state
    then (do
      cancel_queued j.job_id at
      cancel_run j.execution_id (coalesce j.run_id "") at
      (if coalesce j.turn_id "" == ""
          then pure tt
          else update_turns (λ t. t.turn_id == coalesce j.turn_id "")
              (λ t. record t { status = "cancelled" })))
    else do request_running j.job_id; request_run (coalesce j.run_id "")

-- `digest` is the hash of the input's JSON text, of the standard library.
module _ (digest : CancelAgentOperationInput → String) where
  -- The branch of a cancellation that has no receipt yet.
  unfoldable pub cancellation_new :
      CancelAgentOperationRecord → Tx Db (MutationResult CancellationAccepted × Bool × String)
  cancellation_new r = do
    j ←
        require (λ db. first_by accepted_after (select_where (is_cancel_target r) db.jobs))
          (app_error "not_found" "対象がありません")
    fail_if (not (j.session_id == r.session_id))
        (app_error "validation_error" "取消対象のsessionが一致しません")
    fail_if (is_finished j.state) (app_error "invalid_state" "取消対象は既に完了しています")
    cancel_target j r.requested_at
    result ←
        mutation Stored.cancellation "cancel_agent_operation" r.operation_id (digest r.input)
          (record {
            job_id = r.cancellation_job_id;
            target_status = target_status j.state;
            requested_at = r.requested_at;
            mechanism = mechanism_of j;
          })
          r.requested_at
          (record {
            id = r.event_id;
            name = "execution.updated";
            emitted_at = r.requested_at;
            aggregate_type = "execution";
            aggregate_id = j.execution_id;
            correlation = r.operation_id;
          })
    pure (result, is_running j.state, j.job_id)

  unfoldable pub cancellation_tx :
      CancelAgentOperationRecord → Tx Db (MutationResult CancellationAccepted × Bool × String)
  cancellation_tx r = do
    fail_if
        (r.session_id == ""
          || r.operation_id == ""
          || (r.run_id == "" && r.turn_id == "" && r.job_id == ""))
        (app_error "validation_error" "取消対象が必要です")
    replayed ←
        existing_result as_cancellation "cancel_agent_operation" r.operation_id (digest r.input)
    found_or replayed (λ result. pure (result, false, "")) (cancellation_new r)

  unfoldable pub accept_execution_cancellation :
      CancelAgentOperationRecord
      → Db
      → Result (MutationResult CancellationAccepted × Bool × String) × Db
  accept_execution_cancellation r = commit (cancellation_tx r)
