-- ===== src/Runner/Clients.antt =====
-- RunPendingChecks, SendMessage, Cancel and CancelAgentOperation of internal/application/
-- execution_run.go.
use tejun.Prelude.{ℕ, String, Option, none, some, List, [], if◌then◌else◌}
use tejun.Sql.Tx.{Result, ok, err}
use tejun.Database.{Db}
use tejun.Database.Time.{Time}
use tejun.Database.Rows.{JobKind}
use tejun.Database.Ledger.{MutationResult, ExecutionJobAccepted, CancellationAccepted, OutboxEvent}
use tejun.Execution.Accept.{accept_execution_job}
use tejun.Execution.Complete.{ExecuteError}
use tejun.Execution.Cancel.{
  CancelAgentOperationInput, CancelAgentOperationRecord, cancel_execution_job,
  accept_execution_cancellation,
}
use tejun.Runner.Turn.{World, as_execute_error}

abbrev pub updated_event : String → String → String → Time → OutboxEvent
updated_event id execution_id operation_id at = record {
  id = id;
  name = "execution.updated";
  emitted_at = at;
  aggregate_type = "execution";
  aggregate_id = execution_id;
  correlation = operation_id;
}

module _ (sha256 : String → String) (digest : CancelAgentOperationInput → String)
    (world : World) where
  -- RunPendingChecks
  unfoldable pub run_pending_checks :
      String → ℕ → List String → String → Db → Result (MutationResult ExecutionJobAccepted) × Db
  run_pending_checks execution_id expected_revision check_ids operation_id =
      accept_execution_job sha256 (record {
        execution_id = execution_id;
        job_id = world.new_id 0;
        run_id = world.new_id 1;
        turn_id = "";
        kind = JobKind.checks;
        prompt_text = "";
        operation_id = operation_id;
        expected_revision = expected_revision;
        check_ids = check_ids;
        accepted_at = world.now 0;
        event = updated_event (world.new_id 2) execution_id operation_id (world.now 0);
      })

  -- SendMessage
  unfoldable pub send_message :
      String → String → String → Db → Result (MutationResult ExecutionJobAccepted) × Db
  send_message execution_id text operation_id = accept_execution_job sha256 (record {
    execution_id = execution_id;
    job_id = world.new_id 0;
    run_id = "";
    turn_id = world.new_id 1;
    kind = JobKind.message;
    prompt_text = text;
    operation_id = operation_id;
    expected_revision = 0;
    check_ids = [];
    accepted_at = world.now 0;
    event = updated_event (world.new_id 2) execution_id operation_id (world.now 0);
  })

  -- Cancel: what is returned, the job whose agent is told to stop, and the database.
  unfoldable pub cancel : String → String → Db → Option ExecuteError × Option String × Db
  cancel job_id operation_id db =
      let out = cancel_execution_job sha256 job_id operation_id (world.now 0) db in
      elim out.0 [
        | err e ↦ (some (as_execute_error sha256 digest world e), none, out.1)
        | ok running ↦
            if running then (world.cancel job_id, some job_id, out.1) else (none, none, out.1)
      ]

  -- CancelAgentOperation
  unfoldable pub cancel_agent_operation :
      CancelAgentOperationInput
      → Db
      → Option (MutationResult CancellationAccepted) × Option ExecuteError × Option String × Db
  cancel_agent_operation input db =
      let r : CancelAgentOperationRecord = record {
        input = input;
        cancellation_job_id = world.new_id 0;
        event_id = world.new_id 1;
        requested_at = world.now 0;
      } in
      let out = accept_execution_cancellation digest r db in
      elim out.0 [
        | err e ↦ (none, some (as_execute_error sha256 digest world e), none, out.1)
        | ok (result, running, job_id) ↦
            if running
            then (some result, world.cancel job_id, some job_id, out.1)
            else (some result, none, none, out.1)
      ]
