-- ===== src/Execution/Tests/Program.antt =====
-- All that the runs compute with.
use tejun.Prelude.{decimal, is_blank, is_space, mem_text, remove_text}
use tejun.Database.Time.{format}
use tejun.Execution.Accept.{
  accept_execution_job, accept_new, accept_tx, admit, enqueue, invalid_selection, join, queue_check,
  selection, target_checks, targets_of,
}
use tejun.Execution.Cancel.{
  accept_execution_cancellation, cancel_execution_job, cancel_job, cancel_new, cancel_queued,
  cancel_run, cancel_target, cancel_tx, cancellation_new, cancellation_tx, mechanism_of,
  request_run, request_running, target_status,
}
use tejun.Execution.Checks.{
  complete_check_tx, complete_execution_check, insert_logs, start_check_tx, start_execution_check,
}
use tejun.Execution.Claim.{
  claim_execution_job, claim_job, claim_tx, insert_session, move_job, reconnect_execution_session,
  reconnect_tx, take_queued, target_of, workspace_of,
}
use tejun.Execution.Complete.{
  close_job, complete_execution_job, complete_tx, failure_summary, final_state, insert_failed_logs,
  judge, report_failure, review, settle_checks, settle_run, settle_turns, write_result,
}
use tejun.Execution.Operations.{history, perform}
use tejun.Execution.Recover.{
  announce, distinct, fail_interrupted_execution_jobs, recover_jobs, recover_tx,
}
use tejun.Execution.Statements.{
  execution_key, in_run, insert_evidence, insert_job, insert_run, insert_run_check, insert_turn,
  null_if_empty, release_run,
}
use tejun.Mutation.{
  check_receipt, event_data, existing_result, framed, insert_outbox, insert_receipt, mutation,
  next_sequence, request_hash_version, save_mutation, status_text,
}
use tejun.Sql.Table.{
  count_where, exists, find, first_by, insert_row, order_by, select_where, update_where,
}
use tejun.Sql.Tx.{
  attempt, commit, fail, fail_if, for_each, found_or, gets, lift, modify, pure, require, ◌>>=◌,
}

unfoldable pub program : Unit {0}
unfolding accept_execution_cancellation accept_execution_job accept_new accept_tx admit announce
    attempt cancel_execution_job cancel_job cancel_new cancel_queued cancel_run cancel_target
    cancel_tx cancellation_new cancellation_tx check_receipt claim_execution_job claim_job claim_tx
    close_job commit complete_check_tx complete_execution_check complete_execution_job complete_tx
    count_where decimal distinct enqueue event_data execution_key existing_result exists fail
    fail_if fail_interrupted_execution_jobs failure_summary final_state find first_by for_each
    format found_or framed gets history in_run insert_evidence insert_failed_logs insert_job
    insert_logs insert_outbox insert_receipt insert_row insert_run insert_run_check insert_session
    insert_turn invalid_selection is_blank is_space join judge lift mechanism_of mem_text modify
    move_job mutation next_sequence null_if_empty order_by perform pure queue_check
    reconnect_execution_session reconnect_tx recover_jobs recover_tx release_run remove_text
    report_failure request_hash_version request_run request_running require review save_mutation
    select_where selection settle_checks settle_run settle_turns start_check_tx
    start_execution_check status_text take_queued target_checks target_of target_status targets_of
    update_where workspace_of write_result ◌>>=◌
program = tt
