-- ===== src/Execution/Operations/Kept.antt =====
-- Whatever the primitive writes keep, each transaction of ExecutionRepository keeps.
use tejun.Prelude.{◌≡◌, ℕ, suc, String, List, [], ◌∷◌, none, some, Bool, Option}
use tejun.Sql.Tx.{modify}
use tejun.Sql.Keeps.{IsPreorder, Keeps, Keeps-bind, keeps_rules}
use tejun.Database.{Db}
use tejun.Database.Time.{Time}
use tejun.Database.Rows.{JobState, Turn, Job, Run, RunCheck, Evidence, Execution, Session}
use tejun.Database.Ledger.{MutationResult, OutboxEvent, Stored, Receipt}
use tejun.Mutation.{
  existing_result, next_sequence, insert_outbox, insert_receipt, save_mutation, mutation,
}
use tejun.Execution.Statements.{
  ExecutionJobRecord, ClaimedExecutionJob, ExecutionCheckTarget, ExecutionCheckResult,
  ExecutionJobResult, insert_turn, insert_job, insert_run, insert_run_check, insert_evidence,
  execution_key, release_run,
}
use tejun.Execution.Accept.{queue_check, targets_of, enqueue, admit, accept_new, accept_tx}
use tejun.Execution.Claim.{
  workspace_of, take_queued, claim_job, claim_tx, insert_session, move_job, reconnect_tx,
}
use tejun.Execution.Checks.{start_check_tx, insert_logs, complete_check_tx}
use tejun.Execution.Complete.{
  ExecuteError, write_result, insert_failed_logs, report_failure, settle_checks, settle_run,
  settle_turns, close_job, complete_tx,
}
use tejun.Execution.Cancel.{
  CancelAgentOperationInput, CancelAgentOperationRecord, cancel_run, cancel_queued, request_running,
  request_run, cancel_job, cancel_new, cancel_tx, cancel_target, cancellation_new, cancellation_tx,
}
use tejun.Execution.Recover.{announce, recover_jobs, recover_tx}

-- The tables that a statement on another table leaves alone.
pub record SameCore (s t : Db) : Type 0 where
  pub jobs : s.jobs ≡ t.jobs
  pub receipts : s.receipts ≡ t.receipts
  pub outbox : s.outbox ≡ t.outbox
  pub change_sequence : s.change_sequence ≡ t.change_sequence

-- The writes that the transactions are made of: the statements on the tables beside the core, and one
-- by one those on execution_agent_jobs, the counter, the outbox and the receipts.
pub record Writes (R : Db → Db → Type 0) : Type 0 where
  pub order : IsPreorder R
  pub beside : (f : Db → Db) → ((s : Db) → SameCore (f s) s) → Keeps R (modify f)
  pub insert_job : (j : Job) → Keeps R (insert_job j)
  pub take_queued : Keeps R take_queued
  pub move_job : (j s : String) → Keeps R (move_job j s)
  pub close_job :
      (job : ClaimedExecutionJob) (o : ExecutionJobResult) (e : Option ExecuteError) (at : Time)
      → Keeps R (close_job job o e at)
  pub cancel_queued : (j : String) (at : Time) → Keeps R (cancel_queued j at)
  pub request_running : (j : String) → Keeps R (request_running j)
  pub recover_jobs : (at : Time) → Keeps R (recover_jobs at)
  pub next_sequence : Keeps R next_sequence
  pub insert_outbox : (e : OutboxEvent) (n : ℕ) → Keeps R (insert_outbox e n)
  pub insert_receipt : (r : Receipt) → Keeps R (insert_receipt r)

module _ {R : Db → Db → Type 0} (w : Writes R) where
  Keeps-next_sequence : Keeps R next_sequence
  Keeps-next_sequence = w.next_sequence

  Keeps-take_queued : Keeps R take_queued
  Keeps-take_queued = w.take_queued

  Keeps-save_mutation :
      {T : Type 0} (encode : MutationResult T → Stored) (scope operation_id hash : String)
      (result : MutationResult T) (event : OutboxEvent) (sequence : ℕ)
      → Keeps R (save_mutation encode scope operation_id hash result event sequence)
  unfolding save_mutation
  Keeps-save_mutation encode scope operation_id hash result event sequence =
      search (keeps_rules, w.order, w.insert_receipt, w.insert_outbox)

  Keeps-mutation :
      {T : Type 0} (encode : MutationResult T → Stored) (scope operation_id hash : String)
      (value : T) (at : Time) (event : OutboxEvent)
      → Keeps R (mutation encode scope operation_id hash value at event)
  unfolding mutation
  Keeps-mutation encode scope operation_id hash value at event =
      search (keeps_rules, w.order, Keeps-save_mutation, Keeps-next_sequence)

  Keeps-existing_result :
      {T : Type 0} (decode : Stored → Option (MutationResult T)) (scope operation_id hash : String)
      → Keeps R (existing_result decode scope operation_id hash)
  unfolding existing_result
  Keeps-existing_result decode scope operation_id hash = search (keeps_rules, w.order)

  Keeps-execution_key : (id : String) → Keeps R (execution_key id)
  unfolding execution_key
  Keeps-execution_key id = search (keeps_rules, w.order)

  Keeps-insert_turn : (t : Turn) → Keeps R (insert_turn t)
  unfolding insert_turn
  Keeps-insert_turn t = search (keeps_rules, w.order, w.beside, Keeps-execution_key)

  Keeps-insert_run : (r : Run) → Keeps R (insert_run r)
  unfolding insert_run
  Keeps-insert_run r = search (keeps_rules, w.order, w.beside, Keeps-execution_key)

  Keeps-insert_run_check : (c : RunCheck) → Keeps R (insert_run_check c)
  unfolding insert_run_check
  Keeps-insert_run_check c = search (keeps_rules, w.order, w.beside)

  Keeps-insert_evidence : (v : Evidence) → Keeps R (insert_evidence v)
  unfolding insert_evidence
  Keeps-insert_evidence v = search (keeps_rules, w.order, w.beside)

  Keeps-release_run : (e r : String) → Keeps R (release_run e r)
  unfolding release_run
  Keeps-release_run e r = search (keeps_rules, w.beside)

  ruleset stmts = (
    keeps_rules, Keeps-insert_turn, Keeps-insert_run, Keeps-insert_run_check, Keeps-insert_evidence,
    Keeps-release_run, Keeps-save_mutation, Keeps-mutation, Keeps-existing_result,
  )

  Keeps-queue_check : (r : ExecutionJobRecord) (id : String) → Keeps R (queue_check r id)
  unfolding queue_check
  Keeps-queue_check r id = search (stmts, w.order, w.beside)

  Keeps-admit : (r : ExecutionJobRecord) (e : Execution) → Keeps R (admit r e)
  unfolding admit
  Keeps-admit r e = search (stmts, w.order)

  Keeps-targets_of : (r : ExecutionJobRecord) → Keeps R (targets_of r)
  unfolding targets_of
  Keeps-targets_of r = search (stmts, w.order) depth 15

  Keeps-enqueue :
      (r : ExecutionJobRecord) (s : String) (ts : List String) → Keeps R (enqueue r s ts)
  unfolding enqueue
  Keeps-enqueue r s ts = search (stmts, w.order, w.beside, Keeps-queue_check) depth 12

  pub Keeps-accept_new : (r : ExecutionJobRecord) (h : String) → Keeps R (accept_new r h)
  unfolding accept_new
  Keeps-accept_new r h =
      search
        (
          stmts, w.order, Keeps-admit, Keeps-targets_of, Keeps-enqueue, w.insert_job,
          Keeps-next_sequence,
        )
        depth 12

  module _ (sha256 : String → String) where
    pub Keeps-accept_tx : (r : ExecutionJobRecord) → Keeps R (accept_tx sha256 r)
    unfolding accept_tx
    Keeps-accept_tx r = search (stmts, w.order, Keeps-accept_new) depth 12

  Keeps-workspace_of : (id : String) → Keeps R (workspace_of id)
  unfolding workspace_of
  Keeps-workspace_of id = search (stmts, w.order) depth 12

  pub Keeps-claim_job : (j : Job) → Keeps R (claim_job j)
  unfolding claim_job
  Keeps-claim_job j = search (stmts, w.order, w.beside, Keeps-workspace_of) depth 12

  pub Keeps-claim_tx : Keeps R claim_tx
  unfolding claim_tx
  Keeps-claim_tx = search (stmts, w.order, Keeps-claim_job, Keeps-take_queued) depth 12

  Keeps-insert_session : (s : Session) → Keeps R (insert_session s)
  unfolding insert_session
  Keeps-insert_session s = search (stmts, w.order, w.beside) depth 12

  pub Keeps-reconnect_tx :
      (job : ClaimedExecutionJob) (s a : String) (at : Time) → Keeps R (reconnect_tx job s a at)
  unfolding reconnect_tx
  Keeps-reconnect_tx job s a at =
      search (stmts, w.order, w.beside, Keeps-insert_session, w.move_job) depth 25

  pub Keeps-start_check_tx :
      (job : ClaimedExecutionJob) (c : ExecutionCheckTarget) (at : Time)
      → Keeps R (start_check_tx job c at)
  unfolding start_check_tx
  Keeps-start_check_tx job c at = search (stmts, w.order, w.beside) depth 15

  Keeps-insert_logs :
      (job : ClaimedExecutionJob) (c : ExecutionCheckTarget) (at : Time) (i : ℕ)
      (logs : List String)
      → Keeps R (insert_logs job c at i logs)
  unfolding insert_logs
  Keeps-insert_logs job c at i [] = search (stmts, w.order)
  Keeps-insert_logs job c at i (log ∷ logs) =
      Keeps-bind w.order _ _ (Keeps-insert_turn _) (λ _. Keeps-insert_logs job c at (suc i) logs)

  pub Keeps-complete_check_tx :
      (job : ClaimedExecutionJob) (c : ExecutionCheckTarget) (item : ExecutionCheckResult)
      (logs : List String) (at : Time)
      → Keeps R (complete_check_tx job c item logs at)
  unfolding complete_check_tx
  Keeps-complete_check_tx job c item logs at =
      search (stmts, w.order, w.beside, Keeps-insert_logs) depth 20

  Keeps-write_result :
      (job : ClaimedExecutionJob) (at : Time) (item : ExecutionCheckResult)
      → Keeps R (write_result job at item)
  unfolding write_result
  Keeps-write_result job at item = search (stmts, w.order, w.beside) depth 12

  Keeps-insert_failed_logs :
      (job : ClaimedExecutionJob) (at : Time) (i : ℕ) (logs : List String)
      → Keeps R (insert_failed_logs job at i logs)
  unfolding insert_failed_logs
  Keeps-insert_failed_logs job at i [] = search (stmts, w.order)
  Keeps-insert_failed_logs job at i (log ∷ logs) =
      Keeps-bind w.order _ _ (Keeps-insert_turn _)
        (λ _. Keeps-insert_failed_logs job at (suc i) logs)

  Keeps-report_failure :
      (job : ClaimedExecutionJob) (o : ExecutionJobResult) (e : Option ExecuteError) (at : Time)
      → Keeps R (report_failure job o e at)
  unfolding report_failure
  Keeps-report_failure job o none at = search (stmts, w.order)
  Keeps-report_failure job o (some e) at = search (stmts, w.order, Keeps-insert_failed_logs)

  Keeps-settle_checks :
      (job : ClaimedExecutionJob) (o : ExecutionJobResult) (e : Option ExecuteError) (st : JobState)
      (v : Bool) (at : Time)
      → Keeps R (settle_checks job o e st v at)
  unfolding settle_checks
  Keeps-settle_checks job o e st v at =
      search (stmts, w.order, w.beside, Keeps-write_result, Keeps-report_failure) depth 15

  pub Keeps-settle_run :
      (job : ClaimedExecutionJob) (o : ExecutionJobResult) (e : Option ExecuteError) (st : JobState)
      (v : Bool) (at : Time)
      → Keeps R (settle_run job o e st v at)
  unfolding settle_run
  Keeps-settle_run job o e st v at = search (stmts, w.order, w.beside, Keeps-settle_checks) depth 12

  pub Keeps-settle_turns :
      (job : ClaimedExecutionJob) (o : ExecutionJobResult) (st : JobState) (at : Time)
      → Keeps R (settle_turns job o st at)
  unfolding settle_turns
  Keeps-settle_turns job o st at = search (stmts, w.order, w.beside) depth 12

  pub Keeps-complete_tx :
      (job : ClaimedExecutionJob) (o : ExecutionJobResult) (e : Option ExecuteError) (at : Time)
      → Keeps R (complete_tx job o e at)
  unfolding complete_tx
  Keeps-complete_tx job o e at =
      search
        (
          stmts, w.order, Keeps-settle_run, Keeps-settle_turns, w.close_job, Keeps-next_sequence,
          w.insert_outbox,
        )
        depth 25

  Keeps-cancel_run : (e r : String) (at : Time) → Keeps R (cancel_run e r at)
  unfolding cancel_run
  Keeps-cancel_run e r at = search (stmts, w.order, w.beside) depth 12

  Keeps-request_run : (r : String) → Keeps R (request_run r)
  unfolding request_run
  Keeps-request_run r = search (stmts, w.order, w.beside)

  Keeps-cancel_job : (j : Job) (at : Time) → Keeps R (cancel_job j at)
  unfolding cancel_job
  Keeps-cancel_job j at =
      search
        (
          stmts, w.order, w.beside, Keeps-cancel_run, Keeps-request_run, w.cancel_queued,
          w.request_running,
        )
        depth 12

  Keeps-cancel_target : (j : Job) (at : Time) → Keeps R (cancel_target j at)
  unfolding cancel_target
  Keeps-cancel_target j at =
      search
        (
          stmts, w.order, w.beside, Keeps-cancel_run, Keeps-request_run, w.cancel_queued,
          w.request_running,
        )
        depth 15

  module _ (sha256 : String → String) where
    pub Keeps-cancel_new : (j o : String) (at : Time) → Keeps R (cancel_new sha256 j o at)
    unfolding cancel_new
    Keeps-cancel_new j o at =
        search (stmts, w.order, Keeps-cancel_job, Keeps-next_sequence) depth 20

    pub Keeps-cancel_tx : (j o : String) (at : Time) → Keeps R (cancel_tx sha256 j o at)
    unfolding cancel_tx
    Keeps-cancel_tx j o at = search (stmts, w.order, Keeps-cancel_new) depth 12

  module _ (digest : CancelAgentOperationInput → String) where
    pub Keeps-cancellation_new :
        (r : CancelAgentOperationRecord) → Keeps R (cancellation_new digest r)
    unfolding cancellation_new
    Keeps-cancellation_new r = search (stmts, w.order, Keeps-cancel_target) depth 20

    pub Keeps-cancellation_tx :
        (r : CancelAgentOperationRecord) → Keeps R (cancellation_tx digest r)
    unfolding cancellation_tx
    Keeps-cancellation_tx r = search (stmts, w.order, Keeps-cancellation_new) depth 12

  Keeps-announce : (at : Time) (id : String) → Keeps R (announce at id)
  unfolding announce
  Keeps-announce at id = search (stmts, w.order, Keeps-next_sequence, w.insert_outbox)

  pub Keeps-recover_tx : (at : Time) → Keeps R (recover_tx at)
  unfolding recover_tx
  Keeps-recover_tx at = search (stmts, w.order, w.beside, Keeps-announce, w.recover_jobs) depth 25
