-- ===== src/Execution/Operations.antt =====
-- ExecutionJobRepository of internal/application/execution_run.go: the methods as requests, and a
-- history of requests, each committed or rolled back before the next.
pub mod Kept
pub mod Sides
use Kept.{
  Writes, Keeps-accept_tx, Keeps-claim_tx, Keeps-reconnect_tx, Keeps-start_check_tx,
  Keeps-complete_check_tx, Keeps-complete_tx, Keeps-cancel_tx, Keeps-cancellation_tx,
  Keeps-recover_tx,
}
use tejun.Prelude.{ℕ, String, Option, List, [], ◌∷◌, Bool}
use tejun.Sql.Tx.{Result}
use tejun.Sql.Keeps.{IsPreorder, Keeps, commit_at}
use tejun.Database.{Db}
use tejun.Database.Time.{Time}
use tejun.Execution.Statements.{
  ExecutionJobRecord, ClaimedExecutionJob, ExecutionCheckTarget, ExecutionCheckResult,
  ExecutionJobResult,
}
use tejun.Execution.Accept.{accept_tx, accept_execution_job}
use tejun.Execution.Claim.{claim_tx, claim_execution_job, reconnect_tx, reconnect_execution_session}
use tejun.Execution.Checks.{
  start_check_tx, start_execution_check, complete_check_tx, complete_execution_check,
}
use tejun.Execution.Complete.{ExecuteError, complete_tx, complete_execution_job}
use tejun.Execution.Cancel.{
  CancelAgentOperationInput, CancelAgentOperationRecord, cancel_tx, cancel_execution_job,
  cancellation_tx, accept_execution_cancellation,
}
use tejun.Execution.Recover.{recover_tx, fail_interrupted_execution_jobs}

pub data Request : Type 0 where
  accept : ExecutionJobRecord → Request
  claim : Request
  reconnect : ClaimedExecutionJob → String → String → Time → Request
  start_check : ClaimedExecutionJob → ExecutionCheckTarget → Time → Request
  complete_check :
      ClaimedExecutionJob
      → ExecutionCheckTarget
      → ExecutionCheckResult
      → List String
      → Time
      → Request
  complete : ClaimedExecutionJob → ExecutionJobResult → Option ExecuteError → Time → Request
  cancel : String → String → Time → Request
  cancellation : CancelAgentOperationRecord → Request
  recover : Time → Request

module _ (sha256 : String → String) (digest : CancelAgentOperationInput → String) where
  unfoldable pub perform : Request → Db → Db
  perform (accept r) db = (accept_execution_job sha256 r db).1
  perform claim db = (claim_execution_job db).1
  perform (reconnect job s a at) db = (reconnect_execution_session job s a at db).1
  perform (start_check job c at) db = (start_execution_check job c at db).1
  perform (complete_check job c item logs at) db =
      (complete_execution_check job c item logs at db).1
  perform (complete job output error at) db = (complete_execution_job job output error at db).1
  perform (cancel job_id operation_id at) db =
      (cancel_execution_job sha256 job_id operation_id at db).1
  perform (cancellation r) db = (accept_execution_cancellation digest r db).1
  perform (recover at) db = (fail_interrupted_execution_jobs at db).1

  unfoldable pub history : List Request → Db → Db
  history [] db = db
  history (q ∷ qs) db = history qs (perform q db)

  -- A relation that every transaction keeps holds across a history.
  pub record KeptByAll (R : Db → Db → Type 0) : Type 0 where
    pub order : IsPreorder R
    pub accept : (r : ExecutionJobRecord) → Keeps R (accept_tx sha256 r)
    pub claim : Keeps R claim_tx
    pub reconnect :
        (job : ClaimedExecutionJob) (s a : String) (at : Time) → Keeps R (reconnect_tx job s a at)
    pub start_check :
        (job : ClaimedExecutionJob) (c : ExecutionCheckTarget) (at : Time)
        → Keeps R (start_check_tx job c at)
    pub complete_check :
        (job : ClaimedExecutionJob) (c : ExecutionCheckTarget) (item : ExecutionCheckResult)
        (logs : List String) (at : Time)
        → Keeps R (complete_check_tx job c item logs at)
    pub complete :
        (job : ClaimedExecutionJob) (o : ExecutionJobResult) (e : Option ExecuteError) (at : Time)
        → Keeps R (complete_tx job o e at)
    pub cancel : (j o : String) (at : Time) → Keeps R (cancel_tx sha256 j o at)
    pub cancellation : (r : CancelAgentOperationRecord) → Keeps R (cancellation_tx digest r)
    pub recover : (at : Time) → Keeps R (recover_tx at)

  pub kept_by_all : {R : Db → Db → Type 0} → Writes R → KeptByAll R
  kept_by_all w = record {
    order = w.order;
    accept = Keeps-accept_tx w sha256;
    claim = Keeps-claim_tx w;
    reconnect = Keeps-reconnect_tx w;
    start_check = Keeps-start_check_tx w;
    complete_check = Keeps-complete_check_tx w;
    complete = Keeps-complete_tx w;
    cancel = Keeps-cancel_tx w sha256;
    cancellation = Keeps-cancellation_tx w digest;
    recover = Keeps-recover_tx w;
  }

  pub perform_at :
      {R : Db → Db → Type 0} → KeptByAll R → (q : Request) (db : Db) → R db (perform q db)
  unfolding perform accept_execution_job claim_execution_job reconnect_execution_session
      start_execution_check complete_execution_check complete_execution_job cancel_execution_job
      accept_execution_cancellation fail_interrupted_execution_jobs
  perform_at k (accept r) db = commit_at k.order _ (k.accept r) db
  perform_at k claim db = commit_at k.order _ k.claim db
  perform_at k (reconnect job s a at) db = commit_at k.order _ (k.reconnect job s a at) db
  perform_at k (start_check job c at) db = commit_at k.order _ (k.start_check job c at) db
  perform_at k (complete_check job c item logs at) db =
      commit_at k.order _ (k.complete_check job c item logs at) db
  perform_at k (complete job o e at) db = commit_at k.order _ (k.complete job o e at) db
  perform_at k (cancel j o at) db = commit_at k.order _ (k.cancel j o at) db
  perform_at k (cancellation r) db = commit_at k.order _ (k.cancellation r) db
  perform_at k (recover at) db = commit_at k.order _ (k.recover at) db

  pub history_at :
      {R : Db → Db → Type 0} → KeptByAll R → (qs : List Request) (db : Db) → R db (history qs db)
  unfolding history
  history_at k [] db = k.order.same db
  history_at k (q ∷ qs) db =
      k.order.joined db (perform q db) (history qs (perform q db)) (perform_at k q db)
        (history_at k qs (perform q db))
