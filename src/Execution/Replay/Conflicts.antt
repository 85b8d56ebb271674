-- ===== src/Execution/Replay/Conflicts.antt =====
-- An operation id that was used with one input is refused with another.
use tejun.Prelude.{String, List, ◌≡◌}
use tejun.Shared.{app_error}
use tejun.Sql.Tx.{ok, err, pure}
use tejun.Sql.Commit.{commit-eq-ok, commit_of_err}
use tejun.Database.{Db}
use tejun.Database.Ledger.{MutationResult, ExecutionJobAccepted}
use tejun.Mutation.{existing_result}
use tejun.Mutation.Receipts.{Answers-Retains, Answers-conflict, once-refused}
use tejun.Execution.Statements.{ExecutionJobRecord}
use tejun.Execution.Accept.{
  as_job_accepted, accept_scope, accept_hash, accept_new, accept_tx, accept_execution_job,
}
use tejun.Execution.Cancel.{CancelAgentOperationInput}
use tejun.Execution.Operations.{Request, history, history_at, kept_by_all}
use tejun.Execution.Replay.{Retains-writes, Answers-accept_tx}

accept_execution_job-refused :
    (sha256 : String → String) (q : ExecutionJobRecord) (s : Db)
    → existing_result as_job_accepted (accept_scope q) q.operation_id (accept_hash sha256 q) s
      ≡ err (app_error "operation_id_conflict" "operationIdが別の入力で使用されています")
    → accept_execution_job sha256 q s
      ≡ (err (app_error "operation_id_conflict" "operationIdが別の入力で使用されています"), s)
unfolding accept_execution_job accept_tx
accept_execution_job-refused sha256 q s h = commit_of_err _ s (
    once-refused as_job_accepted (accept_scope q) q.operation_id (accept_hash sha256 q) pure
      (accept_new q (accept_hash sha256 q)) _ s h)

-- After a request was accepted, a request of the same kind with its operation id and another hash of
-- its input fails with operation_id_conflict and changes nothing, whatever requests came in between.
pub accept_execution_job-conflict :
    (sha256 : String → String) (digest : CancelAgentOperationInput → String)
    (r q : ExecutionJobRecord) (s : Db) {v : MutationResult ExecutionJobAccepted} {t : Db}
    (between : List Request)
    → accept_execution_job sha256 r s ≡ (ok v, t)
    → r.kind ≡ q.kind
    → r.operation_id ≡ q.operation_id
    → ¬ (accept_hash sha256 r ≡ accept_hash sha256 q)
    → let u = history sha256 digest between t in
      accept_execution_job sha256 q u
      ≡ (err (app_error "operation_id_conflict" "operationIdが別の入力で使用されています"), u)
unfolding accept_execution_job
accept_execution_job-conflict sha256 digest r q s {v} {t} between h kind id differs =
    let u = history sha256 digest between t in
    let answered =
      Answers-Retains as_job_accepted (accept_scope r) r.operation_id (accept_hash sha256 r) v
        (history_at sha256 digest (kept_by_all sha256 digest Retains-writes) between t)
        (Answers-accept_tx sha256 r s (commit-eq-ok (accept_tx sha256 r) s h)) in
    accept_execution_job-refused sha256 q u (
      rw (← kind, ← id)
        (Answers-conflict as_job_accepted (accept_scope r) r.operation_id (accept_hash sha256 r)
          (accept_hash sha256 q) v u answered differs))
