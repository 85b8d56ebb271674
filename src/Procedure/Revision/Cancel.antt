-- ===== src/Procedure/Revision/Cancel.antt =====
-- CancelProcedureRevision: a queued revision is cancelled at once, a running one is asked to stop.
use tejun.Prelude.{
  ℕ, String, Bool, false, Option, some, [], ◌∷◌, ◌==◌, ◌+s◌, ◌&&◌, ◌||◌, not, ltb, if◌then◌else◌,
}
use tejun.Shared.{app_error, not_found}
use tejun.Sql.Tx.{Result, Tx, pure, require, fail_if, found_or, commit, ◌>>=◌, ◌>>◌}
use tejun.Sql.Table.{select_where, first_by, exists}
use tejun.Database.{Db}
use tejun.Database.Time.{Time}
use tejun.Database.Rows.{JobState, RevisionJob}
use tejun.Database.Ledger.{MutationResult, CancellationAccepted, Stored}
use tejun.Mutation.{request_hash, existing_result, next_sequence, save_mutation}
use tejun.Execution.Statements.{job_state_text, is_queued, is_running}
use tejun.Execution.Cancel.{as_cancellation}
use tejun.Procedure.Statements.{has_revision_job, update_revision_jobs, update_procedure_turns}
use tejun.Procedure.Revision.Accept.{procedure_event}

-- The parameters of CancelProcedureRevision.
pub record CancelRevisionRecord : Type 0 where
  pub session_id : String
  pub turn_id : String
  pub job_id : String
  pub operation_id : String
  pub at : Time

-- WHERE session_id=? AND (turn_id=? OR job_id=?)
abbrev pub is_target : CancelRevisionRecord → RevisionJob → Bool
is_target r j = j.session_id == r.session_id && (j.turn_id == r.turn_id || j.job_id == r.job_id)

-- ORDER BY accepted_at DESC LIMIT 1
abbrev pub cancelled_target : CancelRevisionRecord → Db → Option RevisionJob
cancelled_target r db =
    first_by (λ (j k : RevisionJob). ltb k.accepted_at j.accepted_at)
      (select_where (is_target r) db.revision_jobs)

-- `next`
abbrev pub stopped_state : JobState → JobState
stopped_state state =
    if is_queued state then JobState.cancelled else JobState.cancellation_requested

-- UPDATE procedure_revision_jobs SET state=?,completed_at=CASE WHEN ?='cancelled' ... WHERE job_id=?
unfoldable pub stop_revision : String → JobState → Time → Tx Db Unit
stop_revision job_id state at = update_revision_jobs (has_revision_job job_id) (λ k. record k {
  state = stopped_state state;
  completed_at = if is_queued state then some at.micros else k.completed_at;
})

abbrev pub stopped_result :
    CancelRevisionRecord → RevisionJob → ℕ → MutationResult CancellationAccepted
stopped_result r j sequence = record {
  value = record {
    job_id = j.job_id;
    target_status = job_state_text (stopped_state j.state);
    requested_at = r.at;
    mechanism = "acp_cancel";
  };
  receipt = record {
    operation_id = r.operation_id;
    committed_at = r.at;
    change_sequence = sequence;
  };
}

module _ (sha256 : String → String) where
  abbrev pub cancel_revision_hash : CancelRevisionRecord → String
  cancel_revision_hash r = request_hash sha256 (r.session_id ∷ r.turn_id ∷ r.job_id ∷ [])

  -- The branch of a request that has no receipt yet.
  unfoldable pub cancel_revision_new :
      CancelRevisionRecord → Tx Db (MutationResult CancellationAccepted × Bool × String)
  cancel_revision_new r = do
    j ← require (cancelled_target r) not_found
    fail_if (not (is_queued j.state) && not (is_running j.state))
        (app_error "invalid_state" "取消対象が進行中ではありません")
    stop_revision j.job_id j.state r.at
    update_procedure_turns
        (λ db t.
          exists (λ (k : RevisionJob). k.job_id == j.job_id && k.turn_id == t.turn_id)
            db.revision_jobs)
        (job_state_text (stopped_state j.state))
    sequence ← next_sequence
    save_mutation Stored.cancellation "cancel_procedure_revision" r.operation_id
        (cancel_revision_hash r) (stopped_result r j sequence)
        (procedure_event (j.job_id +s ":" +s r.operation_id) j.procedure_id r.at j.job_id) sequence
    pure (stopped_result r j sequence, is_running j.state, j.job_id)

  -- The result, whether an agent has to be stopped, and the job.
  unfoldable pub cancel_revision_tx :
      CancelRevisionRecord → Tx Db (MutationResult CancellationAccepted × Bool × String)
  cancel_revision_tx r = do
    replayed ←
        existing_result as_cancellation "cancel_procedure_revision" r.operation_id
          (cancel_revision_hash r)
    found_or replayed (λ result. pure (result, false, "")) (cancel_revision_new r)

  unfoldable pub cancel_procedure_revision :
      CancelRevisionRecord → Db → Result (MutationResult CancellationAccepted × Bool × String) × Db
  cancel_procedure_revision r = commit (cancel_revision_tx r)
