-- ===== src/Execution/Replay.antt =====
-- Operation ids: a request that was accepted is answered by its receipt ever after.
pub mod Conflicts
pub mod Cancellations
use tejun.Prelude.{
  ℕ, String, Bool, true, false, Option, none, some, List, [], ◌∷◌, ◌≡◌, refl, arith, ap, inl, inr,
}
use tejun.Sql.Tx.{Result, ok, err, Tx, pure, found_or, commit, ◌>>=◌}
use tejun.Sql.Keeps.{Keeps, >>=-eq-ok, Result-cases}
use tejun.Sql.Commit.{commit-eq-ok, commit_of_ok, pure-eq-ok}
use tejun.Database.{Db}
use tejun.Database.Time.{Time}
use tejun.Database.Ledger.{MutationResult, ExecutionJobAccepted, Stored}
use tejun.Mutation.{request_hash, existing_result, next_sequence, save_mutation}
use tejun.Mutation.Receipts.{
  Retains, Retains-order, Retains-modify, Retains-next_sequence, Retains-insert_outbox,
  Retains-insert_receipt, retains_rules, Answers, Answers-Retains, Answers-save_mutation,
  once-eq-ok, once-Answers,
}
use tejun.Execution.Statements.{ExecutionJobRecord, insert_job}
use tejun.Execution.Accept.{
  as_job_accepted, accept_scope, accept_hash, accepted, queued_job, admit, targets_of, enqueue,
  accept_new, accept_tx, accept_execution_job,
}
use tejun.Execution.Cancel.{
  CancelAgentOperationInput, as_job_cancelled, cancel_result, cancel_new, cancel_tx,
  cancel_execution_job,
}
use tejun.Execution.Operations.{Request, perform, history, history_at, kept_by_all}
use tejun.Execution.Operations.Kept.{Writes}
use tejun.Execution.Operations.Sides.{ledger_writes}

pub Retains-writes : Writes Retains
Retains-writes =
    ledger_writes Retains-order (λ f aside. Retains-modify f (λ s. (aside s).receipts))
      Retains-next_sequence Retains-insert_outbox Retains-insert_receipt

-- A new acceptance leaves the receipt that answers its request.
Answers-accept_new :
    (r : ExecutionJobRecord) (hash : String) (s : Db) {v : MutationResult ExecutionJobAccepted}
    {t : Db}
    → accept_new r hash s ≡ ok (v, t)
    → Answers as_job_accepted (accept_scope r) r.operation_id hash v t
unfolding accept_new
Answers-accept_new r hash s h =
    let (e, s1, h1, k1) = >>=-eq-ok _ _ s h in
    let (_, s2, h2, k2) = >>=-eq-ok _ _ s1 k1 in
    let (targets, s3, h3, k3) = >>=-eq-ok _ _ s2 k2 in
    let (_, s4, h4, k4) = >>=-eq-ok _ _ s3 k3 in
    let (_, s5, h5, k5) = >>=-eq-ok _ _ s4 k4 in
    let (n, s6, h6, k6) = >>=-eq-ok _ _ s5 k5 in
    let (_, s7, h7, k7) = >>=-eq-ok _ _ s6 k6 in
    let (same, stay) = pure-eq-ok _ s7 k7 in
    rw (same, stay)
      (Answers-save_mutation Stored.job_accepted as_job_accepted (accept_scope r) r.operation_id
        hash (accepted r e.session_id targets) r.event n s6 refl h7)

pub Answers-accept_tx :
    (sha256 : String → String) (r : ExecutionJobRecord) (s : Db)
    {v : MutationResult ExecutionJobAccepted} {t : Db}
    → accept_tx sha256 r s ≡ ok (v, t)
    → Answers as_job_accepted (accept_scope r) r.operation_id (accept_hash sha256 r) v t
unfolding accept_tx
Answers-accept_tx sha256 r s h =
    elim (once-eq-ok _ _ _ _ pure (accept_new r (accept_hash sha256 r)) s h) [
      | inl (w, answered, p) ↦ let (same, stay) = pure-eq-ok w s p in rw (same, stay) answered
      | inr p ↦ Answers-accept_new r (accept_hash sha256 r) s p
    ]

-- A request that has its receipt is answered, and nothing is written.
accept_execution_job_answered :
    (sha256 : String → String) (r : ExecutionJobRecord) (v : MutationResult ExecutionJobAccepted)
    (s : Db)
    → Answers as_job_accepted (accept_scope r) r.operation_id (accept_hash sha256 r) v s
    → accept_execution_job sha256 r s ≡ (ok v, s)
unfolding accept_execution_job accept_tx pure
accept_execution_job_answered sha256 r v s h =
    commit_of_ok _ s
      (once-Answers as_job_accepted _ _ _ pure (accept_new r (accept_hash sha256 r)) v s h)

-- Once a request to start a job was accepted, the same request is answered with the same result
-- and changes nothing, whatever requests came in between.
pub accept_execution_job-replay :
    (sha256 : String → String) (digest : CancelAgentOperationInput → String)
    (r : ExecutionJobRecord) (s : Db) {v : MutationResult ExecutionJobAccepted} {t : Db}
    (between : List Request)
    → accept_execution_job sha256 r s ≡ (ok v, t)
    → let u = history sha256 digest between t in accept_execution_job sha256 r u ≡ (ok v, u)
unfolding accept_execution_job
accept_execution_job-replay sha256 digest r s {v} {t} between h =
    accept_execution_job_answered sha256 r v (history sha256 digest between t) (
      Answers-Retains as_job_accepted (accept_scope r) r.operation_id (accept_hash sha256 r) v
        (history_at sha256 digest (kept_by_all sha256 digest Retains-writes) between t)
        (Answers-accept_tx sha256 r s (commit-eq-ok (accept_tx sha256 r) s h)))

-- A new cancellation leaves the receipt that answers its request.
Answers-cancel_new :
    (sha256 : String → String) (j o : String) (at : Time) (s : Db) {v : Bool} {t : Db}
    → cancel_new sha256 j o at s ≡ ok (v, t)
    → (w : MutationResult Bool) × Answers as_job_cancelled "execution_job:cancel" o
        (request_hash sha256 (j ∷ []))
        w
        t
unfolding cancel_new
Answers-cancel_new sha256 j o at s h =
    let (row, s1, h1, k1) = >>=-eq-ok _ _ s h in
    let (_, s2, h2, k2) = >>=-eq-ok _ _ s1 k1 in
    let (_, s3, h3, k3) = >>=-eq-ok _ _ s2 k2 in
    let (n, s4, h4, k4) = >>=-eq-ok _ _ s3 k3 in
    let (_, s5, h5, k5) = >>=-eq-ok _ _ s4 k4 in
    let (_, stay) = pure-eq-ok _ s5 k5 in
    (
      cancel_result row o at,
      rw stay (Answers-save_mutation Stored.job_cancelled as_job_cancelled _ o _ _ _ n s4 refl h5),
    )

-- Once a cancellation of a job was accepted, the same request is answered by `false`, so that the
-- agent is not told twice, and changes nothing, whatever requests came in between.
pub cancel_execution_job-replay :
    (sha256 : String → String) (digest : CancelAgentOperationInput → String) (j o : String)
    (at later : Time) (s : Db) {v : Bool} {t : Db} (between : List Request)
    → cancel_execution_job sha256 j o at s ≡ (ok v, t)
    → let u = history sha256 digest between t in
      cancel_execution_job sha256 j o later u ≡ (ok false, u)
unfolding cancel_execution_job cancel_tx pure
cancel_execution_job-replay sha256 digest j o at later s {t = t} between h =
    let (w, answered) =
      elim (once-eq-ok as_job_cancelled _ o _ (λ _. pure false) (cancel_new sha256 j o at) s
          (commit-eq-ok _ s h))
        as (λ _.
          (w : MutationResult Bool) × Answers as_job_cancelled "execution_job:cancel" o
            (request_hash sha256 (j ∷ [])) w t) [
              | inl (w, a, p) ↦ let (_, stay) = pure-eq-ok false s p in (w, rw stay a)
              | inr p ↦ Answers-cancel_new sha256 j o at s p
            ] in
    let u = history sha256 digest between t in
    commit_of_ok _ u (
      once-Answers as_job_cancelled _ o _ (λ _. pure false) (cancel_new sha256 j o later) w u
        (Answers-Retains _ _ o _ w
          (history_at sha256 digest (kept_by_all sha256 digest Retains-writes) between t) answered))
