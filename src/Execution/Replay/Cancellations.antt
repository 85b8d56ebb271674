-- ===== src/Execution/Replay/Cancellations.antt =====
-- AcceptExecutionCancellation is answered by its receipt when it is repeated.
use tejun.Prelude.{String, Bool, false, List, ◌≡◌, refl, ◌||◌, ◌&&◌, ◌==◌, inl, inr, Bool-cases, ap}
use tejun.Sql.Tx.{ok, pure, ◌>>=◌}
use tejun.Sql.Keeps.{>>=-eq-ok}
use tejun.Sql.Commit.{commit-eq-ok, commit_of_ok, pure-eq-ok}
use tejun.Database.{Db}
use tejun.Database.Ledger.{MutationResult, CancellationAccepted, Stored}
use tejun.Mutation.Receipts.{Answers, Answers-of_eq, Answers-Retains, Answers-mutation, once-eq-ok}
use tejun.Execution.Cancel.{
  CancelAgentOperationInput, CancelAgentOperationRecord, as_cancellation, cancellation_new,
  cancellation_tx, accept_execution_cancellation,
}
use tejun.Execution.Operations.{Request, history, history_at, kept_by_all}
use tejun.Execution.Replay.{Retains-writes}

module _ (digest : CancelAgentOperationInput → String) where
  Answers-cancellation_new :
      (r : CancelAgentOperationRecord) (s : Db)
      {v : MutationResult CancellationAccepted × Bool × String} {t : Db}
      → cancellation_new digest r s ≡ ok (v, t)
      → Answers as_cancellation "cancel_agent_operation" r.operation_id (digest r.input) v.0 t
  unfolding cancellation_new
  Answers-cancellation_new r s {v} {t} h =
      let (j, s1, h1, k1) = >>=-eq-ok _ _ s h in
      let (_, s2, h2, k2) = >>=-eq-ok _ _ s1 k1 in
      let (_, s3, h3, k3) = >>=-eq-ok _ _ s2 k2 in
      let (_, s4, h4, k4) = >>=-eq-ok _ _ s3 k3 in
      let (result, s5, h5, k5) = >>=-eq-ok _ _ s4 k4 in
      let (same, stay) = pure-eq-ok _ s5 k5 in
      Answers-of_eq as_cancellation _ _ _ (ap (λ p. p.0) same) stay
        (Answers-mutation Stored.cancellation as_cancellation _ _ _ _ _ _ s4 (λ w. refl) h5)

  cancellation-answered :
      (r : CancelAgentOperationRecord) (s : Db)
      {v : MutationResult CancellationAccepted × Bool × String} {t : Db}
      → cancellation_tx digest r s ≡ ok (v, t)
      → Answers as_cancellation "cancel_agent_operation" r.operation_id (digest r.input) v.0 t
  unfolding cancellation_tx
  cancellation-answered r s {v} {t} h =
      let (_, s1, h1, k1) = >>=-eq-ok _ _ s h in
      elim (once-eq-ok _ _ _ _ (λ result. pure (result, false, "")) (cancellation_new digest r) s1
        k1) [
          | inl (w, answered, p) ↦
              let (same, stay) = pure-eq-ok _ s1 p in
              Answers-of_eq as_cancellation _ _ _ (ap (λ p. p.0) same) stay answered
          | inr p ↦ Answers-cancellation_new r s1 p
        ]

  cancellation_tx-repeat :
      (r : CancelAgentOperationRecord) (s u : Db)
      {v : MutationResult CancellationAccepted × Bool × String} {t : Db}
      (w : MutationResult CancellationAccepted)
      → cancellation_tx digest r s ≡ ok (v, t)
      → Answers as_cancellation "cancel_agent_operation" r.operation_id (digest r.input) w u
      → cancellation_tx digest r u ≡ ok ((w, false, ""), u)
  unfolding cancellation_tx ◌>>=◌ pure
  cancellation_tx-repeat r s u w h answered =
      elim (Bool-cases (
        r.session_id == ""
        || r.operation_id == ""
        || (r.run_id == "" && r.turn_id == "" && r.job_id == ""))) [
          | inl bad ↦ absurd (let k = rw (bad, ◌>>=◌) at h in cc)
          | inr good ↦ rw (good, answered)
        ]

  -- Once a cancellation was accepted, the same request is answered with the same result, is told that
  -- no agent has to be stopped, and changes nothing, whatever requests came in between.
  pub accept_execution_cancellation-replay :
      (sha256 : String → String) (r : CancelAgentOperationRecord) (s : Db)
      {v : MutationResult CancellationAccepted × Bool × String} {t : Db} (between : List Request)
      → accept_execution_cancellation digest r s ≡ (ok v, t)
      → let u = history sha256 digest between t in
        accept_execution_cancellation digest r u ≡ (ok (v.0, false, ""), u)
  unfolding accept_execution_cancellation
  accept_execution_cancellation-replay sha256 r s {v} {t} between h =
      let u = history sha256 digest between t in
      let first = commit-eq-ok (cancellation_tx digest r) s h in
      commit_of_ok (cancellation_tx digest r) u (
        cancellation_tx-repeat r s u v.0 first (
          Answers-Retains as_cancellation _ _ _ v.0
            (history_at sha256 digest (kept_by_all sha256 digest Retains-writes) between t)
            (cancellation-answered r s first)))
