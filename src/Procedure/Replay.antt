-- ===== src/Procedure/Replay.antt =====
-- Operation ids of procedures: a request that was carried out is answered by its receipt ever after.
use tejun.Prelude.{◌≡◌, refl, ◌∙◌, false, ℕ, String, List, inl, inr}
use tejun.Sql.Tx.{ok, pure}
use tejun.Sql.Keeps.{Keeps, >>=-eq-ok}
use tejun.Sql.Commit.{commit-eq-ok, commit_of_ok, pure-eq-ok, fail_if-eq-ok, fail_if_passed}
use tejun.Database.{Db}
use tejun.Database.Ledger.{MutationResult, AcceptedTurn, ProcedureSaved, Stored}
use tejun.Mutation.Receipts.{
  Retains, Retains-order, Retains-modify, Retains-next_sequence, Retains-insert_outbox,
  Retains-insert_receipt, Answers, Answers-Retains, Answers-save_mutation, Answers-of_eq,
  once-eq-ok, once-Answers,
}
use tejun.Procedure.Codec.{Json}
use tejun.Procedure.Statements.{update_procedures, write_document}
use tejun.Procedure.Draft.{
  ProcedureSaveRecord, as_procedure_saved, save_hash, save_new, save_tx, save_procedure_draft,
  is_refused,
}
use tejun.Procedure.Complete.{close_procedure}
use tejun.Procedure.Revision.Accept.{
  ProcedureRevisionRecord, as_accepted_turn, revision_hash, accept_revision_new, accept_revision_tx,
  accept_procedure_revision,
}
use tejun.Procedure.Operations.{Request, history, KeptByAll, history_at}
use tejun.Procedure.Operations.Kept.{
  Writes, Keeps-save_new, Keeps-adopt, Keeps-complete_new, Keeps-accept_revision_new,
  Keeps-cancel_revision_new,
}
use tejun.Procedure.Operations.Sides.{
  aside-insert_revision_job, aside-take_revision, aside-close_revision, aside-interrupt_revisions,
  aside-stop_revision,
}

Retains-writes : Writes Retains
Retains-writes = record {
  order = Retains-order;
  beside = λ f core. Retains-modify f (λ s. (core s).receipts);
  take_revision = aside-take_revision Retains-order (λ f p r e. Retains-modify f r);
  close_revision = aside-close_revision Retains-order (λ f p r e. Retains-modify f r);
  interrupt_revisions = aside-interrupt_revisions Retains-order (λ f p r e. Retains-modify f r);
  next_sequence = Retains-next_sequence;
  insert_outbox = Retains-insert_outbox;
  insert_receipt = Retains-insert_receipt;
}

Retains-write_document :
    (id : String) (n : ℕ) (text : String) (at : ℕ) → Keeps Retains (write_document id n text at)
unfolding write_document update_procedures
Retains-write_document id n text at = Retains-modify _ (λ s. refl)

Retains-close_procedure : (id : String) (n at : ℕ) → Keeps Retains (close_procedure id n at)
unfolding close_procedure update_procedures
Retains-close_procedure id n at = Retains-modify _ (λ s. refl)

module _ (sha256 : String → String) (json : Json) where
  Retains-kept : KeptByAll sha256 json Retains
  Retains-kept = record {
    writes = Retains-writes;
    save_new = Keeps-save_new Retains-writes sha256 json Retains-write_document;
    adopt = Keeps-adopt Retains-writes json Retains-write_document;
    accept_new =
        Keeps-accept_revision_new Retains-writes sha256 json
          (aside-insert_revision_job Retains-order (λ f p r e. Retains-modify f r));
    cancel_new =
        Keeps-cancel_revision_new Retains-writes sha256
          (aside-stop_revision Retains-order (λ f p r e. Retains-modify f r));
    complete_new = Keeps-complete_new Retains-writes sha256 json Retains-close_procedure;
  }

  procedure-Retains : (qs : List Request) (s : Db) → Retains s (history sha256 json qs s)
  procedure-Retains qs s = history_at sha256 json Retains-kept qs s

  Answers-save_new :
      (r : ProcedureSaveRecord) (s : Db) {v : MutationResult ProcedureSaved} {t : Db}
      → save_new sha256 json r s ≡ ok (v, t)
      → Answers as_procedure_saved "save_procedure_draft" r.operation_id
          (save_hash sha256 json r)
          v
          t
  unfolding save_new
  Answers-save_new r s h =
      let (p, s1, h1, k1) = >>=-eq-ok _ _ s h in
      let (_, s2, h2, k2) = >>=-eq-ok _ _ s1 k1 in
      let (ids, s3, h3, k3) = >>=-eq-ok _ _ s2 k2 in
      let (_, s4, h4, k4) = >>=-eq-ok _ _ s3 k3 in
      let (n, s5, h5, k5) = >>=-eq-ok _ _ s4 k4 in
      let (_, s6, h6, k6) = >>=-eq-ok _ _ s5 k5 in
      let (same, stay) = pure-eq-ok _ s6 k6 in
      Answers-of_eq as_procedure_saved _ _ _ same stay (
        Answers-save_mutation Stored.procedure_saved as_procedure_saved "save_procedure_draft"
          r.operation_id (save_hash sha256 json r) _ r.event n s5 refl h6)

  -- A save that was carried out or answered leaves the receipt of its request, and its document passed
  -- the tests.
  Answers-save_tx :
      (r : ProcedureSaveRecord) (s : Db) {v : MutationResult ProcedureSaved} {t : Db}
      → save_tx sha256 json r s ≡ ok (v, t)
      → (is_refused json r ≡ false)
        × Answers as_procedure_saved "save_procedure_draft" r.operation_id
            (save_hash sha256 json r)
            v
            t
  unfolding save_tx
  Answers-save_tx r s h =
      let (_, s1, h1, k1) = >>=-eq-ok _ _ s h in
      let (valid, same) = fail_if-eq-ok _ _ s h1 in
      (
        valid,
        elim (once-eq-ok _ _ _ _ pure (save_new sha256 json r) s1 k1) [
          | inl (w, answered, p) ↦
              let (one, stay) = pure-eq-ok w s1 p in
              Answers-of_eq as_procedure_saved _ _ _ one stay answered
          | inr p ↦ Answers-save_new r s1 p
        ],
      )

  -- Once a draft was saved, the same request is answered with the same result and changes nothing,
  -- whatever requests came in between.
  pub save_procedure_draft-replay :
      (r : ProcedureSaveRecord) (s : Db) {v : MutationResult ProcedureSaved} {t : Db}
      (between : List Request)
      → save_procedure_draft sha256 json r s ≡ (ok v, t)
      → let u = history sha256 json between t in save_procedure_draft sha256 json r u ≡ (ok v, u)
  unfolding save_procedure_draft save_tx pure
  save_procedure_draft-replay r s {v} {t} between h =
      let u = history sha256 json between t in
      let (valid, answered) = Answers-save_tx r s (commit-eq-ok (save_tx sha256 json r) s h) in
      let later =
        Answers-Retains as_procedure_saved "save_procedure_draft" r.operation_id
          (save_hash sha256 json r) v (procedure-Retains between t) answered in
      commit_of_ok _ u (
        fail_if_passed _ _ _ u valid
        ∙ once-Answers as_procedure_saved _ _ _ pure (save_new sha256 json r) v u later)

  Answers-accept_revision_new :
      (r : ProcedureRevisionRecord) (s : Db) {v : MutationResult AcceptedTurn} {t : Db}
      → accept_revision_new sha256 json r s ≡ ok (v, t)
      → Answers as_accepted_turn "request_procedure_revision" r.operation_id
          (revision_hash sha256 json r)
          v
          t
  unfolding accept_revision_new
  Answers-accept_revision_new r s h =
      let (p, s1, h1, k1) = >>=-eq-ok _ _ s h in
      let (_, s2, h2, k2) = >>=-eq-ok _ _ s1 k1 in
      let (pending, s3, h3, k3) = >>=-eq-ok _ _ s2 k2 in
      let (_, s4, h4, k4) = >>=-eq-ok _ _ s3 k3 in
      let (_, s5, h5, k5) = >>=-eq-ok _ _ s4 k4 in
      let (_, s6, h6, k6) = >>=-eq-ok _ _ s5 k5 in
      let (n, s7, h7, k7) = >>=-eq-ok _ _ s6 k6 in
      let (_, s8, h8, k8) = >>=-eq-ok _ _ s7 k7 in
      let (same, stay) = pure-eq-ok _ s8 k8 in
      Answers-of_eq as_accepted_turn _ _ _ same stay (
        Answers-save_mutation Stored.accepted_turn as_accepted_turn "request_procedure_revision"
          r.operation_id (revision_hash sha256 json r) _ _ n s7 refl h8)

  Answers-accept_revision_tx :
      (r : ProcedureRevisionRecord) (s : Db) {v : MutationResult AcceptedTurn} {t : Db}
      → accept_revision_tx sha256 json r s ≡ ok (v, t)
      → Answers as_accepted_turn "request_procedure_revision" r.operation_id
          (revision_hash sha256 json r)
          v
          t
  unfolding accept_revision_tx
  Answers-accept_revision_tx r s h =
      elim (once-eq-ok _ _ _ _ pure (accept_revision_new sha256 json r) s h) [
        | inl (w, answered, p) ↦
            let (one, stay) = pure-eq-ok w s p in
            Answers-of_eq as_accepted_turn _ _ _ one stay answered
        | inr p ↦ Answers-accept_revision_new r s p
      ]

  -- Once a revision was requested, the same request is answered with the same result and changes
  -- nothing, whatever requests came in between: the revision is queued once.
  pub accept_procedure_revision-replay :
      (r : ProcedureRevisionRecord) (s : Db) {v : MutationResult AcceptedTurn} {t : Db}
      (between : List Request)
      → accept_procedure_revision sha256 json r s ≡ (ok v, t)
      → let u = history sha256 json between t in
        accept_procedure_revision sha256 json r u ≡ (ok v, u)
  unfolding accept_procedure_revision accept_revision_tx pure
  accept_procedure_revision-replay r s {v} {t} between h =
      let u = history sha256 json between t in
      commit_of_ok _ u (
        once-Answers as_accepted_turn _ _ _ pure (accept_revision_new sha256 json r) v u (
          Answers-Retains as_accepted_turn "request_procedure_revision" r.operation_id
            (revision_hash sha256 json r) v (procedure-Retains between t)
            (Answers-accept_revision_tx r s (commit-eq-ok (accept_revision_tx sha256 json r) s h))))
