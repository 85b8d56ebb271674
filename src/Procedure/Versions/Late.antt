-- ===== src/Procedure/Versions/Late.antt =====
-- An agent's answer to a draft that was saved meanwhile is not adopted.
use tejun.Prelude.{
  ◌≡◌, refl, ◌∙◌, ℕ, String, Bool, false, none, List, Memᴰ, arith, Bool-cases, inl, inr, eq_iff,
  subst,
}
use tejun.Sql.Tx.{ok, modify}
use tejun.Sql.Keeps.{IsPreorder, Keeps, Keeps-modify, commit_at, keeps_rules}
use tejun.Sql.Commit.{commit-eq-ok}
use tejun.Sql.Table.{find, update_where-none}
use tejun.Database.{Db}
use tejun.Database.Time.{Time}
use tejun.Database.Rows.{Procedure}
use tejun.Database.Ledger.{MutationResult, ProcedureSaved}
use tejun.Domain.Integrity.{Document}
use tejun.Mutation.{same_receipt}
use tejun.Procedure.Codec.{Json}
use tejun.Procedure.Statements.{is_draft_at, update_procedures, write_document}
use tejun.Procedure.Draft.{ProcedureSaveRecord, save_tx, save_procedure_draft}
use tejun.Procedure.Revision.Claim.{ClaimedProcedureRevision}
use tejun.Procedure.Revision.Finish.{adopt, finish_tx, finish_procedure_revision}
use tejun.Procedure.Operations.{Request, history}
use tejun.Procedure.Operations.Kept.{Writes, Keeps-finish_tx}
use tejun.Procedure.Operations.Sides.{
  aside-take_revision, aside-close_revision, aside-interrupt_revisions, aside-next_sequence,
  aside-insert_outbox, aside-insert_receipt,
}
use tejun.Procedure.Versions.{procedure-Versions}
use tejun.Procedure.Versions.Stale.{IsKeyed, IsPast, IsPast-Versions, save_tx-IsPast}

module _ (id : String) (n : ℕ) where
  -- The procedures stay as they are while no draft is at the revision.
  pub record Untouched (s t : Db) : Type 0 where
    pub at : IsPast id n s → t.procedures ≡ s.procedures

  Untouched-order : IsPreorder Untouched
  Untouched-order = record {
    same = λ s. record { at = λ past. refl };
    joined = λ s t u k l. record {
      at = λ past.
          let first = k.at past in
          l.at (λ p m. past p (subst (λ rows. Memᴰ p rows) first m)) ∙ first;
    };
  }

  Untouched-aside :
      (f : Db → Db) → ((s : Db) → (f s).procedures ≡ s.procedures) → Keeps Untouched (modify f)
  Untouched-aside f h = Keeps-modify f (λ s. record { at = λ past. h s })

  Untouched-writes : Writes Untouched
  Untouched-writes = record {
    order = Untouched-order;
    beside = λ f core. Untouched-aside f (λ s. (core s).procedures);
    take_revision = aside-take_revision Untouched-order (λ f p r e. Untouched-aside f p);
    close_revision = aside-close_revision Untouched-order (λ f p r e. Untouched-aside f p);
    interrupt_revisions =
        aside-interrupt_revisions Untouched-order (λ f p r e. Untouched-aside f p);
    next_sequence = aside-next_sequence Untouched-order (λ f p r e. Untouched-aside f p);
    insert_outbox = aside-insert_outbox Untouched-order (λ f p r e. Untouched-aside f p);
    insert_receipt = aside-insert_receipt Untouched-order (λ f p r e. Untouched-aside f p);
  }

  no_draft_at :
      (s : Db) → IsPast id n s → (p : Procedure) → Memᴰ p s.procedures → is_draft_at id n p ≡ false
  no_draft_at s past p m = elim (Bool-cases (is_draft_at id n p)) [
    | inl hit ↦
        let beyond = past p m ((eq_iff p.procedure_id id).0 (ground arith)) (ground arith) in
        absurd (ground arith)
    | inr miss ↦ miss
  ]

  Untouched-write_document :
      (text : String) (at : ℕ) → Keeps Untouched (write_document id n text at)
  unfolding write_document update_procedures
  Untouched-write_document text at = Keeps-modify _ (λ s. record {
    at = λ past. update_where-none (is_draft_at id n) _ s.procedures (no_draft_at s past);
  })

module _ (json : Json) (job : ClaimedProcedureRevision) where
  Untouched-adopt :
      (d : Document) (at : Time)
      → Keeps (Untouched job.procedure_id job.expected_revision) (adopt json job d at)
  unfolding adopt
  Untouched-adopt d at =
      search
        (
          keeps_rules,
          Untouched-order job.procedure_id job.expected_revision,
          Untouched-write_document job.procedure_id job.expected_revision,
        )
        depth 15

  finish_past-unchanged :
      (answer : String) (failed : Bool) (at : Time) (event_id : String) (s : Db)
      → IsPast job.procedure_id job.expected_revision s
      → (finish_procedure_revision json job answer failed at event_id s).1.procedures ≡ s.procedures
  unfolding finish_procedure_revision
  finish_past-unchanged answer failed at event_id s past =
      let id = job.procedure_id in
      let n = job.expected_revision in
      (commit_at (Untouched-order id n) (finish_tx json job answer failed at event_id)
          (Keeps-finish_tx (Untouched-writes id n) json job Untouched-adopt answer failed at
            event_id)
          s).at
        past

-- Once a draft was saved, a revision that an agent wrote for the revision before leaves every procedure
-- as it is, whatever it answered and whatever requests came in between: the save was a new one, and every
-- procedure id has one row.
pub finish_procedure_revision-late :
    (sha256 : String → String) (json : Json) (r : ProcedureSaveRecord)
    (job : ClaimedProcedureRevision) (answer : String) (failed : Bool) (at : Time)
    (event_id : String) (s : Db) {v : MutationResult ProcedureSaved} {t : Db}
    (between : List Request)
    → save_procedure_draft sha256 json r s ≡ (ok v, t)
    → find (same_receipt "save_procedure_draft" r.operation_id) s.receipts ≡ none
    → IsKeyed s.procedures
    → job.procedure_id ≡ r.procedure_id
    → job.expected_revision ≡ r.expected_revision
    → let u = history sha256 json between t in
      (finish_procedure_revision json job answer failed at event_id u).1.procedures ≡ u.procedures
unfolding save_procedure_draft
finish_procedure_revision-late sha256 json r job answer failed at event_id s {t = t} between h fresh
      keyed id n =
    let past =
      save_tx-IsPast sha256 json r s (commit-eq-ok (save_tx sha256 json r) s h) fresh keyed in
    finish_past-unchanged json job answer failed at event_id _ (
      rw (id, n)
        (IsPast-Versions r.procedure_id r.expected_revision t (history sha256 json between t)
          (procedure-Versions sha256 json between t) past))
