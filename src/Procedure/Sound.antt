-- ===== src/Procedure/Sound.antt =====
-- A completed procedure holds a document that passed the tests of its integrity.
pub mod Completion
use tejun.Prelude.{
  ◌≡◌, refl, ◌∙◌, sym, ap, ℕ, ◌+◌, String, Bool, true, false, Option, some, List, Memᴰ, arith,
  nat_eq, ◌==◌, ◌&&◌, not, eq_iff, Bool-cases, inl, inr, subst, if◌then◌else◌,
}
use tejun.Sql.Tx.{ok, modify, Tx, ◌>>=◌, pure}
use tejun.Sql.Keeps.{IsPreorder, Keeps, Keeps-modify, >>=-eq-ok, Keeps-bind, Keeps-pure}
use tejun.Sql.Commit.{require-eq-ok, gets-eq-ok, fail_if-eq-ok, attempt-eq-ok, modify-eq-ok}
use tejun.Sql.Table.{update_where, update_where-Memᴰ, find-Memᴰ}
use tejun.Sql.Table.Keys.{IsKeyed, IsKeyed-update_where}
use tejun.Database.{Db}
use tejun.Database.Rows.{ProcedureStatus, Procedure, SourceEvidence}
use tejun.Domain.Integrity.{Document, evaluate}
use tejun.Procedure.Codec.{Json}
use tejun.Procedure.Statements.{
  is_draft, is_draft_at, has_procedure, source_ids, update_procedures, write_document,
}
use tejun.Procedure.Complete.{
  ProcedureCompleteRecord, Image, close_procedure, complete_document, complete_new,
}
use tejun.Procedure.Operations.{Request, history, KeptByAll, history_at}
use tejun.Procedure.Operations.Kept.{
  Writes, Keeps-save_new, Keeps-adopt, Keeps-accept_revision_new, Keeps-cancel_revision_new,
  Keeps-close_project, Keeps-save_mutation,
}
use tejun.Procedure.Operations.Sides.{
  aside-insert_revision_job, aside-take_revision, aside-close_revision, aside-interrupt_revisions,
  aside-stop_revision, aside-next_sequence, aside-insert_outbox, aside-insert_receipt,
}
use tejun.Procedure.Versions.Stale.{admit_draft-eq-ok}

abbrev pub is_done : ProcedureStatus → Bool
is_done ProcedureStatus.completed = true
is_done _ = false

-- A draft is not completed.
undone : (a : ProcedureStatus) → is_draft a ≡ true → ¬ (is_done a ≡ true)
undone ProcedureStatus.draft h k = cc
undone ProcedureStatus.generating h k = cc
undone ProcedureStatus.checking h k = cc
undone ProcedureStatus.completed h k = cc
undone ProcedureStatus.failed h k = cc

module _ (json : Json) where
  -- The text of the row is a document that is not blocked.
  abbrev pub PassedText : String → List String → Type 0
  PassedText text ids =
      (d : Document) × (json.unmarshal text ≡ some d)
      × (((evaluate d ids).status == "blocked") ≡ false)

  -- Every procedure id has one row, and each completed procedure passed.
  pub record IsSound (s : Db) : Type 0 where
    pub keyed : IsKeyed (λ (q : Procedure). q.procedure_id) s.procedures
    pub passed :
        (q : Procedure)
        → Memᴰ q s.procedures
        → is_done q.status ≡ true
        → PassedText q.document (source_ids q.procedure_id s)

  pub record Sound (s t : Db) : Type 0 where
    pub at : IsSound s → IsSound t

  pub Sound-order : IsPreorder Sound
  Sound-order = record {
    same = λ s. record { at = λ o. o };
    joined = λ s t u k l. record { at = λ o. l.at (k.at o) };
  }

  IsSound-same :
      (s t : Db)
      → t.procedures ≡ s.procedures
      → t.source_evidence ≡ s.source_evidence
      → IsSound s
      → IsSound t
  IsSound-same s t p e o = record {
    keyed = rw p o.keyed;
    passed = λ q m done. rw e (o.passed q (subst (λ rows. Memᴰ q rows) p m) done);
  }

  pub Sound-aside :
      (f : Db → Db)
      → ((s : Db) → (f s).procedures ≡ s.procedures)
      → ((s : Db) → (f s).source_evidence ≡ s.source_evidence)
      → Keeps Sound (modify f)
  Sound-aside f p e = Keeps-modify f (λ s. record { at = IsSound-same s (f s) (p s) (e s) })

  -- An UPDATE of procedures that leaves the ids, and completes only what passed.
  pub IsSound-update :
      (p : Procedure → Bool) (f : Procedure → Procedure) (s : Db)
      → ((q : Procedure) → (f q).procedure_id ≡ q.procedure_id)
      → ((q : Procedure)
          → Memᴰ q s.procedures
          → p q ≡ true
          → is_done (f q).status ≡ true
          → PassedText (f q).document (source_ids q.procedure_id s))
      → IsSound s
      → IsSound (record s { procedures = update_where p f s.procedures })
  IsSound-update p f s ids h o = record {
    keyed =
        IsKeyed-update_where (λ (q : Procedure). q.procedure_id) p f s.procedures (λ q m hit. ids q)
          o.keyed;
    passed = λ q m done.
        let (x, mx, e) = update_where-Memᴰ p f s.procedures m in
        elim (Bool-cases (p x)) [
          | inl hit ↦
              let now : q ≡ f x = rw hit at e in rw (now, ids x) (h x mx hit (rw now at done))
          | inr miss ↦ let now : q ≡ x = rw miss at e in rw now (o.passed x mx (rw now at done))
        ];
  }

  pub Sound-write_document :
      (id : String) (n : ℕ) (text : String) (at : ℕ) → Keeps Sound (write_document id n text at)
  unfolding write_document update_procedures
  Sound-write_document id n text at = Keeps-modify _ (λ s. record {
    at =
        IsSound-update (is_draft_at id n) _ s (λ q. refl)
          (λ q m hit done. absurd (undone q.status (ground arith) done));
  })

  pub Sound-writes : Writes Sound
  Sound-writes = record {
    order = Sound-order;
    beside = λ f core. Sound-aside f (λ s. (core s).procedures) (λ s. (core s).source_evidence);
    take_revision = aside-take_revision Sound-order (λ f p r e. Sound-aside f p e);
    close_revision = aside-close_revision Sound-order (λ f p r e. Sound-aside f p e);
    interrupt_revisions = aside-interrupt_revisions Sound-order (λ f p r e. Sound-aside f p e);
    next_sequence = aside-next_sequence Sound-order (λ f p r e. Sound-aside f p e);
    insert_outbox = aside-insert_outbox Sound-order (λ f p r e. Sound-aside f p e);
    insert_receipt = aside-insert_receipt Sound-order (λ f p r e. Sound-aside f p e);
  }
