-- ===== src/Procedure/Versions.antt =====
-- Optimistic concurrency: every change of a procedure raises its revision, and a procedure that is no
-- draft is never changed.
pub mod Stale
pub mod Late
use tejun.Prelude.{
  ◌≡◌, refl, ◌∙◌, sym, ℕ, ◌+◌, ◌≤◌, ◌<◌, String, Bool, true, false, List, arith, and_left,
  and_right, ◌&&◌, nat_eq, ◌==◌,
}
use tejun.Sql.Tx.{modify}
use tejun.Sql.Keeps.{IsPreorder, Keeps, Keeps-modify}
use tejun.Sql.Table.Along.{Along, Along-same, Along-joined, Along-update_where}
use tejun.Database.{Db}
use tejun.Database.Rows.{ProcedureStatus, Procedure}
use tejun.Procedure.Codec.{Json}
use tejun.Procedure.Statements.{is_draft, is_draft_at, update_procedures, write_document}
use tejun.Procedure.Complete.{close_procedure}
use tejun.Procedure.Operations.{Request, history, KeptByAll, history_at}
use tejun.Procedure.Operations.Kept.{
  Writes, Keeps-save_new, Keeps-adopt, Keeps-complete_new, Keeps-accept_revision_new,
  Keeps-cancel_revision_new,
}
use tejun.Procedure.Operations.Sides.{
  aside-insert_revision_job, aside-take_revision, aside-close_revision, aside-interrupt_revisions,
  aside-stop_revision, aside-next_sequence, aside-insert_outbox, aside-insert_receipt,
}

-- A row of procedures at a later time.
pub record Evolves (p q : Procedure) : Type 0 where
  pub procedure_id : q.procedure_id ≡ p.procedure_id
  pub project_id : q.project_id ≡ p.project_id
  pub grows : p.revision ≤ q.revision
  pub changes : q.revision ≡ p.revision → q ≡ p
  pub frozen : is_draft p.status ≡ false → q ≡ p

Evolves-same : (p : Procedure) → Evolves p p
Evolves-same p = record {
  procedure_id = refl;
  project_id = refl;
  grows = omega arith;
  changes = λ e. refl;
  frozen = λ e. refl;
}

Evolves-joined : (p q r : Procedure) → Evolves p q → Evolves q r → Evolves p r
Evolves-joined p q r k l = record {
  procedure_id = l.procedure_id ∙ k.procedure_id;
  project_id = l.project_id ∙ k.project_id;
  grows = omega (arith, k.grows, l.grows);
  changes = λ e.
      let low = k.grows in let high = l.grows in l.changes (omega arith) ∙ k.changes (omega arith);
  frozen = λ e. let same = k.frozen e in l.frozen (rw same e) ∙ same;
}

-- A draft with its next revision.
Evolves-draft :
    (p q : Procedure)
    → is_draft p.status ≡ true
    → q.procedure_id ≡ p.procedure_id
    → q.project_id ≡ p.project_id
    → q.revision ≡ p.revision + 1
    → Evolves p q
Evolves-draft p q d i j n = record {
  procedure_id = i;
  project_id = j;
  grows = omega arith;
  changes = λ e. absurd (omega arith);
  frozen = λ e. absurd (cc);
}

-- The rows of procedures, one by one.
pub record Versions (s t : Db) : Type 0 where
  pub rows : Along Evolves s.procedures t.procedures

pub Versions-order : IsPreorder Versions
Versions-order = record {
  same = λ s. record { rows = Along-same Evolves Evolves-same s.procedures };
  joined = λ s t u k l. record {
    rows = Along-joined Evolves Evolves-joined s.procedures t.procedures u.procedures k.rows l.rows;
  };
}

Versions-aside :
    (f : Db → Db) → ((s : Db) → (f s).procedures ≡ s.procedures) → Keeps Versions (modify f)
Versions-aside f h =
    Keeps-modify f (λ s. record { rows = rw (h s) (Along-same Evolves Evolves-same s.procedures) })

Versions-update :
    (id : String) (n : ℕ) (f : Procedure → Procedure)
    → ((p : Procedure) → (f p).procedure_id ≡ p.procedure_id)
    → ((p : Procedure) → (f p).project_id ≡ p.project_id)
    → ((p : Procedure) → (f p).revision ≡ p.revision + 1)
    → Keeps Versions (update_procedures (is_draft_at id n) f)
unfolding update_procedures
Versions-update id n f i j k = Keeps-modify _ (λ s. record {
  rows =
      Along-update_where Evolves Evolves-same (is_draft_at id n) f
        (λ p e. Evolves-draft p (f p) (ground arith) (i p) (j p) (k p)) s.procedures;
})

Versions-write_document :
    (id : String) (n : ℕ) (text : String) (at : ℕ) → Keeps Versions (write_document id n text at)
unfolding write_document
Versions-write_document id n text at = Versions-update id n _ (λ p. refl) (λ p. refl) (λ p. refl)

pub Versions-writes : Writes Versions
Versions-writes = record {
  order = Versions-order;
  beside = λ f core. Versions-aside f (λ s. (core s).procedures);
  take_revision = aside-take_revision Versions-order (λ f p r e. Versions-aside f p);
  close_revision = aside-close_revision Versions-order (λ f p r e. Versions-aside f p);
  interrupt_revisions = aside-interrupt_revisions Versions-order (λ f p r e. Versions-aside f p);
  next_sequence = aside-next_sequence Versions-order (λ f p r e. Versions-aside f p);
  insert_outbox = aside-insert_outbox Versions-order (λ f p r e. Versions-aside f p);
  insert_receipt = aside-insert_receipt Versions-order (λ f p r e. Versions-aside f p);
}

Versions-close_procedure : (id : String) (n at : ℕ) → Keeps Versions (close_procedure id n at)
unfolding close_procedure
Versions-close_procedure id n at = Versions-update id n _ (λ p. refl) (λ p. refl) (λ p. refl)

module _ (sha256 : String → String) (json : Json) where
  Versions-kept : KeptByAll sha256 json Versions
  Versions-kept = record {
    writes = Versions-writes;
    save_new = Keeps-save_new Versions-writes sha256 json Versions-write_document;
    adopt = Keeps-adopt Versions-writes json Versions-write_document;
    accept_new =
        Keeps-accept_revision_new Versions-writes sha256 json
          (aside-insert_revision_job Versions-order (λ f p r e. Versions-aside f p));
    cancel_new =
        Keeps-cancel_revision_new Versions-writes sha256
          (aside-stop_revision Versions-order (λ f p r e. Versions-aside f p));
    complete_new = Keeps-complete_new Versions-writes sha256 json Versions-close_procedure;
  }

  -- In any history of requests, each procedure stays where it is in the table, with its ids; a
  -- change of it raises its revision, and one that is no draft is not changed.
  pub procedure-Versions : (qs : List Request) (s : Db) → Versions s (history sha256 json qs s)
  procedure-Versions qs s = history_at sha256 json Versions-kept qs s
