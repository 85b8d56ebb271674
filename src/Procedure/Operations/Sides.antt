-- ===== src/Procedure/Operations/Sides.antt =====
-- A relation that looks only at one part of the database is kept by the writes to the others.
use tejun.Prelude.{◌≡◌, refl, ℕ, ◌+◌, String, Bool, List}
use tejun.Sql.Tx.{modify}
use tejun.Sql.Keeps.{IsPreorder, Keeps, keeps_rules}
use tejun.Database.{Db}
use tejun.Database.Time.{Time}
use tejun.Database.Rows.{JobState, RevisionJob}
use tejun.Database.Ledger.{OutboxEvent, Outbox, Receipt}
use tejun.Mutation.{next_sequence, insert_outbox, insert_receipt}
use tejun.Procedure.Statements.{update_revision_jobs, insert_revision_job}
use tejun.Procedure.Revision.Claim.{take_revision}
use tejun.Procedure.Revision.Finish.{Outcome, close_revision}
use tejun.Procedure.Revision.Outcomes.{IsEnded}
use tejun.Procedure.Revision.Recover.{interrupt_revisions}
use tejun.Procedure.Revision.Cancel.{stop_revision}

module _ {R : Db → Db → Type 0} (order : IsPreorder R) where
  -- The writes to the revision jobs, for a relation that does not look at them.
  module _
      (aside : (f : Db → Db)
        → ((s : Db) → (f s).procedures ≡ s.procedures)
        → ((s : Db) → (f s).receipts ≡ s.receipts)
        → ((s : Db) → (f s).source_evidence ≡ s.source_evidence)
        → Keeps R (modify f)) where
    pub aside-update_revision_jobs :
        (p : RevisionJob → Bool) (f : RevisionJob → RevisionJob)
        → Keeps R (update_revision_jobs p f)
    unfolding update_revision_jobs
    aside-update_revision_jobs p f = aside _ (λ s. refl) (λ s. refl) (λ s. refl)

    pub aside-insert_revision_job : (j : RevisionJob) → Keeps R (insert_revision_job j)
    unfolding insert_revision_job
    aside-insert_revision_job j = search (
      keeps_rules,
      order,
      λ (rows : List RevisionJob).
          aside (λ db. record db { revision_jobs = rows }) (λ s. refl) (λ s. refl) (λ s. refl),
    )

    pub aside-take_revision : Keeps R take_revision
    unfolding take_revision
    aside-take_revision = search (keeps_rules, order, aside-update_revision_jobs)

    pub aside-close_revision :
        (id : String) (o : Outcome) (at : Time) → IsEnded o → Keeps R (close_revision id o at)
    unfolding close_revision
    aside-close_revision id o at ended = aside-update_revision_jobs _ _

    pub aside-interrupt_revisions : (at : Time) → Keeps R (interrupt_revisions at)
    unfolding interrupt_revisions
    aside-interrupt_revisions at = aside-update_revision_jobs _ _

    pub aside-stop_revision :
        (id : String) (st : JobState) (at : Time) → Keeps R (stop_revision id st at)
    unfolding stop_revision
    aside-stop_revision id st at = aside-update_revision_jobs _ _

  -- The writes to the ledger.
  module _
      (aside : (f : Db → Db)
        → ((s : Db) → (f s).procedures ≡ s.procedures)
        → ((s : Db) → (f s).revision_jobs ≡ s.revision_jobs)
        → ((s : Db) → (f s).source_evidence ≡ s.source_evidence)
        → Keeps R (modify f)) where
    pub aside-next_sequence : Keeps R next_sequence
    unfolding next_sequence
    aside-next_sequence = search (
      keeps_rules,
      order,
      aside (λ db. record db { change_sequence = db.change_sequence + 1 }) (λ s. refl) (λ s. refl)
          (λ s. refl),
    )

    pub aside-insert_outbox : (e : OutboxEvent) (n : ℕ) → Keeps R (insert_outbox e n)
    unfolding insert_outbox
    aside-insert_outbox e n = search (
      keeps_rules,
      order,
      λ (rows : List Outbox).
          aside (λ db. record db { outbox = rows }) (λ s. refl) (λ s. refl) (λ s. refl),
    )

    pub aside-insert_receipt : (r : Receipt) → Keeps R (insert_receipt r)
    unfolding insert_receipt
    aside-insert_receipt r = search (
      keeps_rules,
      order,
      λ (rows : List Receipt).
          aside (λ db. record db { receipts = rows }) (λ s. refl) (λ s. refl) (λ s. refl),
    )
