-- ===== src/Procedure/Pending.antt =====
-- One revision at a time: of two pending revisions of a procedure, one is the other.
pub mod Rows
pub mod Guards
use tejun.Prelude.{
  ◌≡◌, refl, ◌∙◌, sym, ap, ℕ, String, Bool, true, false, Option, none, some, List, Memᴰ, arith,
  nat_eq, ◌==◌, ◌&&◌, ◌||◌, not, eq_iff, Bool-cases, inl, inr, subst,
}
use tejun.Sql.Tx.{ok, modify, ◌>>=◌, Tx}
use tejun.Sql.Keeps.{IsPreorder, Keeps, Keeps-modify, >>=-eq-ok, Keeps-bind, Keeps-pure}
use tejun.Sql.Commit.{require-eq-ok, gets-eq-ok, fail_if-eq-ok, modify-eq-ok}
use tejun.Sql.Table.{
  update_where, exists, count_where, select_where-Memᴰ, first_by-Memᴰ, select_where,
}
use tejun.Database.{Db}
use tejun.Database.Time.{Time}
use tejun.Database.Rows.{JobState, RevisionJob}
use tejun.Execution.Statements.{is_queued, is_running, is_claimed}
use tejun.Procedure.Codec.{Json}
use tejun.Procedure.Statements.{
  is_pending, pending_for, has_revision_job, update_revision_jobs, update_procedures,
  write_document, insert_procedure_turn, insert_revision_job,
}
use tejun.Procedure.Draft.{admit_draft}
use tejun.Procedure.Complete.{close_procedure}
use tejun.Procedure.Revision.Accept.{
  ProcedureRevisionRecord, queued_revision, enqueue_revision, accept_revision_new,
}
use tejun.Procedure.Revision.Claim.{revision_before, next_revision, is_next_revision, take_revision}
use tejun.Procedure.Revision.Finish.{Outcome, close_revision}
use tejun.Procedure.Revision.Outcomes.{IsEnded}
use tejun.Procedure.Revision.Recover.{interrupt_revisions}
use tejun.Procedure.Revision.Cancel.{
  CancelRevisionRecord, is_target, cancelled_target, stop_revision, cancel_revision_new,
}
use tejun.Procedure.Operations.{Request, history, KeptByAll, history_at}
use tejun.Procedure.Operations.Kept.{
  Writes, Keeps-save_new, Keeps-adopt, Keeps-complete_new, Keeps-save_mutation,
  Keeps-update_procedure_turns,
}
use tejun.Procedure.Operations.Sides.{
  aside-next_sequence, aside-insert_outbox, aside-insert_receipt,
}
use tejun.Procedure.Pending.Rows.{IsOrderly, IsOrderly-update_where, IsOrderly-append_one, Follows}

pub record OneRevision (s t : Db) : Type 0 where
  pub at : IsOrderly s.revision_jobs → IsOrderly t.revision_jobs

pub OneRevision-order : IsPreorder OneRevision
OneRevision-order = record {
  same = λ s. record { at = λ o. o };
  joined = λ s t u k l. record { at = λ o. l.at (k.at o) };
}

pub OneRevision-aside :
    (f : Db → Db)
    → ((s : Db) → (f s).revision_jobs ≡ s.revision_jobs)
    → Keeps OneRevision (modify f)
OneRevision-aside f h = Keeps-modify f (λ s. record { at = λ o. subst IsOrderly (sym (h s)) o })

-- An UPDATE that only makes pending what was pending.
pub OneRevision-update :
    (p : RevisionJob → Bool) (f : RevisionJob → RevisionJob) (s : Db)
    → (IsOrderly s.revision_jobs
        → (j : RevisionJob) → Memᴰ j s.revision_jobs
        → p j ≡ true
        → Follows j (f j))
    → OneRevision s (record s { revision_jobs = update_where p f s.revision_jobs })
OneRevision-update p f s h = record { at = λ o. IsOrderly-update_where p f s.revision_jobs (h o) o }

next_revision-Memᴰ :
    (s : Db) {n : RevisionJob}
    → next_revision s ≡ some n
    → Memᴰ n s.revision_jobs × (is_queued n.state ≡ true)
next_revision-Memᴰ s h =
    select_where-Memᴰ (λ (j : RevisionJob). is_queued j.state) s.revision_jobs
      (first_by-Memᴰ revision_before
        (select_where (λ (j : RevisionJob). is_queued j.state) s.revision_jobs) h)

Follows-next :
    (s : Db) (next : Option RevisionJob) (j : RevisionJob)
    → next_revision s ≡ next
    → IsOrderly s.revision_jobs
    → Memᴰ j s.revision_jobs
    → is_next_revision next j ≡ true
    → Follows j (record j { state = JobState.running })
Follows-next s none j e o m q = absurd (cc)
Follows-next s (some n) j e o m q =
    let (mn, queued) = next_revision-Memᴰ s e in
    let same = o.keyed j n m mn ((eq_iff _ _).0 q) in
    record { job_id = refl; procedure_id = refl; pending = λ _. rw same (ground arith) }

take_revision-eq-ok :
    (s : Db) {next : Option RevisionJob} {t : Db}
    → take_revision s ≡ ok (next, t)
    → (next ≡ next_revision s)
      × (t ≡ record s {
        revision_jobs =
            update_where
              (is_next_revision (next_revision s))
              (λ k. record k { state = JobState.running })
              s.revision_jobs;
      })
unfolding take_revision update_revision_jobs ◌>>=◌
take_revision-eq-ok s h = ground arith

OneRevision-take_revision : Keeps OneRevision take_revision
OneRevision-take_revision = record {
  at = λ s a t h.
      let (_, e) = take_revision-eq-ok s h in
      rw e (
        OneRevision-update (is_next_revision (next_revision s)) _ s
          (λ o j. Follows-next s (next_revision s) j refl o));
}

OneRevision-close_revision :
    (id : String) (o : Outcome) (at : Time) → IsEnded o → Keeps OneRevision (close_revision id o at)
unfolding close_revision update_revision_jobs
OneRevision-close_revision id o at ended = Keeps-modify _ (λ s.
    OneRevision-update (has_revision_job id) _ s (λ orderly j m hit. record {
      job_id = refl;
      procedure_id = refl;
      pending = λ e. absurd (let d = ended.at in cc);
    }))

OneRevision-interrupt_revisions : (at : Time) → Keeps OneRevision (interrupt_revisions at)
unfolding interrupt_revisions update_revision_jobs
OneRevision-interrupt_revisions at = Keeps-modify _ (λ s.
    OneRevision-update (λ (j : RevisionJob). is_claimed j.state) _ s
      (λ orderly j m hit. record {
        job_id = refl;
        procedure_id = refl;
        pending = λ e. absurd (cc);
      }))

pub OneRevision-writes : Writes OneRevision
OneRevision-writes = record {
  order = OneRevision-order;
  beside = λ f core. OneRevision-aside f (λ s. (core s).revision_jobs);
  take_revision = OneRevision-take_revision;
  close_revision = OneRevision-close_revision;
  interrupt_revisions = OneRevision-interrupt_revisions;
  next_sequence = aside-next_sequence OneRevision-order (λ f p r e. OneRevision-aside f r);
  insert_outbox = aside-insert_outbox OneRevision-order (λ f p r e. OneRevision-aside f r);
  insert_receipt = aside-insert_receipt OneRevision-order (λ f p r e. OneRevision-aside f r);
}
