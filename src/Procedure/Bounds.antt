-- ===== src/Procedure/Bounds.antt =====
-- The prompts of the queue (internal/adapter/sqlite/procedure_revision.go): what the agent is sent is
-- never longer than the limit that AcceptProcedureRevision tests.
use tejun.Prelude.{
  ◌≡◌, refl, ◌∙◌, sym, ap, String, Bool, false, List, [], ◌∷◌, ◌++◌, Memᴰ, arith, ltb, ◌≤◌,
  Bool-cases, inl, inr, subst, byte_length,
}
use tejun.Sql.Tx.{ok, modify, ◌>>=◌}
use tejun.Sql.Keeps.{IsPreorder, Keeps, Keeps-modify, >>=-eq-ok, keeps_rules}
use tejun.Sql.Commit.{require-eq-ok, gets-eq-ok, fail_if-eq-ok}
use tejun.Sql.Table.{update_where, update_where-Memᴰ, append_one-Memᴰ, insert_row}
use tejun.Database.{Db}
use tejun.Database.Time.{Time}
use tejun.Database.Rows.{JobState, RevisionJob}
use tejun.Procedure.Codec.{Json}
use tejun.Procedure.Statements.{
  update_revision_jobs, update_procedures, write_document, insert_revision_job,
}
use tejun.Procedure.Complete.{close_procedure}
use tejun.Procedure.Revision.Accept.{
  ProcedureRevisionRecord, prompt_limit, queued_revision, enqueue_revision, accept_revision_new,
}
use tejun.Procedure.Revision.Claim.{take_revision}
use tejun.Procedure.Revision.Finish.{Outcome, close_revision}
use tejun.Procedure.Revision.Outcomes.{IsEnded}
use tejun.Procedure.Revision.Recover.{interrupt_revisions}
use tejun.Procedure.Revision.Cancel.{stop_revision}
use tejun.Procedure.Operations.{Request, history, KeptByAll, history_at}
use tejun.Procedure.Operations.Kept.{
  Writes, Keeps-save_new, Keeps-adopt, Keeps-complete_new, Keeps-cancel_revision_new,
  Keeps-save_mutation,
}
use tejun.Procedure.Operations.Sides.{
  aside-next_sequence, aside-insert_outbox, aside-insert_receipt,
}
use tejun.Procedure.Versions.Stale.{admit_draft-eq-ok}
use tejun.Procedure.Pending.Guards.{recorded, insert_procedure_turn-jobs}

-- No prompt of the queue is longer than the limit.
abbrev pub AllFit : List RevisionJob → Type 0
AllFit rows = (j : RevisionJob) → Memᴰ j rows → byte_length j.prompt_text ≤ prompt_limit

record Fits (s t : Db) : Type 0 where
  pub at : AllFit s.revision_jobs → AllFit t.revision_jobs

Fits-order : IsPreorder Fits
Fits-order = record {
  same = λ s. record { at = λ o. o };
  joined = λ s t u k l. record { at = λ o. l.at (k.at o) };
}

Fits-aside :
    (f : Db → Db) → ((s : Db) → (f s).revision_jobs ≡ s.revision_jobs) → Keeps Fits (modify f)
Fits-aside f h = Keeps-modify f (λ s. record { at = λ o. subst AllFit (sym (h s)) o })

-- An UPDATE that leaves the prompts.
AllFit-update :
    (p : RevisionJob → Bool) (f : RevisionJob → RevisionJob) (rows : List RevisionJob)
    → ((j : RevisionJob) → (f j).prompt_text ≡ j.prompt_text)
    → AllFit rows
    → AllFit (update_where p f rows)
AllFit-update p f rows same o j m =
    let (i, mi, e) = update_where-Memᴰ p f rows m in
    elim (Bool-cases (p i)) [
      | inl hit ↦ let now : j ≡ f i = rw hit at e in rw (now, same i) (o i mi)
      | inr miss ↦ let now : j ≡ i = rw miss at e in rw now (o i mi)
    ]

Fits-update_revision_jobs :
    (p : RevisionJob → Bool) (f : RevisionJob → RevisionJob)
    → ((j : RevisionJob) → (f j).prompt_text ≡ j.prompt_text)
    → Keeps Fits (update_revision_jobs p f)
unfolding update_revision_jobs
Fits-update_revision_jobs p f same =
    Keeps-modify _ (λ s. record { at = AllFit-update p f s.revision_jobs same })

Fits-take_revision : Keeps Fits take_revision
unfolding take_revision
Fits-take_revision = search (
  keeps_rules,
  Fits-order,
  λ (p : RevisionJob → Bool).
      Fits-update_revision_jobs p (λ k. record k { state = JobState.running }) (λ j. refl),
)

Fits-close_revision :
    (id : String) (o : Outcome) (at : Time) → IsEnded o → Keeps Fits (close_revision id o at)
unfolding close_revision
Fits-close_revision id o at ended = Fits-update_revision_jobs _ _ (λ j. refl)

Fits-interrupt_revisions : (at : Time) → Keeps Fits (interrupt_revisions at)
unfolding interrupt_revisions
Fits-interrupt_revisions at = Fits-update_revision_jobs _ _ (λ j. refl)

Fits-stop_revision :
    (id : String) (state : JobState) (at : Time) → Keeps Fits (stop_revision id state at)
unfolding stop_revision
Fits-stop_revision id state at = Fits-update_revision_jobs _ _ (λ j. refl)

Fits-writes : Writes Fits
Fits-writes = record {
  order = Fits-order;
  beside = λ f core. Fits-aside f (λ s. (core s).revision_jobs);
  take_revision = Fits-take_revision;
  close_revision = Fits-close_revision;
  interrupt_revisions = Fits-interrupt_revisions;
  next_sequence = aside-next_sequence Fits-order (λ f p r e. Fits-aside f r);
  insert_outbox = aside-insert_outbox Fits-order (λ f p r e. Fits-aside f r);
  insert_receipt = aside-insert_receipt Fits-order (λ f p r e. Fits-aside f r);
}

insert_revision_job-jobs :
    (j : RevisionJob) (s : Db) {a : Unit {0}} {t : Db}
    → insert_revision_job j s ≡ ok (a, t)
    → t.revision_jobs ≡ s.revision_jobs ++ j ∷ []
unfolding insert_revision_job insert_row ◌>>=◌
insert_revision_job-jobs j s h = ground arith

-- The prompt was measured before its job is queued.
Fits-enqueue :
    (sha256 : String → String) (json : Json) (r : ProcedureRevisionRecord) (prompt : String)
    (s : Db) {a : Unit {0}} {t : Db}
    → enqueue_revision sha256 json r prompt s ≡ ok (a, t)
    → ltb prompt_limit (byte_length prompt) ≡ false
    → Fits s t
unfolding enqueue_revision
Fits-enqueue sha256 json r prompt s {t = t} h short =
    let (_, s1, h1, k1) = >>=-eq-ok _ _ s h in
    let after =
      insert_revision_job-jobs (queued_revision r prompt) s1 k1
      ∙ ap (λ rows. rows ++ queued_revision r prompt ∷ []) (insert_procedure_turn-jobs _ s h1) in
    record {
      at = λ o j m.
          elim (append_one-Memᴰ (queued_revision r prompt) s.revision_jobs
            (subst (λ rows. Memᴰ j rows) after m)) [
              | inl old ↦ o j old
              | inr e ↦ rw e (ground arith)
            ];
    }

module _ (sha256 : String → String) (json : Json) where
  Fits-accept_new : (r : ProcedureRevisionRecord) → Keeps Fits (accept_revision_new sha256 json r)
  unfolding accept_revision_new
  Fits-accept_new r = record {
    at = λ s v t h.
        let (p, s1, h1, k1) = >>=-eq-ok _ _ s h in
        let (_, s2, h2, k2) = >>=-eq-ok _ _ s1 k1 in
        let (pending, s3, h3, k3) = >>=-eq-ok _ _ s2 k2 in
        let (_, s4, h4, k4) = >>=-eq-ok _ _ s3 k3 in
        let (_, s5, h5, k5) = >>=-eq-ok _ _ s4 k4 in
        let (_, s6, h6, k6) = >>=-eq-ok _ _ s5 k5 in
        let (_, same1) = require-eq-ok _ _ s h1 in
        let (_, _, same2) = admit_draft-eq-ok _ p r.expected_revision s1 h2 in
        let (_, same3) = gets-eq-ok _ s2 h3 in
        let (_, same4) = fail_if-eq-ok _ _ s3 h4 in
        let (short, same5) = fail_if-eq-ok _ _ s4 h5 in
        let back : s5 ≡ s = same5 ∙ same4 ∙ same3 ∙ same2 ∙ same1 in
        let queued = Fits-enqueue sha256 json r _ s5 h6 short in
        let after =
          (recorded Fits-order Fits-writes.next_sequence _ _
              (λ n. Keeps-save_mutation Fits-writes _ _ _ _ _ _ n)).at
            s6 v t k6 in
        record { at = λ o. after.at (queued.at (rw back o)) };
  }

  Fits-kept : KeptByAll sha256 json Fits
  unfolding write_document close_procedure update_procedures
  Fits-kept = record {
    writes = Fits-writes;
    save_new = Keeps-save_new Fits-writes sha256 json (λ id n text at. Fits-aside _ (λ s. refl));
    adopt = Keeps-adopt Fits-writes json (λ id n text at. Fits-aside _ (λ s. refl));
    accept_new = Fits-accept_new;
    cancel_new = Keeps-cancel_revision_new Fits-writes sha256 Fits-stop_revision;
    complete_new = Keeps-complete_new Fits-writes sha256 json (λ id n at. Fits-aside _ (λ s. refl));
  }

  -- Where no prompt of the queue is longer than 6291456 bytes, none is after any history of requests.
  pub procedure-AllFit :
      (qs : List Request) (s : Db)
      → AllFit s.revision_jobs
      → AllFit (history sha256 json qs s).revision_jobs
  procedure-AllFit qs s o = (history_at sha256 json Fits-kept qs s).at o
