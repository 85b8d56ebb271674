-- ===== src/Procedure/Revision/Adopts.antt =====
-- When an agent's answer replaces a draft.
use tejun.Prelude.{
  ◌≡◌, refl, ◌∙◌, ap, ℕ, ◌+◌, String, Bool, true, false, Option, none, some, arith, nat_eq, ltb,
  ◌==◌, ◌||◌, not, Bool-cases, inl, inr, subst, ◌⊎◌, byte_length,
}
use tejun.Sql.Tx.{ok, modify, pure}
use tejun.Sql.Keeps.{IsPreorder, Keeps, Keeps-modify, >>=-eq-ok}
use tejun.Sql.Commit.{commit-eq-ok, require-eq-ok, gets-eq-ok, pure-eq-ok, modify-eq-ok}
use tejun.Sql.Table.{update_where, find}
use tejun.Database.{Db}
use tejun.Database.Time.{Time}
use tejun.Database.Rows.{JobState, Procedure, RevisionJob}
use tejun.Domain.Integrity.{Document, evaluate}
use tejun.Execution.Statements.{is_cancellation_requested}
use tejun.Procedure.Codec.{Json, valid_document_text}
use tejun.Procedure.Statements.{
  has_revision_job, is_draft_at, source_ids, update_procedures, write_document,
}
use tejun.Procedure.Draft.{document_limit}
use tejun.Procedure.Revision.Claim.{ClaimedProcedureRevision}
use tejun.Procedure.Revision.Outcomes.{outcome_of-IsEnded}
use tejun.Procedure.Revision.Finish.{
  Outcome, revision_state, adopt, examine, examine_decoded, outcome_of, finish_tx,
  finish_procedure_revision,
}
use tejun.Procedure.Operations.Kept.{Writes, Keeps-settle_revision}
use tejun.Procedure.Operations.Sides.{
  aside-take_revision, aside-close_revision, aside-interrupt_revisions, aside-next_sequence,
  aside-insert_outbox, aside-insert_receipt,
}

pub record SameProcedures (s t : Db) : Type 0 where
  pub same : t.procedures ≡ s.procedures

SameProcedures-order : IsPreorder SameProcedures
SameProcedures-order = record {
  same = λ s. record { same = refl };
  joined = λ s t u k l. record { same = l.same ∙ k.same };
}

SameProcedures-aside :
    (f : Db → Db) → ((s : Db) → (f s).procedures ≡ s.procedures) → Keeps SameProcedures (modify f)
SameProcedures-aside f h = Keeps-modify f (λ s. record { same = h s })

pub SameProcedures-writes : Writes SameProcedures
SameProcedures-writes = record {
  order = SameProcedures-order;
  beside = λ f core. SameProcedures-aside f (λ s. (core s).procedures);
  take_revision = aside-take_revision SameProcedures-order (λ f p r e. SameProcedures-aside f p);
  close_revision = aside-close_revision SameProcedures-order (λ f p r e. SameProcedures-aside f p);
  interrupt_revisions =
      aside-interrupt_revisions SameProcedures-order (λ f p r e. SameProcedures-aside f p);
  next_sequence = aside-next_sequence SameProcedures-order (λ f p r e. SameProcedures-aside f p);
  insert_outbox = aside-insert_outbox SameProcedures-order (λ f p r e. SameProcedures-aside f p);
  insert_receipt = aside-insert_receipt SameProcedures-order (λ f p r e. SameProcedures-aside f p);
}

-- The draft at the expected revision, with the document.
abbrev pub rewritten : String → ℕ → Procedure → Procedure
rewritten text at p = record p { document = text; revision = p.revision + 1; updated_at = at }

revision_state-eq-ok :
    (id : String) (s : Db) (j : RevisionJob) {found : JobState × ℕ} {t : Db}
    → revision_state id s ≡ ok (found, t)
    → find (has_revision_job id) s.revision_jobs ≡ some j
    → (found.0 ≡ j.state) × (t ≡ s)
unfolding revision_state
revision_state-eq-ok id s j h row =
    let (i, s1, h1, k1) = >>=-eq-ok _ _ s h in
    let (q, s2, h2, k2) = >>=-eq-ok _ _ s1 k1 in
    let (read, same1) = require-eq-ok _ _ s h1 in
    let (_, same2) = require-eq-ok _ _ s1 h2 in
    let (state, same3) = pure-eq-ok _ s2 k2 in
    let one : i ≡ j = cc in
    (
      ap (λ (x : JobState × ℕ). x.0) state ∙ ap (λ (x : RevisionJob). x.state) one,
      same3 ∙ same2 ∙ same1,
    )

stays :
    (o : Outcome) (s : Db) {p : Outcome} {t : Db}
    → pure o s ≡ ok (p, t)
    → t.procedures ≡ s.procedures
stays o s h = ap (λ (x : Db). x.procedures) (pure-eq-ok o s h).1

module _ (json : Json) (job : ClaimedProcedureRevision) (answer : String) (at : Time) where
  -- The answer is a document that passed every test, and the draft that the revision was made for
  -- holds it.
  pub record Adopted (s t : Db) : Type 0 where
    pub document : Document
    pub decoded : json.decode answer ≡ some document
    pub fits : ltb document_limit (byte_length answer) ≡ false
    pub valid : valid_document_text document ≡ true
    pub passed : ((evaluate document (source_ids job.procedure_id s)).status == "blocked") ≡ false
    pub written :
        t.procedures
        ≡ update_where
            (is_draft_at job.procedure_id job.expected_revision)
            (rewritten (json.marshal document) at.micros)
            s.procedures

  adopt-writes :
      (d : Document) (s : Db) {o : Outcome} {t : Db}
      → adopt json job d at s ≡ ok (o, t)
      → t.procedures
        ≡ update_where
            (is_draft_at job.procedure_id job.expected_revision)
            (rewritten (json.marshal d) at.micros)
            s.procedures
  unfolding adopt write_document update_procedures
  adopt-writes d s h =
      let (n, s1, h1, k1) = >>=-eq-ok _ _ s h in
      let (_, s2, h2, k2) = >>=-eq-ok _ _ s1 k1 in
      let (_, same1) = gets-eq-ok _ s h1 in
      let (_, same2) = pure-eq-ok _ s2 k2 in
      ap (λ (x : Db). x.procedures) (same2 ∙ modify-eq-ok _ s1 h2)
      ∙ ap
          (λ (x : Db).
            update_where (is_draft_at job.procedure_id job.expected_revision)
              (rewritten (json.marshal d) at.micros) x.procedures)
          same1

  examine-Adopted :
      (d : Document) (s : Db) {o : Outcome} {t : Db}
      → examine json job answer d at s ≡ ok (o, t)
      → json.decode answer ≡ some d
      → (t.procedures ≡ s.procedures) ⊎ Adopted s t
  unfolding examine
  examine-Adopted d s {t = t} h decoded =
      elim (Bool-cases (ltb document_limit (byte_length answer) || not (valid_document_text d))) [
        | inl e ↦ inl (stays _ s (rw (e, examine) at h))
        | inr e ↦
            let (ids, s1, h1, k1) = >>=-eq-ok _ _ s (rw (e, examine) at h) in
            let (sources, back) = gets-eq-ok _ s h1 in
            elim (Bool-cases ((evaluate d ids).status == "blocked")) [
              | inl b ↦ inl (stays _ s1 (rw b at k1) ∙ ap (λ (x : Db). x.procedures) back)
              | inr b ↦ inr (record {
                document = d;
                decoded = decoded;
                fits = ground arith;
                valid = ground arith;
                passed = subst (λ x. ((evaluate d x).status == "blocked") ≡ false) sources b;
                written =
                    adopt-writes d s1 (rw b at k1)
                    ∙ ap
                        (λ (x : Db).
                          update_where (is_draft_at job.procedure_id job.expected_revision)
                            (rewritten (json.marshal d) at.micros) x.procedures)
                        back;
              })
            ]
      ]

  examine_decoded-Adopted :
      (o : Option Document) (s : Db) {p : Outcome} {t : Db}
      → json.decode answer ≡ o
      → examine_decoded json job answer o at s ≡ ok (p, t)
      → (t.procedures ≡ s.procedures) ⊎ Adopted s t
  examine_decoded-Adopted none s e h = inl (stays _ s h)
  examine_decoded-Adopted (some d) s e h = examine-Adopted d s h e

  outcome_of-Adopted :
      (failed : Bool) (state : JobState) (n : ℕ) (s : Db) {o : Outcome} {t : Db}
      → outcome_of json job answer failed at state n s ≡ ok (o, t)
      → (t.procedures ≡ s.procedures)
        ⊎ (Adopted s t × (failed ≡ false) × (is_cancellation_requested state ≡ false))
  unfolding outcome_of
  outcome_of-Adopted failed state n s h = elim (Bool-cases (is_cancellation_requested state)) [
    | inl c ↦ inl (stays _ s (rw (c, outcome_of) at h))
    | inr c ↦ elim (Bool-cases failed) [
      | inl f ↦ inl (stays _ s (rw (c, f, outcome_of) at h))
      | inr f ↦ elim (Bool-cases (not (nat_eq n job.expected_revision))) [
        | inl e ↦ inl (stays _ s (rw (c, f, e, outcome_of) at h))
        | inr e ↦
            elim (examine_decoded-Adopted (json.decode answer) s refl
              (rw (c, f, e, outcome_of) at h)) [ inl same ↦ inl same | inr a ↦ inr (a, f, c) ]
      ]
    ]
  ]

  -- What the tests left is what the transaction leaves.
  settled :
      (failed : Bool) (state : JobState) (n : ℕ) (s s2 t : Db) (j : RevisionJob) {s1 : Db}
      {o : Outcome}
      → s1 ≡ s
      → state ≡ j.state
      → outcome_of json job answer failed at state n s1 ≡ ok (o, s2)
      → t.procedures ≡ s2.procedures
      → (t.procedures ≡ s.procedures)
        ⊎ (Adopted s t × (failed ≡ false) × (is_cancellation_requested j.state ≡ false))
  settled failed state n s s2 t j {o = o} back same h rest =
      elim (outcome_of-Adopted failed state n s
        (subst (λ x. outcome_of json job answer failed at state n x ≡ ok (o, s2)) back h)) [
          | inl kept ↦ inl (rest ∙ kept)
          | inr (a, ran, c) ↦ inr (
            record {
              document = a.document;
              decoded = a.decoded;
              fits = a.fits;
              valid = a.valid;
              passed = a.passed;
              written = rest ∙ a.written;
            },
            ran,
            rw (← same) c,
          )
        ]

  -- Finishing a revision leaves every procedure as it is, or it replaces the draft that the revision
  -- was made for: then the agent's run had not failed, no cancellation was asked for, and the
  -- answer is a document that passed every test.
  pub finish_procedure_revision-Adopted :
      (failed : Bool) (event_id : String) (s : Db) {a : Unit {0}} {t : Db} (j : RevisionJob)
      → finish_procedure_revision json job answer failed at event_id s ≡ (ok a, t)
      → find (has_revision_job job.job_id) s.revision_jobs ≡ some j
      → (t.procedures ≡ s.procedures)
        ⊎ (Adopted s t × (failed ≡ false) × (is_cancellation_requested j.state ≡ false))
  unfolding finish_procedure_revision finish_tx
  finish_procedure_revision-Adopted failed event_id s {t = t} j h row =
      let (found, s1, h1, k1) =
        >>=-eq-ok _ _ s (commit-eq-ok (finish_tx json job answer failed at event_id) s h) in
      let (o, s2, h2, k2) = >>=-eq-ok _ _ s1 k1 in
      let (state, back) = revision_state-eq-ok job.job_id s j h1 row in
      let rest =
        ((Keeps-settle_revision SameProcedures-writes json job answer at event_id o
            ((outcome_of-IsEnded json job answer failed at found.0 found.1).at s1 o s2 h2)).at
          s2 _ t k2).same in
      settled failed found.0 found.1 s s2 t j back state h2 rest
