-- ===== src/Execution/Generate/Drafted.antt =====
-- What GenerateProcedureDraft (internal/adapter/sqlite/execution.go) leaves.
use tejun.Prelude.{
  ◌≡◌, refl, ◌∙◌, sym, ap, ◌+◌, String, true, none, some, List, [], ◌∷◌, ◌++◌, arith, inl, inr,
  ◌==◌, ◌&&◌, ◌||◌, map, text_lt, ltb,
}
use tejun.Sql.Tx.{ok, pure}
use tejun.Sql.Keeps.{>>=-eq-ok}
use tejun.Sql.Commit.{
  gets-eq-ok, fail_if-eq-ok, require-eq-ok, modify-eq-ok, pure-eq-ok, commit-eq-ok,
}
use tejun.Sql.Table.{find, update_where, select_where, order_by}
use tejun.Database.{Db}
use tejun.Database.Time.{format}
use tejun.Database.Rows.{ExecutionStatus, ProcedureStatus, Execution, Check, Evidence, Project}
use tejun.Database.Ledger.{MutationResult, GenerationAccepted}
use tejun.Domain.Integrity.{Document}
use tejun.Domain.Readiness.{readiness}
use tejun.Mutation.{same_receipt}
use tejun.Mutation.Receipts.{once-eq-ok}
use tejun.Execution.Statements.{has_execution}
use tejun.Execution.Snapshot.{snapshot_of}
use tejun.Execution.Generate.{
  ProcedureDraftRecord, as_generation, document_of, source_links, close_execution,
  generated_procedure, admit_generation, link_sources, write_draft, generate_new, generate_tx,
  generate_procedure_draft,
}
use tejun.Procedure.Codec.{Json}
use tejun.Procedure.Versions.Stale.{unanswered}
use tejun.Project.Create.{has_project}
use tejun.Execution.Generate.Ready.{Ready, readiness-Ready}
use tejun.Execution.Generate.Writes.{
  Beside-order, Beside-insert_draft, Beside-insert_source, Beside-insert_procedure_evidence,
  Beside-open_editing, Beside-next_sequence, Beside-save_mutation, insert_draft-projects,
  insert_procedure-eq-ok, insert_source_evidence-eq-ok,
}

-- Each row of evidence of the execution, of any kind, becomes a source of the procedure.
abbrev pub Links : ProcedureDraftRecord → Db → Db → Type 0
Links r s t =
    t.source_evidence
    ≡ s.source_evidence
      ++ map
          (λ (v : Evidence). record { procedure_id = r.procedure_id; evidence_id = v.evidence_id })
          (select_where (λ (v : Evidence). v.execution_id == r.execution_id) s.evidence)

-- The document has a step for each check of the execution, in the order of their sequence, and a step
-- refers to the evidence of its check, in the order of its times and ids.
abbrev pub IsWritten : String → String → Db → Document → Type 0
IsWritten name execution_id s document =
    (document.title ≡ name)
    × (document.overview ≡ "")
    × (document.prerequisites ≡ [])
    × (document.steps
        ≡ map
            (λ (c : Check). record {
              id = c.check_id;
              client_key = c.check_id;
              title = c.title;
              description = c.instruction;
              command = c.suggested_command;
              notes = [];
              evidence_refs =
                  map
                    (λ (v : Evidence). record {
                      evidence_id = v.evidence_id;
                      display_name = v.display_name;
                      included = true;
                    })
                    (select_where (λ (v : Evidence). v.check_id == c.check_id)
                      (order_by
                        (λ (v w : Evidence).
                          text_lt v.created_at w.created_at
                          || (v.created_at == w.created_at && text_lt v.evidence_id w.evidence_id))
                        (select_where (λ (v : Evidence). v.execution_id == c.execution_id)
                          s.evidence)));
            })
            (order_by (λ (c d : Check). ltb c.sequence d.sequence)
              (select_where (λ (c : Check). c.execution_id == execution_id) s.checks)))

-- The execution, its project, and what the draft adds.
pub record Drafted (json : Json) (r : ProcedureDraftRecord) (s t : Db) : Type 0 where
  pub execution : Execution
  pub project : Project
  pub document : Document
  pub found :
      find (λ (e : Execution). e.execution_id == r.execution_id) s.executions ≡ some execution
  pub expected : execution.revision ≡ r.expected_revision
  pub ready : Ready execution s
  pub of_project :
      find (λ (p : Project). p.project_id == execution.project_id) s.projects ≡ some project
  pub written : IsWritten project.name r.execution_id s document
  pub procedures :
      t.procedures
      ≡ s.procedures
        ++ record {
          procedure_id = r.procedure_id;
          project_id = execution.project_id;
          document = json.marshal document;
          status = ProcedureStatus.draft;
          revision = 1;
          created_at = r.at.micros;
          updated_at = r.at.micros;
          completed_at = none;
        }
          ∷ []
  pub sources : Links r s t
  pub closed :
      t.executions
      ≡ update_where
          (λ (e : Execution). e.execution_id == r.execution_id)
          (λ e. record e {
            status = ExecutionStatus.completed;
            completed_at = some (format r.at);
            revision = e.revision + 1;
          })
          s.executions

admit_generation-eq-ok :
    (r : ProcedureDraftRecord) (e : Execution) (s : Db) {a : Unit {0}} {t : Db}
    → admit_generation r e s ≡ ok (a, t)
    → (e.revision ≡ r.expected_revision) × ((readiness (snapshot_of e s)).0 ≡ true) × (t ≡ s)
unfolding admit_generation
admit_generation-eq-ok r e s h =
    let (_, s1, h1, k1) = >>=-eq-ok _ _ s h in
    let (ready, s2, h2, k2) = >>=-eq-ok _ _ s1 k1 in
    let (expected, same1) = fail_if-eq-ok _ _ s h1 in
    let (read, same2) = gets-eq-ok _ s1 h2 in
    let (passed, same3) = fail_if-eq-ok _ _ s2 k2 in
    let yes : ready ≡ true = ground arith in
    (
      ground arith,
      ap (λ (d : Db). (readiness (snapshot_of e d)).0) (sym same1) ∙ sym read ∙ yes,
      same3 ∙ same2 ∙ same1,
    )

link_sources-eq-ok :
    (r : ProcedureDraftRecord) (e : Execution) (s : Db) {a : Unit {0}} {t : Db}
    → link_sources r e s ≡ ok (a, t)
    → (t.procedures ≡ s.procedures)
      × (t.source_evidence ≡ s.source_evidence ++ source_links r.procedure_id r.execution_id s)
      × (t.executions
          ≡ update_where
              (has_execution r.execution_id)
              (λ x. record x {
                status = ExecutionStatus.completed;
                completed_at = some (format r.at);
                revision = x.revision + 1;
              })
              s.executions)
unfolding link_sources close_execution
link_sources-eq-ok r e s {t = t} h =
    let (_, s1, h1, k1) = >>=-eq-ok _ _ s h in
    let (_, s2, h2, k2) = >>=-eq-ok _ _ s1 k1 in
    let (_, s3, h3, k3) = >>=-eq-ok _ _ s2 k2 in
    let (_, s4, h4, k4) = >>=-eq-ok _ _ s3 k3 in
    let b1 = (Beside-insert_source _).at s _ s1 h1 in
    let linked = insert_source_evidence-eq-ok _ s1 h2 in
    let b2 =
      Beside-order.joined s2 s3 s4 ((Beside-insert_procedure_evidence _).at s2 _ s3 h3)
        ((Beside-open_editing _ _).at s3 _ s4 h4) in
    let closed = modify-eq-ok _ s4 k4 in
    (
      ap (λ (d : Db). d.procedures) closed
          ∙ b2.procedures
          ∙ ap (λ (d : Db). d.procedures) linked
          ∙ b1.procedures,
      ap (λ (d : Db). d.source_evidence) closed
          ∙ b2.source_evidence
          ∙ ap (λ (d : Db). d.source_evidence) linked
          ∙ rw (b1.source_evidence, b1.evidence) refl,
      ap (λ (d : Db). d.executions) closed
          ∙ ap (update_where (has_execution r.execution_id) _)
              (b2.executions ∙ ap (λ (d : Db). d.executions) linked ∙ b1.executions),
    )

-- The document is made of the checks and the evidence.
document_of-same :
    (name id : String) (s t : Db)
    → t.checks ≡ s.checks
    → t.evidence ≡ s.evidence
    → document_of name id t ≡ document_of name id s
document_of-same name id s t checks evidence =
    ap (λ (c : List Check). document_of name id (record t { checks = c })) checks
    ∙ ap (λ (v : List Evidence). document_of name id (record s { evidence = v })) evidence

module _ (sha256 : String → String) (json : Json) where
  write_draft-eq-ok :
      (r : ProcedureDraftRecord) (e : Execution) (s : Db) {a : Unit {0}} {t : Db}
      → write_draft sha256 json r e s ≡ ok (a, t)
      → (p : Project) × (find (has_project e.project_id) s.projects ≡ some p)
        × (t.procedures
            ≡ s.procedures
              ++ generated_procedure r e.project_id
                  (json.marshal (document_of p.name r.execution_id s))
                ∷ [])
        × (t.source_evidence ≡ s.source_evidence)
        × (t.executions ≡ s.executions)
        × (t.evidence ≡ s.evidence)
  unfolding write_draft
  write_draft-eq-ok r e s {t = t} h =
      let (_, s1, h1, k1) = >>=-eq-ok _ _ s h in
      let (p, s2, h2, k2) = >>=-eq-ok _ _ s1 k1 in
      let (document, s3, h3, k3) = >>=-eq-ok _ _ s2 k2 in
      let b = (Beside-insert_draft _).at s _ s1 h1 in
      let (found, same2) = require-eq-ok _ _ s1 h2 in
      let (read, same3) = gets-eq-ok _ s2 h3 in
      let back : s3 ≡ s1 = same3 ∙ same2 in
      let now = insert_procedure-eq-ok _ s3 k3 in
      let made : document ≡ document_of p.name r.execution_id s =
        read
        ∙ ap (document_of p.name r.execution_id) same2
        ∙ document_of-same p.name r.execution_id s s1 b.checks b.evidence in
      (
        p,
        ap (find (has_project e.project_id)) (sym (insert_draft-projects _ s h1)) ∙ found,
        ap (λ (d : Db). d.procedures) now ∙ rw (made, back, b.procedures) refl,
        ap (λ (d : Db). d.source_evidence) now
            ∙ ap (λ (d : Db). d.source_evidence) back
            ∙ b.source_evidence,
        ap (λ (d : Db). d.executions) now ∙ ap (λ (d : Db). d.executions) back ∙ b.executions,
        ap (λ (d : Db). d.evidence) now ∙ ap (λ (d : Db). d.evidence) back ∙ b.evidence,
      )

  generate_new-Drafted :
      (r : ProcedureDraftRecord) (s : Db) {v : MutationResult GenerationAccepted} {t : Db}
      → generate_new sha256 json r s ≡ ok (v, t)
      → Drafted json r s t
  unfolding generate_new
  generate_new-Drafted r s {t = t} h =
      let (e, s1, h1, k1) = >>=-eq-ok _ _ s h in
      let (_, s2, h2, k2) = >>=-eq-ok _ _ s1 k1 in
      let (_, s3, h3, k3) = >>=-eq-ok _ _ s2 k2 in
      let (_, s4, h4, k4) = >>=-eq-ok _ _ s3 k3 in
      let (n, s5, h5, k5) = >>=-eq-ok _ _ s4 k4 in
      let (_, s6, h6, k6) = >>=-eq-ok _ _ s5 k5 in
      let (found, same1) = require-eq-ok _ _ s h1 in
      let (expected, ready, same2) = admit_generation-eq-ok r e s1 h2 in
      let back : s2 ≡ s = same2 ∙ same1 in
      let (p, of_project, procedures, links, executions, evidence) = write_draft-eq-ok r e s2 h3 in
      let (procedures2, sources, closed) = link_sources-eq-ok r e s3 h4 in
      let (_, same6) = pure-eq-ok _ s6 k6 in
      let after =
        Beside-order.joined s4 s5 s6 (Beside-next_sequence.at s4 n s5 h5)
          ((Beside-save_mutation _ _ _ _ _ _ n).at s5 _ s6 h6) in
      record {
        execution = e;
        project = p;
        document = document_of p.name r.execution_id s;
        written = (refl, refl, refl, refl);
        found = found;
        expected = expected;
        ready =
            readiness-Ready e s
              (ap (λ (d : Db). (readiness (snapshot_of e d)).0) (sym same1) ∙ ready);
        of_project =
            ap (λ (d : Db). find (has_project e.project_id) d.projects) (sym back) ∙ of_project;
        procedures =
            ap (λ (d : Db). d.procedures) same6
            ∙ after.procedures
            ∙ procedures2
            ∙ procedures
            ∙ rw back refl;
        sources =
            ap (λ (d : Db). d.source_evidence) same6
            ∙ after.source_evidence
            ∙ sources
            ∙ rw (links, evidence, back) refl;
        closed =
            ap (λ (d : Db). d.executions) same6
            ∙ after.executions
            ∙ closed
            ∙ ap (update_where (has_execution r.execution_id) _)
                (executions ∙ ap (λ (d : Db). d.executions) back);
      }

  -- A draft that is generated, under a new operation id, comes from an execution that was at the
  -- expected revision, active, with checks that were all done: the required sides completed, and with
  -- evidence by a human where that is asked for. One procedure is added, a draft with revision 1 whose document has a step
  -- for each check, in order, with references to all the evidence of that check; all the evidence of
  -- the execution becomes its source, and the execution is completed.
  pub generate_procedure_draft-Drafted :
      (r : ProcedureDraftRecord) (s : Db) {v : MutationResult GenerationAccepted} {t : Db}
      → generate_procedure_draft sha256 json r s ≡ (ok v, t)
      → find (same_receipt "generate_procedure_draft" r.operation_id) s.receipts ≡ none
      → Drafted json r s t
  unfolding generate_procedure_draft generate_tx
  generate_procedure_draft-Drafted r s h fresh =
      elim (once-eq-ok _ _ _ _ pure (generate_new sha256 json r) s
        (commit-eq-ok (generate_tx sha256 json r) s h)) [
          | inl (w, answered, p) ↦ absurd (unanswered as_generation _ _ _ w s fresh answered)
          | inr p ↦ generate_new-Drafted r s p
        ]
