-- ===== src/Execution/Generate/References.antt =====
-- The evidence that a generated document (internal/adapter/sqlite/execution.go) refers to.
use mathlib.Core.List.Memᴰ as Members
use tejun.Prelude.{
  ◌≡◌, refl, sym, ap, String, true, none, List, [], ◌∷◌, Memᴰ, arith, ◌==◌, eq_iff, eq_refl,
  mem_text, subst,
}
use tejun.Sql.Tx.{ok}
use tejun.Sql.Table.{find, select_where, select_where-Memᴰ}
use tejun.Sql.Table.Order.{Memᴰ-select_where}
use tejun.Sql.Table.Sorted.{order_by-Memᴰ}
use tejun.Database.{Db}
use tejun.Database.Rows.{Check, Evidence, SourceEvidence}
use tejun.Database.Ledger.{MutationResult, GenerationAccepted}
use tejun.Domain.Integrity.{EvidenceRef, Step}
use tejun.Mutation.{same_receipt}
use tejun.Execution.Snapshot.{evidence_before, execution_checks, evidence_of}
use tejun.Execution.Generate.{
  ProcedureDraftRecord, evidence_ref, step_of, document_of, source_links, generate_procedure_draft,
}
use tejun.Execution.Generate.Drafted.{generate_procedure_draft-Drafted}
use tejun.Procedure.Codec.{Json}
use tejun.Procedure.Statements.{source_ids}

mem_text-Memᴰ : (a : String) (xs : List String) → Memᴰ a xs → mem_text a xs ≡ true
unfolding mem_text
mem_text-Memᴰ a [] m = elim m [ ]
mem_text-Memᴰ a (x ∷ xs) (Memᴰ.head e) = rw (← e, eq_refl a) refl
mem_text-Memᴰ a (x ∷ xs) (Memᴰ.tail m) = ground (arith, mem_text-Memᴰ a xs m)

-- A reference of a step is an evidence of the execution.
ref-evidence :
    (name execution_id : String) (s : Db) (step : Step) (ref : EvidenceRef)
    → Memᴰ step (document_of name execution_id s).steps
    → Memᴰ ref step.evidence_refs
    → (v : Evidence) × Memᴰ v
        (select_where (λ (w : Evidence). w.execution_id == execution_id) s.evidence)
      × (v.evidence_id ≡ ref.evidence_id)
ref-evidence name execution_id s step ref ms mr =
    let (c, mc, made) = Members.of_map (step_of s) (execution_checks execution_id s) ms in
    let (of_c, owner) =
      select_where-Memᴰ (λ (d : Check). d.execution_id == execution_id) s.checks
        (order_by-Memᴰ _ _ mc) in
    let (v, mv, same) =
      Members.of_map evidence_ref (evidence_of c s)
        (subst (λ (x : Step). Memᴰ ref x.evidence_refs) (sym made) mr) in
    let (here, _) = select_where-Memᴰ (λ (w : Evidence). w.check_id == c.check_id) _ mv in
    (
      v,
      subst (λ id. Memᴰ v (select_where (λ (w : Evidence). w.execution_id == id) s.evidence))
          ((eq_iff c.execution_id execution_id).0 owner) (order_by-Memᴰ evidence_before _ here),
      ap (λ (x : EvidenceRef). x.evidence_id) same,
    )

module _ (sha256 : String → String) (json : Json) where
  -- Whatever evidence the document of a generated draft refers to, it is a source evidence of the
  -- procedure: CompleteProcedure and SaveProcedureDraft will know it.
  pub generate_procedure_draft-references :
      (r : ProcedureDraftRecord) (s : Db) {v : MutationResult GenerationAccepted} {t : Db}
      (name : String) (step : Step) (ref : EvidenceRef)
      → generate_procedure_draft sha256 json r s ≡ (ok v, t)
      → find (same_receipt "generate_procedure_draft" r.operation_id) s.receipts ≡ none
      → Memᴰ step (document_of name r.execution_id s).steps
      → Memᴰ ref step.evidence_refs
      → mem_text ref.evidence_id (source_ids r.procedure_id t) ≡ true
  generate_procedure_draft-references r s {t = t} name step ref h fresh ms mr =
      let made = generate_procedure_draft-Drafted sha256 json r s h fresh in
      let (w, mw, same) = ref-evidence name r.execution_id s step ref ms mr in
      let link : SourceEvidence = record {
        procedure_id = r.procedure_id;
        evidence_id = w.evidence_id;
      } in
      let added : Memᴰ link (source_links r.procedure_id r.execution_id s) =
        Members.map
          (λ (x : Evidence). record { procedure_id = r.procedure_id; evidence_id = x.evidence_id })
          mw in
      let stored : Memᴰ link t.source_evidence =
        subst (λ rows. Memᴰ link rows) (sym made.sources)
          (Members.append_right s.source_evidence added) in
      let selected =
        Memᴰ-select_where (λ (x : SourceEvidence). x.procedure_id == r.procedure_id)
          t.source_evidence stored (eq_refl r.procedure_id) in
      let listed = Members.map (λ (x : SourceEvidence). x.evidence_id) selected in
      mem_text-Memᴰ ref.evidence_id (source_ids r.procedure_id t)
        (subst (λ id. Memᴰ id (source_ids r.procedure_id t)) same listed)
