-- ===== src/Procedure/ReadsBack.antt =====
-- What SaveProcedureDraft stores (internal/adapter/sqlite/procedure.go) is what CompleteProcedure and
-- GetProcedure decode.
use tejun.Prelude.{
  ◌≡◌, refl, ◌∙◌, ap, ℕ, ◌+◌, String, Bool, true, false, none, some, List, [], ◌∷◌, arith,
  Bool-cases, inl, inr, if◌then◌else◌,
}
use tejun.Sql.Tx.{ok, pure}
use tejun.Sql.Keeps.{>>=-eq-ok}
use tejun.Sql.Commit.{
  commit-eq-ok, require-eq-ok, gets-eq-ok, fail_if-eq-ok, modify-eq-ok, pure-eq-ok,
}
use tejun.Sql.Table.{update_where, find, find-Memᴰ}
use tejun.Database.{Db}
use tejun.Database.Rows.{Procedure}
use tejun.Database.Ledger.{MutationResult, ProcedureSaved}
use tejun.Mutation.{same_receipt}
use tejun.Mutation.Receipts.{once-eq-ok}
use tejun.Procedure.Codec.{Json}
use tejun.Procedure.Statements.{has_procedure, is_draft_at, update_procedures, write_document}
use tejun.Procedure.Draft.{
  ProcedureSaveRecord, as_procedure_saved, save_new, save_tx, save_procedure_draft,
}
use tejun.Procedure.Operations.Kept.{Keeps-save_mutation}
use tejun.Procedure.Revision.Adopts.{SameProcedures-writes}
use tejun.Procedure.Versions.Stale.{admit_draft-eq-ok, unanswered, rewritten}

-- A look-up by a key that the UPDATE leaves.
find-update_where :
    (same p : Procedure → Bool) (f : Procedure → Procedure) {x : Procedure} (rows : List Procedure)
    → ((y : Procedure) → same (f y) ≡ same y)
    → find same rows ≡ some x
    → find same (update_where p f rows) ≡ some (if p x then f x else x)
unfolding find update_where
find-update_where same p f [] k h = absurd (cc)
find-update_where same p f {x} (y ∷ rows) k h = elim (Bool-cases (same y)) [
  | inl here ↦
      let one : y ≡ x = ground arith in
      let moved : same (if p y then f y else y) ≡ true = elim (Bool-cases (p y)) [
        | inl e ↦ rw (e, k y) here
        | inr e ↦ rw e here
      ] in
      rw (← one, moved) refl
  | inr else_where ↦
      let moved : same (if p y then f y else y) ≡ false = elim (Bool-cases (p y)) [
        | inl e ↦ rw (e, k y) else_where
        | inr e ↦ rw e else_where
      ] in
      rw moved (find-update_where same p f rows k (ground arith))
]

write_document-procedures :
    (id : String) (n : ℕ) (text : String) (at : ℕ) (s : Db) {a : Unit {0}} {t : Db}
    → write_document id n text at s ≡ ok (a, t)
    → t.procedures ≡ update_where (is_draft_at id n) (rewritten text at) s.procedures
unfolding write_document update_procedures
write_document-procedures id n text at s h = ap (λ (d : Db). d.procedures) (modify-eq-ok _ s h)

module _ (sha256 : String → String) (json : Json) where
  -- What the transaction of a new save leaves.
  record Stores (r : ProcedureSaveRecord) (v : MutationResult ProcedureSaved) (t : Db)
      : Type 0 where
    pub row : Procedure
    pub found : find (has_procedure r.procedure_id) t.procedures ≡ some row
    pub document : row.document ≡ json.marshal r.document
    pub revision : row.revision ≡ r.expected_revision + 1
    pub told : v.value.revision ≡ row.revision

  save_new-Stores :
      (r : ProcedureSaveRecord) (s : Db) {v : MutationResult ProcedureSaved} {t : Db}
      → save_new sha256 json r s ≡ ok (v, t)
      → Stores r v t
  unfolding save_new
  save_new-Stores r s {v} {t} h =
      let (p, s1, h1, k1) = >>=-eq-ok _ _ s h in
      let (_, s2, h2, k2) = >>=-eq-ok _ _ s1 k1 in
      let (ids, s3, h3, k3) = >>=-eq-ok _ _ s2 k2 in
      let (_, s4, h4, k4) = >>=-eq-ok _ _ s3 k3 in
      let (n, s5, h5, k5) = >>=-eq-ok _ _ s4 k4 in
      let (_, s6, h6, k6) = >>=-eq-ok _ _ s5 k5 in
      let (found, same1) = require-eq-ok _ _ s h1 in
      let (draft, expected, same2) = admit_draft-eq-ok _ p r.expected_revision s1 h2 in
      let (_, same3) = gets-eq-ok _ s2 h3 in
      let back : s3 ≡ s = same3 ∙ same2 ∙ same1 in
      let (m, id) = find-Memᴰ (has_procedure r.procedure_id) s.procedures found in
      let (told, same6) = pure-eq-ok _ s6 k6 in
      let here : is_draft_at r.procedure_id p.revision p ≡ true = ground arith in
      let n_is : p.revision ≡ r.expected_revision = ground arith in
      let kept : t.procedures ≡ s4.procedures =
        ap (λ (d : Db). d.procedures) same6
        ∙ ((Keeps-save_mutation SameProcedures-writes _ _ _ _ _ _ n).at s5 _ s6 h6).same
        ∙ (SameProcedures-writes.next_sequence.at s4 n s5 h5).same in
      let text = json.marshal r.document in
      let written : s4.procedures
          ≡ update_where (is_draft_at r.procedure_id p.revision) (rewritten text r.at.micros)
              s.procedures =
        write_document-procedures r.procedure_id p.revision text r.at.micros s3 h4
        ∙ ap
            (λ (d : Db).
              update_where (is_draft_at r.procedure_id p.revision) (rewritten text r.at.micros)
                d.procedures)
            back in
      record {
        row = rewritten text r.at.micros p;
        found =
            rw
              (
                kept,
                written,
                find-update_where (has_procedure r.procedure_id)
                    (is_draft_at r.procedure_id p.revision) (rewritten text r.at.micros)
                    s.procedures (λ y. refl) found,
                here,
              )
              refl;
        document = refl;
        revision = ap (λ k. k + 1) n_is;
        told = ap (λ (w : MutationResult ProcedureSaved). w.value.revision) told;
      }

  -- Once a draft was saved, its row is found under its id, its text decodes to the document that was
  -- saved, and its revision is the one after the expected one and the one that the client was told:
  -- the save was a new one, and json.Unmarshal undoes json.Marshal on this document.
  pub save_procedure_draft-reads_back :
      (r : ProcedureSaveRecord) (s : Db) {v : MutationResult ProcedureSaved} {t : Db}
      → save_procedure_draft sha256 json r s ≡ (ok v, t)
      → find (same_receipt "save_procedure_draft" r.operation_id) s.receipts ≡ none
      → json.unmarshal (json.marshal r.document) ≡ some r.document
      → (q : Procedure) × (find (has_procedure r.procedure_id) t.procedures ≡ some q)
        × (json.unmarshal q.document ≡ some r.document)
        × (q.revision ≡ r.expected_revision + 1)
        × (v.value.revision ≡ q.revision)
  unfolding save_procedure_draft save_tx
  save_procedure_draft-reads_back r s h fresh decodes =
      let (_, s1, h1, k1) = >>=-eq-ok _ _ s (commit-eq-ok (save_tx sha256 json r) s h) in
      let (_, same) = fail_if-eq-ok _ _ s h1 in
      elim (once-eq-ok _ _ _ _ pure (save_new sha256 json r) s (rw same at k1)) [
        | inl (w, answered, p) ↦ absurd (unanswered as_procedure_saved _ _ _ w s fresh answered)
        | inr p ↦
            let stored = save_new-Stores r s p in
            (
              stored.row,
              stored.found,
              ap json.unmarshal stored.document ∙ decodes,
              stored.revision,
              stored.told,
            )
      ]
