-- ===== src/Procedure/Versions/Stale.antt =====
-- Once a draft was saved, whoever read it before can no longer replace it.
use tejun.Prelude.{
  ◌≡◌, ◌∙◌, sym, ap, ℕ, ◌+◌, ◌<◌, String, true, Option, none, List, Memᴰ, arith, Bool-cases, inl,
  inr, nat_eq, eq_iff, subst, if◌then◌else◌,
}
use tejun.Sql.Tx.{Result, ok, pure, ◌>>=◌}
use tejun.Sql.Keeps.{Keeps-bind, Keeps-pure, >>=-eq-ok, Result-cases}
use tejun.Sql.Commit.{
  commit-eq-ok, modify-eq-ok, commit_of_err, commit_of_ok, fail_if-eq-ok, pure-eq-ok, require-eq-ok,
  gets-eq-ok,
}
use tejun.Sql.Table.{update_where, update_where-Memᴰ, find, find-Memᴰ}
use tejun.Sql.Table.Keys
use tejun.Sql.Table.Along.{Along-Memᴰ}
use tejun.Database.{Db}
use tejun.Database.Rows.{Procedure}
use tejun.Database.Ledger.{MutationResult, ProcedureSaved, Stored}
use tejun.Mutation.{same_receipt, check_receipt, existing_result, next_sequence}
use tejun.Mutation.Receipts.{Answers, once-eq-ok}
use tejun.Procedure.Codec.{Json}
use tejun.Procedure.Statements.{
  is_draft, is_draft_at, has_procedure, update_procedures, write_document,
}
use tejun.Procedure.Draft.{
  ProcedureSaveRecord, as_procedure_saved, admit_draft, save_new, save_tx, save_procedure_draft,
}
use tejun.Procedure.Operations.{Request, history}
use tejun.Procedure.Operations.Kept.{Keeps-save_mutation}
use tejun.Procedure.Versions.{
  Evolves, Versions, Versions-order, Versions-writes, procedure-Versions,
}

abbrev pub IsKeyed : List Procedure → Type 0
IsKeyed rows = Keys.IsKeyed (λ (p : Procedure). p.procedure_id) rows

-- No draft with this id is at this revision or at an earlier one.
abbrev pub IsPast : String → ℕ → Db → Type 0
IsPast id n s =
    (p : Procedure)
    → Memᴰ p s.procedures
    → p.procedure_id ≡ id
    → is_draft p.status ≡ true
    → n < p.revision

pub IsPast-Versions :
    (id : String) (n : ℕ) (s t : Db) → Versions s t → IsPast id n s → IsPast id n t
IsPast-Versions id n s t v past q m same draft =
    let (p, mp, e) = Along-Memᴰ Evolves s.procedures t.procedures v.rows m in
    elim (Bool-cases (is_draft p.status)) [
      | inl d ↦
          let before = past p mp (sym e.procedure_id ∙ same) d in let grown = e.grows in omega arith
      | inr d ↦ let one = e.frozen d in absurd (ground arith)
    ]

abbrev pub rewritten : String → ℕ → Procedure → Procedure
rewritten text at p = record p { document = text; revision = p.revision + 1; updated_at = at }

-- A row after the UPDATE of the draft `p` at the revision.
written_row :
    (id : String) (n : ℕ) (text : String) (at : ℕ) (p x q : Procedure)
    → is_draft_at id n p ≡ true
    → (x.procedure_id ≡ p.procedure_id → x ≡ p)
    → q ≡ (if is_draft_at id n x then rewritten text at x else x)
    → q.procedure_id ≡ id
    → n < q.revision
written_row id n text at p x q here keyed e same = elim (Bool-cases (is_draft_at id n x)) [
  | inl hit ↦ rw (e, hit) (ground arith)
  | inr miss ↦
      let stays : q ≡ x = rw miss at e in
      let of_p : p.procedure_id ≡ id = (eq_iff p.procedure_id id).0 (ground arith) in
      let one : x ≡ p =
        keyed (sym (ap (λ (r : Procedure). r.procedure_id) stays) ∙ same ∙ sym of_p) in
      absurd (let hit : is_draft_at id n x ≡ true = rw one here in cc)
]

-- The UPDATE of a draft that is at the revision.
IsPast-write_document :
    (id : String) (n : ℕ) (text : String) (at : ℕ) (s : Db) {a : Unit {0}} {t : Db} (p : Procedure)
    → write_document id n text at s ≡ ok (a, t)
    → IsKeyed s.procedures
    → Memᴰ p s.procedures
    → is_draft_at id n p ≡ true
    → IsPast id n t
unfolding write_document update_procedures
IsPast-write_document id n text at s {t = t} p h keyed m here q mq same draft =
    let after : t.procedures ≡ update_where (is_draft_at id n) (rewritten text at) s.procedures =
      ap (λ (d : Db). d.procedures) (modify-eq-ok _ s h) in
    let (x, mx, e) =
      update_where-Memᴰ (is_draft_at id n) (rewritten text at) s.procedures
        (subst (λ rows. Memᴰ q rows) after mq) in
    written_row id n text at p x q here (keyed x p mx m) e same

pub admit_draft-eq-ok :
    (message : String) (p : Procedure) (n : ℕ) (s : Db) {a : Unit {0}} {t : Db}
    → admit_draft message p n s ≡ ok (a, t)
    → (is_draft p.status ≡ true) × (nat_eq p.revision n ≡ true) × (t ≡ s)
unfolding admit_draft ◌>>=◌
admit_draft-eq-ok message p n s h = ground arith

-- No receipt answers a request whose operation id is new.
pub unanswered :
    {T : Type 0} (decode : Stored → Option (MutationResult T)) (scope operation_id hash : String)
    (w : MutationResult T) (s : Db)
    → find (same_receipt scope operation_id) s.receipts ≡ none
    → ¬ (Answers decode scope operation_id hash w s)
unfolding existing_result check_receipt ◌>>=◌
unanswered decode scope operation_id hash w s fresh h = ground arith

module _ (sha256 : String → String) (json : Json) where
  save_new-IsPast :
      (r : ProcedureSaveRecord) (s : Db) {v : MutationResult ProcedureSaved} {t : Db}
      → save_new sha256 json r s ≡ ok (v, t)
      → IsKeyed s.procedures
      → IsPast r.procedure_id r.expected_revision t
  unfolding save_new
  save_new-IsPast r s {t = t} h keyed =
      let (p, s1, h1, k1) = >>=-eq-ok _ _ s h in
      let (_, s2, h2, k2) = >>=-eq-ok _ _ s1 k1 in
      let (ids, s3, h3, k3) = >>=-eq-ok _ _ s2 k2 in
      let (_, s4, h4, k4) = >>=-eq-ok _ _ s3 k3 in
      let (found, same1) = require-eq-ok _ _ s h1 in
      let (draft, expected, same2) = admit_draft-eq-ok _ p r.expected_revision s1 h2 in
      let (_, same3) = gets-eq-ok _ s2 h3 in
      let back : s3 ≡ s = same3 ∙ same2 ∙ same1 in
      let (m, id) = find-Memᴰ (has_procedure r.procedure_id) s.procedures found in
      let n_is : p.revision ≡ r.expected_revision = ground arith in
      let here : is_draft_at r.procedure_id p.revision p ≡ true = ground arith in
      let written =
        IsPast-write_document r.procedure_id p.revision _ _ s p (rw back at h4) keyed m here in
      let later : Versions s4 t =
        (Keeps-bind Versions-order next_sequence _ Versions-writes.next_sequence (λ n.
            Keeps-bind Versions-order _ _ (Keeps-save_mutation Versions-writes _ _ _ _ _ _ n)
              (λ _. Keeps-pure Versions-order _))).at
          s4 _ t k4 in
      rw (← n_is) (IsPast-Versions r.procedure_id p.revision s4 t later written)

  pub save_tx-IsPast :
      (r : ProcedureSaveRecord) (s : Db) {v : MutationResult ProcedureSaved} {t : Db}
      → save_tx sha256 json r s ≡ ok (v, t)
      → find (same_receipt "save_procedure_draft" r.operation_id) s.receipts ≡ none
      → IsKeyed s.procedures
      → IsPast r.procedure_id r.expected_revision t
  unfolding save_tx
  save_tx-IsPast r s h fresh keyed =
      let (_, s1, h1, k1) = >>=-eq-ok _ _ s h in
      let (_, same) = fail_if-eq-ok _ _ s h1 in
      elim (once-eq-ok _ _ _ _ pure (save_new sha256 json r) s (rw same at k1)) [
        | inl (w, answered, p) ↦ absurd (unanswered as_procedure_saved _ _ _ w s fresh answered)
        | inr p ↦ save_new-IsPast r s p keyed
      ]

  -- A draft that has moved on is not saved.
  save_new-past :
      (r : ProcedureSaveRecord) (s : Db) {v : MutationResult ProcedureSaved} {t : Db}
      → IsPast r.procedure_id r.expected_revision s
      → ¬ (save_new sha256 json r s ≡ ok (v, t))
  unfolding save_new
  save_new-past r s past h =
      let (p, s1, h1, k1) = >>=-eq-ok _ _ s h in
      let (_, s2, h2, k2) = >>=-eq-ok _ _ s1 k1 in
      let (found, _) = require-eq-ok _ _ s h1 in
      let (draft, expected, _) = admit_draft-eq-ok _ p r.expected_revision s1 h2 in
      let (m, id) = find-Memᴰ (has_procedure r.procedure_id) s.procedures found in
      let beyond = past p m ((eq_iff _ _).0 id) draft in ground arith

  save_past-unchanged :
      (r : ProcedureSaveRecord) (s : Db)
      → IsPast r.procedure_id r.expected_revision s
      → (save_procedure_draft sha256 json r s).1 ≡ s
  unfolding save_procedure_draft save_tx
  save_past-unchanged r s past = elim (Result-cases (save_tx sha256 json r s)) [
    | inl ((v, t), e) ↦
        let (_, s1, h1, k1) = >>=-eq-ok _ _ s e in
        let (_, same) = fail_if-eq-ok _ _ s h1 in
        elim (once-eq-ok _ _ _ _ pure (save_new sha256 json r) s (rw same at k1)) [
          | inl (w, answered, p) ↦
              let (_, stay) = pure-eq-ok w s p in
              ap (λ (o : Result (MutationResult ProcedureSaved) × Db). o.1) (commit_of_ok _ s e)
              ∙ stay
          | inr p ↦ absurd (save_new-past r s past p)
        ]
    | inr (x, e) ↦
        ap (λ (o : Result (MutationResult ProcedureSaved) × Db). o.1) (commit_of_err _ s e)
  ]

  -- Once a draft was saved, no later save that expects the same revision of the same procedure changes
  -- anything, whatever requests came in between: the save was a new one, and every procedure id has
  -- one row.
  pub save_procedure_draft-once :
      (r q : ProcedureSaveRecord) (s : Db) {v : MutationResult ProcedureSaved} {t : Db}
      (between : List Request)
      → save_procedure_draft sha256 json r s ≡ (ok v, t)
      → find (same_receipt "save_procedure_draft" r.operation_id) s.receipts ≡ none
      → IsKeyed s.procedures
      → q.procedure_id ≡ r.procedure_id
      → q.expected_revision ≡ r.expected_revision
      → let u = history sha256 json between t in (save_procedure_draft sha256 json q u).1 ≡ u
  unfolding save_procedure_draft
  save_procedure_draft-once r q s {t = t} between h fresh keyed id n =
      let past = save_tx-IsPast r s (commit-eq-ok (save_tx sha256 json r) s h) fresh keyed in
      save_past-unchanged q _ (
        rw (id, n)
          (IsPast-Versions r.procedure_id r.expected_revision t (history sha256 json between t)
            (procedure-Versions sha256 json between t) past))
