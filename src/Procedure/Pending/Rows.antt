-- ===== src/Procedure/Pending/Rows.antt =====
-- The rows of procedure_revision_jobs: their key, and how many of them are pending.
use tejun.Prelude.{
  ◌≡◌, refl, ◌∙◌, sym, ap, String, Bool, true, false, List, [], ◌∷◌, ◌++◌, Memᴰ, arith, ◌==◌, ◌||◌,
  if◌then◌else◌, eq_iff, inl, inr,
}
use tejun.Sql.Table.{
  update_where, update_where-Memᴰ, exists, exists-false, count_where, append_one-Memᴰ,
}
use tejun.Sql.Table.Keys.{IsKeyed, IsKeyed-update_where, IsKeyed-append_one}
use tejun.Database.Rows.{RevisionJob}
use tejun.Procedure.Statements.{is_pending, pending_for}

-- Each job id has one row, and two pending revisions of one procedure have one id.
pub record IsOrderly (rows : List RevisionJob) : Type 0 where
  pub keyed : IsKeyed (λ (j : RevisionJob). j.job_id) rows
  pub alone :
      (j k : RevisionJob)
      → Memᴰ j rows
      → Memᴰ k rows
      → j.procedure_id ≡ k.procedure_id
      → is_pending j.state ≡ true
      → is_pending k.state ≡ true
      → j.job_id ≡ k.job_id

-- The same job after an UPDATE, which is pending only if it was.
pub record Follows (j k : RevisionJob) : Type 0 where
  pub job_id : k.job_id ≡ j.job_id
  pub procedure_id : k.procedure_id ≡ j.procedure_id
  pub pending : is_pending k.state ≡ true → is_pending j.state ≡ true

Follows-if :
    (b : Bool) (j k : RevisionJob) → (b ≡ true → Follows j k) → Follows j (if b then k else j)
Follows-if true j k h = h refl
Follows-if false j k h = record { job_id = refl; procedure_id = refl; pending = λ e. e }

module _ (p : RevisionJob → Bool) (f : RevisionJob → RevisionJob) (rows : List RevisionJob) where
  followed :
      ((j : RevisionJob) → Memᴰ j rows → p j ≡ true → Follows j (f j))
      → (k : RevisionJob) → Memᴰ k (update_where p f rows)
      → (j : RevisionJob) × Memᴰ j rows × Follows j k
  followed h k m =
      let (j, mj, e) = update_where-Memᴰ p f rows m in
      (j, mj, rw e (Follows-if (p j) j (f j) (h j mj)))

  pub IsOrderly-update_where :
      ((j : RevisionJob) → Memᴰ j rows → p j ≡ true → Follows j (f j))
      → IsOrderly rows
      → IsOrderly (update_where p f rows)
  IsOrderly-update_where h o = record {
    keyed =
        IsKeyed-update_where (λ (j : RevisionJob). j.job_id) p f rows
          (λ j m hit. (h j m hit).job_id) o.keyed;
    alone = λ k l mk ml same pk pl.
        let (i, mi, fi) = followed h k mk in
        let (j, mj, fj) = followed h l ml in
        fi.job_id
        ∙ o.alone i j mi mj (sym fi.procedure_id ∙ same ∙ fj.procedure_id) (fi.pending pk)
            (fj.pending pl)
        ∙ sym fj.job_id;
  }

no_pending :
    (id : String) (rows : List RevisionJob) (j : RevisionJob)
    → count_where (pending_for id) rows ≡ 0
    → Memᴰ j rows
    → pending_for id j ≡ false
unfolding count_where
no_pending id [] j h m = elim m [ ]
no_pending id (k ∷ rows) j h (Memᴰ.head e) = rw e (ground arith)
no_pending id (k ∷ rows) j h (Memᴰ.tail m) = no_pending id rows j (ground arith) m

no_rival :
    (id : String) (rows : List RevisionJob) (j : RevisionJob)
    → count_where (pending_for id) rows ≡ 0
    → Memᴰ j rows
    → j.procedure_id ≡ id
    → ¬ (is_pending j.state ≡ true)
no_rival id rows j none_pending m same pending =
    let miss = no_pending id rows j none_pending m in
    let hit = (eq_iff j.procedure_id id).1 same in cc

-- A new revision of a procedure of which none is pending.
pub IsOrderly-append_one :
    (r : RevisionJob) (rows : List RevisionJob)
    → exists (λ (k : RevisionJob). k.job_id == r.job_id || k.turn_id == r.turn_id) rows ≡ false
    → count_where (pending_for r.procedure_id) rows ≡ 0
    → IsOrderly rows
    → IsOrderly (rows ++ r ∷ [])
IsOrderly-append_one r rows fresh none_pending o = record {
  keyed =
      IsKeyed-append_one (λ (j : RevisionJob). j.job_id) r rows
        (λ j m same.
          let miss =
            exists-false (λ (k : RevisionJob). k.job_id == r.job_id || k.turn_id == r.turn_id) rows
              fresh m in
          let hit = (eq_iff j.job_id r.job_id).1 same in absurd (ground arith))
        o.keyed;
  alone = λ j k mj mk same pj pk. elim (append_one-Memᴰ r rows mj) [
    | inl old ↦ elim (append_one-Memᴰ r rows mk) [
      | inl other ↦ o.alone j k old other same pj pk
      | inr new ↦ absurd (
          no_rival r.procedure_id rows j none_pending old
            (same ∙ ap (λ (i : RevisionJob). i.procedure_id) new) pj)
    ]
    | inr new ↦ elim (append_one-Memᴰ r rows mk) [
      | inl other ↦ absurd (
          no_rival r.procedure_id rows k none_pending other
            (sym same ∙ ap (λ (i : RevisionJob). i.procedure_id) new) pk)
      | inr also ↦ ap (λ (i : RevisionJob). i.job_id) (new ∙ sym also)
    ]
  ];
}
