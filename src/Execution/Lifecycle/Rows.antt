-- ===== src/Execution/Lifecycle/Rows.antt =====
-- UPDATE and INSERT on a table of jobs keep the key and follow every row.
use tejun.Prelude.{
  Bool, true, false, ◌≡◌, ◌∙◌, sym, ap, List, [], ◌∷◌, ◌++◌, Memᴰ, inl, inr, Bool-cases,
  if◌then◌else◌, arith, subst, ◌==◌, eq_refl,
}
use tejun.Sql.Table.{
  update_where, update_where-Memᴰ, Memᴰ-update_where, append_one-Memᴰ, Memᴰ-append_left, exists,
  exists-false,
}
use tejun.Database.Rows.{Job}
use tejun.Execution.Statements.{has_job}
use tejun.Execution.Lifecycle.{Follows, Follows-same, IsUnique, AllFollowed}

module _ (p : Job → Bool) (f : Job → Job) where
  Follows-if : (j : Job) → (p j ≡ true → Follows j (f j)) → Follows j (if p j then f j else j)
  Follows-if j h = elim (Bool-cases (p j)) [ inl e ↦ rw e (h e) | inr e ↦ rw e (Follows-same j) ]

  module _ (jobs : List Job) (h : (j : Job) → Memᴰ j jobs → p j ≡ true → Follows j (f j)) where
    pub IsUnique-update_where : IsUnique jobs → IsUnique (update_where p f jobs)
    IsUnique-update_where unique j k mj mk e =
        let (i, mi, ei) = update_where-Memᴰ p f jobs mj in
        let (l, ml, el) = update_where-Memᴰ p f jobs mk in
        let fi = Follows-if i (h i mi) in
        let fl = Follows-if l (h l ml) in
        let same : i ≡ l = unique i l mi ml (
          sym fi.job_id
          ∙ ap (λ (x : Job). x.job_id) (sym ei)
          ∙ e
          ∙ ap (λ (x : Job). x.job_id) el
          ∙ fl.job_id) in
        ei ∙ ap (λ x. if p x then f x else x) same ∙ sym el

    pub AllFollowed-update_where : AllFollowed jobs (update_where p f jobs)
    AllFollowed-update_where j m =
        (if p j then f j else j, Memᴰ-update_where p f jobs m, Follows-if j (h j m))

-- An inserted row has an id that no other row has.
new_id :
    (j k : Job) (jobs : List Job)
    → exists (has_job j.job_id) jobs ≡ false
    → Memᴰ k jobs
    → ¬ (k.job_id ≡ j.job_id)
new_id j k jobs fresh m e = absurd (
    let q : has_job j.job_id k ≡ false = exists-false (has_job j.job_id) jobs fresh m in
    let r : (j.job_id == j.job_id) ≡ false = subst (λ x. (x == j.job_id) ≡ false) e q in
    ground (arith, eq_refl j.job_id))

pub IsUnique-append_one :
    (j : Job) (jobs : List Job)
    → exists (has_job j.job_id) jobs ≡ false
    → IsUnique jobs
    → IsUnique (jobs ++ j ∷ [])
IsUnique-append_one j jobs fresh unique a b ma mb e = elim (append_one-Memᴰ j jobs ma) [
  | inl ka ↦ elim (append_one-Memᴰ j jobs mb) [
    | inl kb ↦ unique a b ka kb e
    | inr eb ↦ absurd (new_id j a jobs fresh ka (e ∙ ap (λ (x : Job). x.job_id) eb))
  ]
  | inr ea ↦ elim (append_one-Memᴰ j jobs mb) [
    | inl kb ↦ absurd (new_id j b jobs fresh kb (sym e ∙ ap (λ (x : Job). x.job_id) ea))
    | inr eb ↦ ea ∙ sym eb
  ]
]

pub AllFollowed-append_one : (j : Job) (jobs : List Job) → AllFollowed jobs (jobs ++ j ∷ [])
AllFollowed-append_one j jobs k m = (k, Memᴰ-append_left jobs (j ∷ []) m, Follows-same k)
