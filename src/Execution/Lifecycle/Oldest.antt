-- ===== src/Execution/Lifecycle/Oldest.antt =====
-- The order in which the queue is served: ORDER BY accepted_at, job_id.
use tejun.Prelude.{
  String, Bool, true, false, Option, none, some, ◌≡◌, sym, subst, eq_iff, List, Memᴰ, ◌==◌, ◌&&◌,
  ◌||◌, arith, text_lt, text_lt_trans, text_lt_asym, text_lt_split, inl, inr, Bool-cases,
}
use tejun.Sql.Tx.{ok, found_or, pure}
use tejun.Sql.Keeps.{>>=-eq-ok}
use tejun.Sql.Commit.{commit-eq-ok, pure-eq-ok}
use tejun.Sql.Table.{select_where}
use tejun.Sql.Table.Order.{IsOrder, first_by-none, first_by-least, Memᴰ-select_where}
use tejun.Database.{Db}
use tejun.Database.Rows.{Job}
use tejun.Execution.Statements.{ClaimedExecutionJob, is_queued}
use tejun.Execution.Claim.{accepted_before, next_queued, claim_job, claim_tx, claim_execution_job}
use tejun.Execution.Lifecycle.History.{take_queued-eq-ok}
use tejun.Execution.Lifecycle.Claims.{claim_tx-eq-ok}

-- Two texts compared one after the other.
abbrev pair_lt : String → String → String → String → Bool
pair_lt a i b j = text_lt a b || (a == b && text_lt i j)

pair_lt_trans :
    (a i b j c k : String)
    → pair_lt a i c k ≡ false
    → pair_lt c k b j ≡ false
    → pair_lt a i b j ≡ false
pair_lt_trans a i b j c k first second =
    let ac : text_lt a c ≡ false = ground arith in
    let cb : text_lt c b ≡ false = ground arith in
    let ab = text_lt_trans a b c ac cb in
    elim (Bool-cases (a == b)) [
      | inl e ↦
          let ca : text_lt c a ≡ false = rw ((eq_iff a b).0 e) cb in
          let same = text_lt_split a c ac ca in
          let last : (c == b) ≡ true = subst (λ v. (v == b) ≡ true) ((eq_iff a c).0 same) e in
          let ik : text_lt i k ≡ false = ground arith in
          let kj : text_lt k j ≡ false = ground arith in
          let ij = text_lt_trans i j k ik kj in ground arith
      | inr e ↦ ground arith
    ]

pair_lt_asym : (a i b j : String) → pair_lt a i b j ≡ true → pair_lt b j a i ≡ false
pair_lt_asym a i b j h = elim (Bool-cases (text_lt a b)) [
  | inl ab ↦
      let ba = text_lt_asym a b ab in
      elim (Bool-cases (b == a)) [
        | inl e ↦ absurd (
            let x : text_lt a a ≡ true = subst (λ v. text_lt a v ≡ true) ((eq_iff b a).0 e) ab in
            let y = text_lt_asym a a x in cc)
        | inr e ↦ ground arith
      ]
  | inr ab ↦
      let e : (a == b) ≡ true = ground arith in
      let ij : text_lt i j ≡ true = ground arith in
      let ji = text_lt_asym i j ij in
      let ba : text_lt b a ≡ false =
        subst (λ v. text_lt v a ≡ false) ((eq_iff a b).0 e)
          (subst (λ v. text_lt a v ≡ false) (sym ((eq_iff a b).0 e)) ab) in
      ground arith
]

accepted_before-IsOrder : IsOrder accepted_before
accepted_before-IsOrder = record {
  asym = λ x y. pair_lt_asym x.accepted_at x.job_id y.accepted_at y.job_id;
  trans =
      λ x y z. pair_lt_trans x.accepted_at x.job_id y.accepted_at y.job_id z.accepted_at z.job_id;
}

abbrev queue : Db → List Job
queue s = select_where (λ (j : Job). is_queued j.state) s.jobs

-- The claimed job was queued, and no queued job comes before it in the order of the texts of
-- accepted_at and, for equal texts, of the ids.
pub claim_execution_job-oldest :
    (s : Db) {c : ClaimedExecutionJob} {t : Db} (k : Job)
    → claim_execution_job s ≡ (ok (some c), t)
    → Memᴰ k s.jobs
    → is_queued k.state ≡ true
    → (n : Job) × Memᴰ n s.jobs
      × (n.job_id ≡ c.job_id)
      × (is_queued n.state ≡ true)
      × (accepted_before k n ≡ false)
unfolding claim_execution_job
claim_execution_job-oldest s k h m queued =
    let (u, n, taken, mn, q, id, _, _) = claim_tx-eq-ok s (commit-eq-ok claim_tx s h) in
    let (next, _) = take_queued-eq-ok s taken in
    (
      n,
      mn,
      sym id,
      q,
      first_by-least accepted_before-IsOrder (queue s) (sym next)
          (Memᴰ-select_where (λ (j : Job). is_queued j.state) s.jobs m queued),
    )

claim_job-some : (n : Job) (s : Db) {t : Db} → ¬ (claim_job n s ≡ ok (none, t))
unfolding claim_job
claim_job-some n s h =
    let (found, s1, h1, k1) = >>=-eq-ok _ _ s h in
    let (targets, s2, h2, k2) = >>=-eq-ok _ _ s1 k1 in
    let (_, s3, h3, k3) = >>=-eq-ok _ _ s2 k2 in let (same, _) = pure-eq-ok _ s3 k3 in absurd (cc)

none_taken :
    (s u : Db) (next : Option Job) {t : Db}
    → next ≡ next_queued s
    → found_or next claim_job (pure none) u ≡ ok (none, t)
    → next_queued s ≡ none
unfolding found_or
none_taken s u none e h = sym e
none_taken s u (some n) e h = absurd (claim_job-some n u h)

-- A claim that succeeds with no job found none that was queued.
pub claim_execution_job-idle :
    (s : Db) {t : Db} (k : Job)
    → claim_execution_job s ≡ (ok none, t)
    → Memᴰ k s.jobs
    → is_queued k.state ≡ false
unfolding claim_execution_job claim_tx
claim_execution_job-idle s k h m =
    let (next, u, h1, k1) = >>=-eq-ok _ _ s (commit-eq-ok claim_tx s h) in
    let empty = none_taken s u next (take_queued-eq-ok s h1).0 k1 in
    elim (Bool-cases (is_queued k.state)) [
      | inl q ↦ absurd (
          first_by-none accepted_before-IsOrder (queue s) {z = k} empty
            (Memᴰ-select_where (λ (j : Job). is_queued j.state) s.jobs m q))
      | inr q ↦ q
    ]
