-- ===== src/Execution/Lifecycle/Claims.antt =====
-- A job leaves the queue once.
use tejun.Prelude.{
  String, true, false, Option, none, some, ◌≡◌, refl, ◌∙◌, sym, ap, List, Memᴰ, eq_refl,
}
use tejun.Sql.Tx.{ok, found_or, pure}
use tejun.Sql.Keeps.{>>=-eq-ok}
use tejun.Sql.Commit.{commit-eq-ok, pure-eq-ok}
use tejun.Sql.Table.{update_where, Memᴰ-update_where}
use tejun.Database.{Db}
use tejun.Database.Rows.{JobState, Job}
use tejun.Execution.Statements.{ClaimedExecutionJob, is_queued}
use tejun.Execution.Claim.{is_next, take_queued, claim_job, claim_tx, claim_execution_job}
use tejun.Execution.Cancel.{CancelAgentOperationInput}
use tejun.Execution.Operations.{Request, history}
use tejun.Execution.Operations.Kept.{Keeps-claim_job}
use tejun.Execution.Lifecycle.{can_move, Moves, IsUnique}
use tejun.Execution.Lifecycle.History.{
  Lifecycle-writes, next_queued-Memᴰ, take_queued-eq-ok, history-Lifecycle,
}

-- No move leads to the queue.
never_queued : (a b : JobState) → can_move a b ≡ true → is_queued b ≡ false
never_queued JobState.queued JobState.queued h = absurd (cc)
never_queued JobState.running JobState.queued h = absurd (cc)
never_queued JobState.cancellation_requested JobState.queued h = absurd (cc)
never_queued JobState.completed JobState.queued h = absurd (cc)
never_queued JobState.failed JobState.queued h = absurd (cc)
never_queued JobState.cancelled JobState.queued h = absurd (cc)
never_queued JobState.interrupted JobState.queued h = absurd (cc)
never_queued a JobState.running h = refl
never_queued a JobState.cancellation_requested h = refl
never_queued a JobState.completed h = refl
never_queued a JobState.failed h = refl
never_queued a JobState.cancelled h = refl
never_queued a JobState.interrupted h = refl

Moves-unqueued : {a b : JobState} → Moves a b → is_queued a ≡ false → is_queued b ≡ false
Moves-unqueued (Moves.stay a) h = h
Moves-unqueued (Moves.move a b c e m) h = Moves-unqueued m (never_queued a b e)

-- The row that is taken is running afterwards.
taken_row :
    (n : Job) (jobs : List Job)
    → Memᴰ n jobs
    → Memᴰ
        (record n { state = JobState.running })
        (update_where (is_next (some n)) (λ k. record k { state = JobState.running }) jobs)
taken_row n jobs m =
    rw (eq_refl n.job_id) at
      (Memᴰ-update_where (is_next (some n)) (λ k. record k { state = JobState.running }) jobs m)

abbrev claimed_id : Option ClaimedExecutionJob → String
claimed_id none = ""
claimed_id (some c) = c.job_id

claim_job-id :
    (n : Job) (s : Db) {c : ClaimedExecutionJob} {t : Db}
    → claim_job n s ≡ ok (some c, t)
    → c.job_id ≡ n.job_id
unfolding claim_job
claim_job-id n s h =
    let (found, s1, h1, k1) = >>=-eq-ok _ _ s h in
    let (targets, s2, h2, k2) = >>=-eq-ok _ _ s1 k1 in
    let (_, s3, h3, k3) = >>=-eq-ok _ _ s2 k2 in
    let (same, _) = pure-eq-ok _ s3 k3 in ap claimed_id same

-- The job that is claimed was queued, and is running before the rest of the transaction.
claimed_from :
    (s u : Db) (next : Option Job) {c : ClaimedExecutionJob} {t : Db}
    → take_queued s ≡ ok (next, u)
    → found_or next claim_job (pure none) u ≡ ok (some c, t)
    → (n : Job) × (take_queued s ≡ ok (some n, u))
      × Memᴰ n s.jobs
      × (is_queued n.state ≡ true)
      × (c.job_id ≡ n.job_id)
      × Memᴰ (record n { state = JobState.running }) u.jobs
      × (claim_job n u ≡ ok (some c, t))
unfolding found_or
claimed_from s u none h k = absurd (let (p, _) = pure-eq-ok _ u k in cc)
claimed_from s u (some n) h k =
    let (taken, after) = take_queued-eq-ok s h in
    let (m, queued) = next_queued-Memᴰ s (sym taken) in
    let row = taken_row n s.jobs m in
    (n, h, m, queued, claim_job-id n u k, rw (after, ← taken) row, k)

pub claim_tx-eq-ok :
    (s : Db) {c : ClaimedExecutionJob} {t : Db}
    → claim_tx s ≡ ok (some c, t)
    → (u : Db) × (n : Job) × (take_queued s ≡ ok (some n, u))
      × Memᴰ n s.jobs
      × (is_queued n.state ≡ true)
      × (c.job_id ≡ n.job_id)
      × Memᴰ (record n { state = JobState.running }) u.jobs
      × (claim_job n u ≡ ok (some c, t))
unfolding claim_tx
claim_tx-eq-ok s h =
    let (next, u, h1, k1) = >>=-eq-ok _ _ s h in
    let (n, taken, m, q, id, row, rest) = claimed_from s u next h1 k1 in
    (u, n, taken, m, q, id, row, rest)

-- After a claim, the job is in the table and out of the queue.
claim_tx-leaves :
    (s : Db) {c : ClaimedExecutionJob} {t : Db}
    → claim_tx s ≡ ok (some c, t)
    → IsUnique s.jobs
    → IsUnique t.jobs
      × (k : Job) × Memᴰ k t.jobs
      × (k.job_id ≡ c.job_id)
      × (is_queued k.state ≡ false)
claim_tx-leaves s h u =
    let (s1, n, taken, m, q, id, row, rest) = claim_tx-eq-ok s h in
    let (u1, _) = (Lifecycle-writes.take_queued.at s (some n) s1 taken).at u in
    let (ut, followed) = ((Keeps-claim_job Lifecycle-writes n).at s1 _ _ rest).at u1 in
    let (k, mk, f) = followed _ row in (ut, k, mk, f.job_id ∙ sym id, Moves-unqueued f.moves refl)

-- A job that was claimed is never claimed again, whatever requests came in between, where every job
-- id has one row.
pub claim_execution_job-once :
    (sha256 : String → String) (digest : CancelAgentOperationInput → String) (s : Db)
    {c d : ClaimedExecutionJob} {t v : Db} (between : List Request)
    → IsUnique s.jobs
    → claim_execution_job s ≡ (ok (some c), t)
    → claim_execution_job (history sha256 digest between t) ≡ (ok (some d), v)
    → ¬ (d.job_id ≡ c.job_id)
unfolding claim_execution_job
claim_execution_job-once sha256 digest s {t = t} between unique first second same =
    let (ut, k, mk, idk, left) = claim_tx-leaves s (commit-eq-ok claim_tx s first) unique in
    let (uu, followed) = history-Lifecycle sha256 digest between t ut in
    let (l, ml, f) = followed k mk in
    let u = history sha256 digest between t in
    let (_, n, _, mn, queued, idn, _, _) = claim_tx-eq-ok u (commit-eq-ok claim_tx u second) in
    let one : l ≡ n = uu l n ml mn (f.job_id ∙ idk ∙ sym same ∙ idn) in
    absurd (
      let q = Moves-unqueued f.moves left in let r : is_queued l.state ≡ true = rw one queued in cc)
