-- ===== src/Execution/Lifecycle/Unblocked.antt =====
-- A start-up unblocks the executions of the jobs that it ends.
use tejun.Prelude.{
  ◌+◌, String, Bool, true, false, Option, none, some, List, [], ◌∷◌, ◌≡◌, refl, ◌∙◌, sym, ap, subst,
  ◌==◌, ◌&&◌, arith, Memᴰ, eq_refl, eq_iff,
}
use tejun.Sql.Tx.{ok, gets, for_each}
use tejun.Sql.Keeps.{Keeps, ok_state, Keeps-bind, Keeps-for_each, >>=-eq-ok, keeps_rules}
use tejun.Sql.Commit.{commit-eq-ok, modify-eq-ok}
use tejun.Sql.Table.{update_where, exists, exists-true}
use tejun.Database.{Db}
use tejun.Database.Time.{Time}
use tejun.Database.Rows.{Execution, Job}
use tejun.Execution.Statements.{is_claimed, column_is}
use tejun.Execution.Recover.{
  same_run, announce, recover_jobs, recover_tx, fail_interrupted_execution_jobs,
}
use tejun.Execution.Lifecycle.Released.{
  StaysFree, StaysFree-order, StaysFree-aside, StaysFree-next_sequence, StaysFree-insert_outbox,
}

-- An execution whose active run is the one that is named.
abbrev pub runs : String → Execution → Bool
runs run_id e = column_is e.active_run_id run_id

module _ (run_id : String) where
  StaysFree-announce : (at : Time) (id : String) → Keeps (StaysFree (runs run_id)) (announce at id)
  unfolding announce
  StaysFree-announce at id = search (
    keeps_rules,
    StaysFree-order (runs run_id),
    StaysFree-next_sequence (runs run_id),
    StaysFree-insert_outbox (runs run_id),
  )

  StaysFree-recover_jobs : (at : Time) → Keeps (StaysFree (runs run_id)) (recover_jobs at)
  unfolding recover_jobs
  StaysFree-recover_jobs at = StaysFree-aside (runs run_id) _ (λ s. refl)

  -- The UPDATE of the executions leaves none that the run of a claimed job blocks.
  unblocked_none :
      (test : Execution → Bool) (rows : List Execution)
      → ((e : Execution) → runs run_id e ≡ true → test e ≡ true)
      → exists (runs run_id) (
          update_where test
            (λ e. record e { active_run_id = none; revision = e.revision + 1 })
            rows)
        ≡ false
  unfolding exists update_where
  unblocked_none test [] h = refl
  unblocked_none test (e ∷ rows) h = ground (arith, h e, unblocked_none test rows h)

gets-jobs :
    {A : Type 0} (f : Db → A) (s : Db) {a : A} {t : Db} → gets f s ≡ ok (a, t) → t.jobs ≡ s.jobs
unfolding gets
gets-jobs f s h = sym (ap (λ (d : Db). d.jobs) (ok_state s h))

gets_value : {A : Type 0} (f : Db → A) (s : Db) {a : A} {t : Db} → gets f s ≡ ok (a, t) → a ≡ f s
unfolding gets
gets_value f s h = ground arith

column_is-same_run :
    (o : Option String) (id : String) → column_is o id ≡ true → same_run o (some id) ≡ true
column_is-same_run none id h = absurd (ground arith)
column_is-same_run (some a) id h = subst (λ x. (x == a) ≡ true) ((eq_iff a id).0 h) (eq_refl a)

claimed_job_blocks :
    (run_id : String) (jobs : List Job) (j : Job) (e : Execution)
    → Memᴰ j jobs
    → is_claimed j.state ≡ true
    → j.run_id ≡ some run_id
    → runs run_id e ≡ true
    → exists (λ (k : Job). is_claimed k.state && same_run e.active_run_id k.run_id) jobs ≡ true
claimed_job_blocks run_id jobs j e m claimed run active =
    exists-true (λ (k : Job). is_claimed k.state && same_run e.active_run_id k.run_id) jobs m
      (rw (claimed, run) (column_is-same_run e.active_run_id run_id active))

-- After a start-up that recovered the jobs, the run of a job that was running or asked to stop before
-- it is the active run of no execution.
pub fail_interrupted_execution_jobs-unblocks :
    (at : Time) (s : Db) {a : Unit {0}} {t : Db} (j : Job) (run_id : String)
    → fail_interrupted_execution_jobs at s ≡ (ok a, t)
    → Memᴰ j s.jobs
    → is_claimed j.state ≡ true
    → j.run_id ≡ some run_id
    → exists (runs run_id) t.executions ≡ false
unfolding fail_interrupted_execution_jobs recover_tx
fail_interrupted_execution_jobs-unblocks at s {t = t} j run_id h m claimed run =
    let (ids, s1, h1, k1) = >>=-eq-ok _ _ s (commit-eq-ok (recover_tx at) s h) in
    let (_, s2, h2, k2) = >>=-eq-ok _ _ s1 k1 in
    let (db, s3, h3, k3) = >>=-eq-ok _ _ s2 k2 in
    let (_, s4, h4, k4) = >>=-eq-ok _ _ s3 k3 in
    let (_, s5, h5, k5) = >>=-eq-ok _ _ s4 k4 in
    let e1 : s1.jobs ≡ s.jobs = gets-jobs _ s h1 in
    let e2 : s2.jobs ≡ s1.jobs = ap (λ (d : Db). d.jobs) (modify-eq-ok _ s1 h2) in
    let e3 : db.jobs ≡ s2.jobs = ap (λ (d : Db). d.jobs) (gets_value (λ (d : Db). d) s2 h3) in
    let m3 : Memᴰ j db.jobs = subst (λ x. Memᴰ j x) (sym (e3 ∙ e2 ∙ e1)) m in
    let free : exists (runs run_id) s5.executions ≡ false = rw (modify-eq-ok _ s4 h5) (
      unblocked_none run_id _ s4.executions
        (λ e active. claimed_job_blocks run_id db.jobs j e m3 claimed run active)) in
    let kept =
      Keeps-bind (StaysFree-order (runs run_id)) (recover_jobs at) (λ _. for_each ids (announce at))
        (StaysFree-recover_jobs run_id at)
        (λ _.
          Keeps-for_each (StaysFree-order (runs run_id)) ids (announce at)
            (StaysFree-announce run_id at)) in
    (kept.at s5 _ t k5).at free
