-- ===== src/Project/Stuck.antt =====
-- DeleteProject (internal/adapter/sqlite/project.go) and the rows of execution_runs,
-- execution_agent_jobs, execution_turns and execution_permissions.
use tejun.Prelude.{
  ◌≡◌, refl, ◌∙◌, sym, ap, ℕ, String, Bool, true, none, List, Memᴰ, arith, ◌==◌, ◌&&◌, inl, inr,
  subst, eq_iff,
}
use tejun.Shared.{Error}
use tejun.Sql.Tx.{ok, err, pure}
use tejun.Sql.Keeps.{IsPreorder, Keeps, Keeps-modify, >>=-eq-ok, keeps_rules, Result-cases}
use tejun.Sql.Commit.{gets-eq-ok, fail_if-eq-ok, require-eq-ok, attempt-eq-ok, commit_of_err}
use tejun.Sql.Table.{find, exists-true}
use tejun.Database.{Db}
use tejun.Database.Rows.{Execution}
use tejun.Database.Ledger.{MutationResult, DeletedProject}
use tejun.Mutation.{same_receipt}
use tejun.Mutation.Receipts.{once-eq-ok}
use tejun.Procedure.Versions.Stale.{unanswered}
use tejun.Project.Statements.{delete_unreferenced, delete_rows}
use tejun.Project.Links.{
  has_history, refers_to_execution, delete_procedure_links, delete_evidence, delete_executions,
}
use tejun.Project.Delete.{
  ProjectDeleteRecord, as_deleted_project, refuse_active, delete_all, delete_new, delete_tx,
  delete_project,
}

-- The executions and their history are as they were.
record Unmoved (s t : Db) : Type 0 where
  pub executions : t.executions ≡ s.executions
  pub runs : t.runs ≡ s.runs
  pub jobs : t.jobs ≡ s.jobs
  pub turns : t.turns ≡ s.turns
  pub permissions : t.permissions ≡ s.permissions

Unmoved-order : IsPreorder Unmoved
Unmoved-order = record {
  same =
      λ s. record { executions = refl; runs = refl; jobs = refl; turns = refl; permissions = refl };
  joined = λ s t u k l. record {
    executions = l.executions ∙ k.executions;
    runs = l.runs ∙ k.runs;
    jobs = l.jobs ∙ k.jobs;
    turns = l.turns ∙ k.turns;
    permissions = l.permissions ∙ k.permissions;
  };
}

Unmoved-delete_rows :
    {A : Type 0} (table : Db → List A) (put : List A → Db → Db) (p referenced : Db → A → Bool)
    → ((rows : List A) (s : Db) → Unmoved s (put rows s))
    → Keeps Unmoved (delete_rows table put p referenced)
unfolding delete_rows
Unmoved-delete_rows {A} table put p referenced h =
    search (
      keeps_rules,
      Unmoved-order,
      λ (rows : List A). Keeps-modify {R = Unmoved} (put rows) (h rows),
    )

Unmoved-delete_procedure_links : (id : String) → Keeps Unmoved (delete_procedure_links id)
unfolding delete_procedure_links
Unmoved-delete_procedure_links id =
    search (keeps_rules, Unmoved-order, Unmoved-delete_rows) depth 20

Unmoved-delete_evidence : (id : String) → Keeps Unmoved (delete_evidence id)
unfolding delete_evidence
Unmoved-delete_evidence id = search (keeps_rules, Unmoved-order, Unmoved-delete_rows) depth 20

refuse_active-eq-ok :
    (id : String) (s : Db) {a : Unit {0}} {t : Db} → refuse_active id s ≡ ok (a, t) → t ≡ s
unfolding refuse_active
refuse_active-eq-ok id s h =
    let (_, s1, h1, k1) = >>=-eq-ok _ _ s h in
    let (_, s2, h2, k2) = >>=-eq-ok _ _ s1 k1 in
    let (_, s3, h3, k3) = >>=-eq-ok _ _ s2 k2 in
    let (_, same1) = gets-eq-ok _ s h1 in
    let (_, same2) = fail_if-eq-ok _ _ s1 h2 in
    let (_, same3) = gets-eq-ok _ s2 h3 in
    let (_, same4) = fail_if-eq-ok _ _ s3 k3 in same4 ∙ same3 ∙ same2 ∙ same1

-- An execution with a history.
module _ (id : String) (e : Execution) (of_id : e.project_id ≡ id) where
  delete_executions-refused :
      (s : Db)
      → Memᴰ e s.executions
      → has_history e.execution_id s ≡ true
      → {a : Unit {0}} {t : Db} → ¬ (delete_executions id s ≡ ok (a, t))
  unfolding delete_executions delete_rows delete_unreferenced
  delete_executions-refused s m h k =
      let (rows, s1, h1, k1) = >>=-eq-ok _ _ s k in
      let (deleted, _) = attempt-eq-ok _ s h1 in
      let hit =
        exists-true (λ (x : Execution). x.project_id == id && refers_to_execution s x) s.executions
          m (let own = (eq_iff e.project_id id).1 of_id in ground arith) in
      absurd (ground arith)

  delete_all-refused :
      (revision : ℕ) (s : Db)
      → Memᴰ e s.executions
      → has_history e.execution_id s ≡ true
      → {a : Unit {0}} {t : Db} → ¬ (delete_all id revision s ≡ ok (a, t))
  unfolding delete_all
  delete_all-refused revision s m h k =
      let (_, s1, h1, k1) = >>=-eq-ok _ _ s k in
      let (_, s2, h2, k2) = >>=-eq-ok _ _ s1 k1 in
      let (_, s3, h3, k3) = >>=-eq-ok _ _ s2 k2 in
      let (_, s4, h4, k4) = >>=-eq-ok _ _ s3 k3 in
      let (_, same) = gets-eq-ok _ s h1 in
      let moved =
        Unmoved-order.joined s1 s2 s3 ((Unmoved-delete_procedure_links id).at s1 _ s2 h2)
          ((Unmoved-delete_evidence id).at s2 _ s3 h3) in
      let there : has_history e.execution_id s3 ≡ true =
        rw (moved.runs, moved.jobs, moved.turns, moved.permissions, same) h in
      delete_executions-refused s3
        (subst (λ rows. Memᴰ e rows) (sym (moved.executions ∙ ap (λ (d : Db). d.executions) same))
          m)
        there h4

delete_new-refused :
    (r : ProjectDeleteRecord) (e : Execution) (s : Db)
    → e.project_id ≡ r.project_id
    → Memᴰ e s.executions
    → has_history e.execution_id s ≡ true
    → {v : MutationResult DeletedProject} {t : Db} → ¬ (delete_new r s ≡ ok (v, t))
unfolding delete_new
delete_new-refused r e s of_id m h k =
    let (p, s1, h1, k1) = >>=-eq-ok _ _ s k in
    let (_, s2, h2, k2) = >>=-eq-ok _ _ s1 k1 in
    let (_, s3, h3, k3) = >>=-eq-ok _ _ s2 k2 in
    let (_, s4, h4, k4) = >>=-eq-ok _ _ s3 k3 in
    let (_, same1) = require-eq-ok _ _ s h1 in
    let (_, same2) = fail_if-eq-ok _ _ s1 h2 in
    let back : s3 ≡ s = refuse_active-eq-ok r.project_id s2 h3 ∙ same2 ∙ same1 in
    delete_all-refused r.project_id e of_id p.revision s3
      (subst (λ (d : Db). Memᴰ e d.executions) (sym back) m) (rw back h) h4

-- A project cannot be deleted once an execution of it has a run, a job, a turn or a permission
-- request: DeleteProject fails and changes nothing, unless its operation id was used before.
pub delete_project-refused :
    (r : ProjectDeleteRecord) (e : Execution) (s : Db)
    → e.project_id ≡ r.project_id
    → Memᴰ e s.executions
    → has_history e.execution_id s ≡ true
    → find (same_receipt "delete_project" r.operation_id) s.receipts ≡ none
    → (x : Error) × (delete_project r s ≡ (err x, s))
unfolding delete_project delete_tx
delete_project-refused r e s of_id m h fresh = elim (Result-cases (delete_tx r s)) [
  | inl ((v, t), done) ↦ absurd (elim (once-eq-ok _ _ _ _ pure (delete_new r) s done) [
    | inl (w, answered, p) ↦ unanswered as_deleted_project _ _ _ w s fresh answered
    | inr p ↦ delete_new-refused r e s of_id m h p
  ])
  | inr (x, failed) ↦ (x, commit_of_err _ s failed)
]
