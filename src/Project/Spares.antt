-- ===== src/Project/Spares.antt =====
-- DeleteProject (internal/adapter/sqlite/project.go) and the rows of other projects.
use tejun.Prelude.{◌≡◌, refl, ◌∙◌, ℕ, String, Bool, List, [], ◌∷◌, arith, ◌==◌, not}
use tejun.Sql.Tx.{modify}
use tejun.Sql.Keeps.{IsPreorder, Keeps, Keeps-modify, commit_at, >>=-eq-ok, keeps_rules}
use tejun.Sql.Commit.{attempt-eq-ok, modify-eq-ok}
use tejun.Sql.Table.{select_where, delete_where}
use tejun.Database.{Db}
use tejun.Database.Rows.{Session, Execution, Procedure}
use tejun.Database.PlanRows.{Preparation, CheckPlan, CheckItem, BackgroundJob, AcpSession, Export}
use tejun.Database.Ledger.{MutationResult, OutboxEvent, Stored}
use tejun.Mutation.{existing_result, next_sequence, insert_outbox, insert_receipt, save_mutation}
use tejun.Project.Statements.{delete_unreferenced, delete_rows, finish_project_mutation}
use tejun.Project.Links.{
  delete_procedure_links, delete_evidence, delete_executions, delete_sessions, delete_plans,
}
use tejun.Project.Delete.{
  ProjectDeleteRecord, release_blob, delete_project_row, refuse_active, delete_all, delete_new,
  delete_tx, delete_project,
}

-- The rows that a DELETE does not select stay, in their order.
spared :
    {A : Type 0} (p : A → Bool) (xs : List A)
    → select_where (λ x. not (p x)) (delete_where p xs) ≡ select_where (λ x. not (p x)) xs
unfolding select_where delete_where
spared p [] = refl
spared p (x ∷ xs) = ground (arith, spared p xs)

-- The rows of other projects than `id` are as they were.
pub record Spares (id : String) (s t : Db) : Type 0 where
  pub executions :
      select_where (λ (e : Execution). not (e.project_id == id)) t.executions
      ≡ select_where (λ (e : Execution). not (e.project_id == id)) s.executions
  pub sessions :
      select_where (λ (x : Session). not (x.project_id == id)) t.sessions
      ≡ select_where (λ (x : Session). not (x.project_id == id)) s.sessions
  pub procedures :
      select_where (λ (q : Procedure). not (q.project_id == id)) t.procedures
      ≡ select_where (λ (q : Procedure). not (q.project_id == id)) s.procedures
  pub preparations :
      select_where (λ (p : Preparation). not (p.project_id == id)) t.plans.preparations
      ≡ select_where (λ (p : Preparation). not (p.project_id == id)) s.plans.preparations
  pub check_plans :
      select_where (λ (p : CheckPlan). not (p.project_id == id)) t.plans.check_plans
      ≡ select_where (λ (p : CheckPlan). not (p.project_id == id)) s.plans.check_plans
  pub check_items :
      select_where (λ (i : CheckItem). not (i.project_id == id)) t.plans.check_items
      ≡ select_where (λ (i : CheckItem). not (i.project_id == id)) s.plans.check_items
  pub background_jobs :
      select_where (λ (j : BackgroundJob). not (j.project_id == id)) t.plans.background_jobs
      ≡ select_where (λ (j : BackgroundJob). not (j.project_id == id)) s.plans.background_jobs
  pub acp_sessions :
      select_where (λ (x : AcpSession). not (x.project_id == id)) t.plans.acp_sessions
      ≡ select_where (λ (x : AcpSession). not (x.project_id == id)) s.plans.acp_sessions
  pub exports :
      select_where (λ (x : Export). not (x.project_id == id)) t.plans.exports
      ≡ select_where (λ (x : Export). not (x.project_id == id)) s.plans.exports

module _ (id : String) where
  Spares-order : IsPreorder (Spares id)
  Spares-order = record {
    same = λ s. record {
      executions = refl;
      sessions = refl;
      procedures = refl;
      preparations = refl;
      check_plans = refl;
      check_items = refl;
      background_jobs = refl;
      acp_sessions = refl;
      exports = refl;
    };
    joined = λ s t u k l. record {
      executions = l.executions ∙ k.executions;
      sessions = l.sessions ∙ k.sessions;
      procedures = l.procedures ∙ k.procedures;
      preparations = l.preparations ∙ k.preparations;
      check_plans = l.check_plans ∙ k.check_plans;
      check_items = l.check_items ∙ k.check_items;
      background_jobs = l.background_jobs ∙ k.background_jobs;
      acp_sessions = l.acp_sessions ∙ k.acp_sessions;
      exports = l.exports ∙ k.exports;
    };
  }

  Spares-modify : (f : Db → Db) → ((s : Db) → Spares id s (f s)) → Keeps (Spares id) (modify f)
  Spares-modify f h = Keeps-modify f h

  Spares-delete_rows :
      {A : Type 0} (table : Db → List A) (put : List A → Db → Db) (p referenced : Db → A → Bool)
      → ((s : Db) → Spares id s (put (delete_where (p s) (table s)) s))
      → Keeps (Spares id) (delete_rows table put p referenced)
  unfolding delete_rows delete_unreferenced
  Spares-delete_rows table put p referenced h = record {
    at = λ s a t k.
        let (rows, s1, h1, k1) = >>=-eq-ok _ _ s k in
        let (deleted, same) = attempt-eq-ok _ s h1 in
        let left : rows ≡ delete_where (p s) (table s) = ground arith in
        let now : t ≡ put rows s1 = modify-eq-ok _ s1 k1 in rw (now, left, same) (h s);
  }

  Spares-delete_procedure_links : Keeps (Spares id) (delete_procedure_links id)
  unfolding delete_procedure_links
  Spares-delete_procedure_links = search (keeps_rules, Spares-order, Spares-delete_rows) depth 20

  Spares-delete_executions : Keeps (Spares id) (delete_executions id)
  unfolding delete_executions
  Spares-delete_executions = search (keeps_rules, Spares-delete_rows, spared) depth 20

  Spares-delete_evidence : Keeps (Spares id) (delete_evidence id)
  unfolding delete_evidence
  Spares-delete_evidence = search (keeps_rules, Spares-order, Spares-delete_rows) depth 20

  Spares-delete_sessions : Keeps (Spares id) (delete_sessions id)
  unfolding delete_sessions
  Spares-delete_sessions = search (keeps_rules, Spares-order, Spares-delete_rows, spared) depth 20

  Spares-delete_plans : Keeps (Spares id) (delete_plans id)
  unfolding delete_plans
  Spares-delete_plans = search (keeps_rules, Spares-order, Spares-delete_rows, spared) depth 20

  Spares-release_blob : (hash : String) → Keeps (Spares id) (release_blob hash)
  unfolding release_blob
  Spares-release_blob hash =
      search (keeps_rules, Spares-order, Spares-modify, Spares-delete_rows) depth 20

  Spares-delete_project_row : (n : ℕ) → Keeps (Spares id) (delete_project_row id n)
  unfolding delete_project_row
  Spares-delete_project_row n =
      search (keeps_rules, Spares-order, Spares-modify, Spares-delete_rows) depth 20

  Spares-delete_all : (n : ℕ) → Keeps (Spares id) (delete_all id n)
  unfolding delete_all
  Spares-delete_all n =
      search
        (
          keeps_rules, Spares-order, Spares-delete_procedure_links, Spares-delete_evidence,
          Spares-delete_executions, Spares-delete_sessions, Spares-delete_plans,
          Spares-release_blob, Spares-delete_project_row,
        )
        depth 20

  Spares-refuse_active : Keeps (Spares id) (refuse_active id)
  unfolding refuse_active
  Spares-refuse_active = search (keeps_rules, Spares-order) depth 20

  Spares-next_sequence : Keeps (Spares id) next_sequence
  unfolding next_sequence
  Spares-next_sequence = search (keeps_rules, Spares-order, Spares-modify)

  Spares-save_mutation :
      {T : Type 0} (encode : MutationResult T → Stored) (scope operation_id hash : String)
      (result : MutationResult T) (event : OutboxEvent) (sequence : ℕ)
      → Keeps (Spares id) (save_mutation encode scope operation_id hash result event sequence)
  unfolding save_mutation insert_outbox insert_receipt
  Spares-save_mutation encode scope operation_id hash result event sequence =
      search (keeps_rules, Spares-order, Spares-modify) depth 20

  Spares-finish :
      {T : Type 0} (encode : MutationResult T → Stored) (scope operation_id hash : String)
      (result : MutationResult T) (event : OutboxEvent)
      → Keeps (Spares id) (finish_project_mutation encode scope operation_id hash result event)
  unfolding finish_project_mutation
  Spares-finish encode scope operation_id hash result event =
      search (keeps_rules, Spares-order, Spares-next_sequence, Spares-save_mutation)

Spares-delete_new : (r : ProjectDeleteRecord) → Keeps (Spares r.project_id) (delete_new r)
unfolding delete_new
Spares-delete_new r =
    search (keeps_rules, Spares-order, Spares-refuse_active, Spares-delete_all, Spares-finish) depth
      20

Spares-delete_tx : (r : ProjectDeleteRecord) → Keeps (Spares r.project_id) (delete_tx r)
unfolding delete_tx existing_result
Spares-delete_tx r = search (keeps_rules, Spares-order, Spares-delete_new) depth 20

-- Deleting a project, whatever it answers, leaves the executions, sessions, procedures, preparations,
-- plans, check items, jobs, agent sessions and exports of every other project as they are.
pub delete_project-Spares :
    (r : ProjectDeleteRecord) (s : Db) → Spares r.project_id s (delete_project r s).1
unfolding delete_project
delete_project-Spares r s = commit_at (Spares-order r.project_id) _ (Spares-delete_tx r) s
