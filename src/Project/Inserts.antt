-- ===== src/Project/Inserts.antt =====
-- The INSERT statements of CreateProject, DuplicateProject and CreateRevision (internal/adapter/sqlite/
-- project.go): what each of them adds to its table.
use mathlib.Core.List.{append-nil, append_assoc}
use tejun.Prelude.{◌≡◌, refl, ◌∙◌, sym, ap, ℕ, String, Bool, List, [], ◌∷◌, ◌++◌, arith, inl, inr}
use tejun.Sql.Tx.{ok, modify, ◌>>=◌}
use tejun.Sql.Keeps.{IsPreorder, Keeps, Keeps-modify, >>=-eq-ok, keeps_rules, Result-cases}
use tejun.Sql.Commit.{attempt-eq-ok, modify-eq-ok}
use tejun.Sql.Table.{insert_row, insert_row-eq-ok}
use tejun.Database.{Db}
use tejun.Database.Rows.{Project}
use tejun.Database.PlanRows.{Preparation, CheckPlan, CheckItem}
use tejun.Database.Ledger.{MutationResult, OutboxEvent, Stored}
use tejun.Mutation.{next_sequence, insert_outbox, insert_receipt, save_mutation}
use tejun.Project.Statements.{finish_project_mutation, insert_rows}
use tejun.Project.Create.{
  insert_project, insert_preparations, insert_check_plans, insert_check_items, same_preparation,
  same_plan, same_item,
}

pub insert_rows-eq-ok :
    {A : Type 0} (same : A → A → Bool) (xs table : List A) {grown : List A}
    → insert_rows same xs table ≡ ok grown
    → grown ≡ table ++ xs
unfolding insert_rows
insert_rows-eq-ok same [] table h = let e : _ ≡ table = ground arith in e ∙ sym (append-nil table)
insert_rows-eq-ok same (x ∷ xs) table {grown} h =
    elim (Result-cases (insert_row (same x) x table)) [
      | inl (longer, e) ↦
          insert_rows-eq-ok same xs longer (ground arith)
          ∙ ap (λ rows. rows ++ xs) (insert_row-eq-ok (same x) x table e).1
          ∙ append_assoc table (x ∷ []) xs
      | inr (_, e) ↦ absurd (ground arith)
    ]

-- The projects and their preparations are as they were.
pub record Beside (s t : Db) : Type 0 where
  pub projects : t.projects ≡ s.projects
  pub plans : t.plans ≡ s.plans

Beside-order : IsPreorder Beside
Beside-order = record {
  same = λ s. record { projects = refl; plans = refl };
  joined = λ s t u k l. record { projects = l.projects ∙ k.projects; plans = l.plans ∙ k.plans };
}

Beside-modify : (f : Db → Db) → ((s : Db) → Beside s (f s)) → Keeps Beside (modify f)
Beside-modify f h = Keeps-modify f h

Beside-next_sequence : Keeps Beside next_sequence
unfolding next_sequence
Beside-next_sequence = search (keeps_rules, Beside-order, Beside-modify)

Beside-save_mutation :
    {T : Type 0} (encode : MutationResult T → Stored) (scope operation_id hash : String)
    (result : MutationResult T) (event : OutboxEvent) (sequence : ℕ)
    → Keeps Beside (save_mutation encode scope operation_id hash result event sequence)
unfolding save_mutation insert_outbox insert_receipt
Beside-save_mutation encode scope operation_id hash result event sequence =
    search (keeps_rules, Beside-order, Beside-modify) depth 20

pub Beside-finish :
    {T : Type 0} (encode : MutationResult T → Stored) (scope operation_id hash : String)
    (result : MutationResult T) (event : OutboxEvent)
    → Keeps Beside (finish_project_mutation encode scope operation_id hash result event)
unfolding finish_project_mutation
Beside-finish encode scope operation_id hash result event =
    search (keeps_rules, Beside-order, Beside-next_sequence, Beside-save_mutation)

pub insert_project-eq-ok :
    (p : Project) (s : Db) {a : Unit {0}} {t : Db}
    → insert_project p s ≡ ok (a, t)
    → (t.projects ≡ s.projects ++ p ∷ []) × (t.plans ≡ s.plans)
unfolding insert_project insert_row ◌>>=◌
insert_project-eq-ok p s h = ground arith

pub insert_preparations-eq-ok :
    (new : Db → List Preparation) (s : Db) {a : Unit {0}} {t : Db}
    → insert_preparations new s ≡ ok (a, t)
    → t ≡ record s { plans = record s.plans { preparations = s.plans.preparations ++ new s } }
unfolding insert_preparations
insert_preparations-eq-ok new s h =
    let (rows, s1, h1, k1) = >>=-eq-ok _ _ s h in
    let (grown, stay) = attempt-eq-ok _ s h1 in
    modify-eq-ok _ s1 k1
    ∙ rw (stay, insert_rows-eq-ok same_preparation (new s) s.plans.preparations grown) refl

pub insert_check_plans-eq-ok :
    (new : Db → List CheckPlan) (s : Db) {a : Unit {0}} {t : Db}
    → insert_check_plans new s ≡ ok (a, t)
    → t ≡ record s { plans = record s.plans { check_plans = s.plans.check_plans ++ new s } }
unfolding insert_check_plans
insert_check_plans-eq-ok new s h =
    let (rows, s1, h1, k1) = >>=-eq-ok _ _ s h in
    let (grown, stay) = attempt-eq-ok _ s h1 in
    modify-eq-ok _ s1 k1
    ∙ rw (stay, insert_rows-eq-ok same_plan (new s) s.plans.check_plans grown) refl

pub insert_check_items-eq-ok :
    (new : Db → List CheckItem) (s : Db) {a : Unit {0}} {t : Db}
    → insert_check_items new s ≡ ok (a, t)
    → t ≡ record s { plans = record s.plans { check_items = s.plans.check_items ++ new s } }
unfolding insert_check_items
insert_check_items-eq-ok new s h =
    let (rows, s1, h1, k1) = >>=-eq-ok _ _ s h in
    let (grown, stay) = attempt-eq-ok _ s h1 in
    modify-eq-ok _ s1 k1
    ∙ rw (stay, insert_rows-eq-ok same_item (new s) s.plans.check_items grown) refl
