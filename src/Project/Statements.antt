-- ===== src/Project/Statements.antt =====
-- What the methods of ProjectRepository share.
use tejun.Prelude.{ℕ, String, Bool, false, Option, none, some, List, [], ◌∷◌, ◌&&◌, if◌then◌else◌}
use tejun.Shared.{Error, app_error, conflict_error, constraint}
use tejun.Sql.Tx.{Result, ok, err, Tx, pure, fail, attempt, modify, ◌>>=◌, ◌>>◌}
use tejun.Sql.Table.{insert_row, exists, delete_where}
use tejun.Database.{Db}
use tejun.Database.PlanRows.{Plans}
use tejun.Database.Ledger.{MutationResult, OutboxEvent, Stored}
use tejun.Mutation.{next_sequence, save_mutation}

-- revisionConflict
abbrev pub revision_conflict : ℕ → Error
revision_conflict current = conflict_error "更新された内容があります" current

abbrev pub project_not_found : Error
project_not_found = app_error "project_not_found" "プロジェクトが見つかりません"

-- `if err := f(); err != nil { return err }`
unfoldable pub fail_with : Option Error → Tx Db Unit
fail_with none = pure tt
fail_with (some e) = fail e

abbrev pub with_sequence : {T : Type 0} → MutationResult T → ℕ → MutationResult T
with_sequence result n = record result { receipt = record result.receipt { change_sequence = n } }

-- finishProjectMutation, and the result with its change_sequence.
unfoldable pub finish_project_mutation :
    {T : Type 0}
    → (MutationResult T → Stored)
    → String
    → String
    → String
    → MutationResult T
    → OutboxEvent
    → Tx Db (MutationResult T)
finish_project_mutation encode scope operation_id hash result event = do
  sequence ← next_sequence
  save_mutation encode scope operation_id hash (with_sequence result sequence) event sequence
  pure (with_sequence result sequence)

module _ {A : Type 0} where
  -- INSERT ... SELECT: the rows one by one, each under its key.
  unfoldable pub insert_rows : (A → A → Bool) → List A → List A → Result (List A)
  insert_rows same [] table = ok table
  insert_rows same (x ∷ xs) table = elim (insert_row (same x) x table) [
    | err e ↦ err e
    | ok grown ↦ insert_rows same xs grown
  ]

  -- DELETE ... WHERE p of rows, some of which a foreign key refers to.
  unfoldable pub delete_unreferenced : (A → Bool) → (A → Bool) → List A → Result (List A)
  delete_unreferenced p referenced rows =
      if exists (λ x. p x && referenced x) rows then err constraint else ok (delete_where p rows)

  -- A DELETE as a statement: the table, its new value, the rows and the references to them.
  unfoldable pub delete_rows :
      (Db → List A) → (List A → Db → Db) → (Db → A → Bool) → (Db → A → Bool) → Tx Db Unit
  delete_rows table put p referenced = do
    rows ← attempt (λ db. delete_unreferenced (p db) (referenced db) (table db))
    modify (put rows)

-- A table to which no foreign key refers.
abbrev pub never : {A : Type 0} → Db → A → Bool
never db x = false

-- An UPDATE, INSERT or DELETE of one of the tables of Plans.
abbrev pub on_plans : (Plans → Plans) → Db → Db
on_plans f db = record db { plans = f db.plans }
