-- ===== src/Project/Copies.antt =====
-- What DuplicateProject and CreateRevision (internal/adapter/sqlite/project.go) leave.
use tejun.Prelude.{
  map, ◌≡◌, refl, ◌∙◌, ap, ℕ, Bool, true, false, Option, none, some, [], ◌∷◌, ◌++◌, arith, ◌==◌,
  inl, inr, ◌+s◌, decimal, if◌then◌else◌, Memᴰ, eq_iff, and_left, and_right,
}
use tejun.Shared.{Error}
use tejun.Sql.Tx.{ok, pure, ◌>>=◌}
use tejun.Sql.Keeps.{>>=-eq-ok}
use tejun.Sql.Commit.{fail_if-eq-ok, require-eq-ok, commit-eq-ok}
use tejun.Sql.Table.{find, find-Memᴰ, select_where}
use tejun.Database.{Db}
use tejun.Database.Rows.{ProjectStatus, Stage, Project}
use tejun.Database.PlanRows.{Plans, Preparation, CheckPlan, CheckItem}
use tejun.Database.Ledger.{MutationResult, CreatedProject}
use tejun.Domain.Project.{can_revise}
use tejun.Mutation.{same_receipt}
use tejun.Mutation.Receipts.{once-eq-ok}
use tejun.Procedure.Versions.Stale.{unanswered}
use tejun.Project.Statements.{fail_with}
use tejun.Project.Create.{
  ProjectCopyRecord, as_created_project, is_unset, admit_copy, project_copy, copied_items,
  copy_plan, copy_new, copy_tx, copy_project,
}
use tejun.Project.Inserts.{
  insert_project-eq-ok, insert_preparations-eq-ok, insert_check_plans-eq-ok,
  insert_check_items-eq-ok, Beside-finish,
}

fail_with-eq-ok :
    (e : Option Error) (s : Db) {a : Unit {0}} {t : Db}
    → fail_with e s ≡ ok (a, t)
    → (e ≡ none) × (t ≡ s)
unfolding fail_with ◌>>=◌
fail_with-eq-ok none s h = (refl, ground arith)
fail_with-eq-ok (some e) s h = absurd (cc)

can_revise-none :
    (status : ProjectStatus) → can_revise status ≡ none → status ≡ ProjectStatus.completed
unfolding can_revise
can_revise-none ProjectStatus.completed h = refl
can_revise-none ProjectStatus.preparing h = absurd (cc)
can_revise-none ProjectStatus.ai_running h = absurd (cc)
can_revise-none ProjectStatus.human_waiting h = absurd (cc)
can_revise-none ProjectStatus.procedure_editing h = absurd (cc)
can_revise-none ProjectStatus.error h = absurd (cc)
can_revise-none ProjectStatus.archived h = absurd (cc)

admit_copy-eq-ok :
    (r : ProjectCopyRecord) (revision : Bool) (p : Project) (s : Db) {a : Unit {0}} {t : Db}
    → admit_copy r revision p s ≡ ok (a, t)
    → (revision ≡ true → p.status ≡ ProjectStatus.completed) × (t ≡ s)
unfolding admit_copy
admit_copy-eq-ok r true p s h =
    let (_, s1, h1, k1) = >>=-eq-ok _ _ s h in
    let (q, s2, h2, k2) = >>=-eq-ok _ _ s1 k1 in
    let (allowed, same1) = fail_with-eq-ok _ s h1 in
    let (_, same2) = require-eq-ok _ _ s1 h2 in
    let (_, same3) = fail_if-eq-ok _ _ s2 k2 in
    (λ e. can_revise-none p.status allowed, same3 ∙ same2 ∙ same1)
admit_copy-eq-ok r false p s h = let (_, same) = fail_if-eq-ok _ _ s h in (λ e. absurd (cc), same)

copy_plan-eq-ok :
    (r : ProjectCopyRecord) (s : Db) {a : Unit {0}} {t : Db}
    → copy_plan r s ≡ ok (a, t)
    → (t.plans.preparations
        ≡ s.plans.preparations
          ++ map
              (λ (p : Preparation). record p { project_id = r.project_id; revision = 1 })
              (select_where
                (λ (p : Preparation). p.project_id == r.source_project_id)
                s.plans.preparations))
      × (t.plans.check_plans
          ≡ s.plans.check_plans
            ++ map
                (λ (p : CheckPlan). record { project_id = r.project_id; revision = 1 })
                (select_where
                  (λ (p : CheckPlan). p.project_id == r.source_project_id)
                  s.plans.check_plans))
      × (t.plans.check_items
          ≡ s.plans.check_items ++ copied_items r.project_id r.source_project_id s)
      × (t.projects ≡ s.projects)
unfolding copy_plan
copy_plan-eq-ok r s h =
    let (_, s1, h1, k1) = >>=-eq-ok _ _ s h in
    let (_, s2, h2, k2) = >>=-eq-ok _ _ s1 k1 in
    let e1 = insert_preparations-eq-ok _ s h1 in
    let e2 = insert_check_plans-eq-ok _ s1 h2 in
    let e3 = insert_check_items-eq-ok _ s2 k2 in rw (e3, e2, e1) (refl, refl, refl, refl)

-- The project that was copied, and what the copy adds.
pub record Copied (r : ProjectCopyRecord) (revision : Bool) (s t : Db) : Type 0 where
  pub source : Project
  pub source_id : source.project_id ≡ r.source_project_id
  pub unarchived : source.archived_at ≡ none
  pub listed : Memᴰ source s.projects
  pub completed : revision ≡ true → source.status ≡ ProjectStatus.completed
  pub projects :
      t.projects
      ≡ s.projects
        ++ record {
          project_id = r.project_id;
          lineage_id = if revision then source.lineage_id else r.project_id;
          source_project_id = some r.source_project_id;
          source_procedure_id =
              if r.source_procedure_id == "" then none else some r.source_procedure_id;
          connection_id = source.connection_id;
          name = r.name;
          description = source.description;
          workspace_path = r.workspace_path;
          status = ProjectStatus.preparing;
          current_stage = Stage.preparation;
          current_session_id = none;
          revision = 1;
          created_at = r.receipt.committed_at.micros;
          updated_at = r.receipt.committed_at.micros;
          completed_at = none;
          archived_at = none;
          error_code = none;
        }
          ∷ []
  pub preparations :
      t.plans.preparations
      ≡ s.plans.preparations
        ++ map
            (λ (p : Preparation). record {
              project_id = r.project_id;
              purpose = p.purpose;
              completion_criteria = p.completion_criteria;
              intended_users = p.intended_users;
              revision = 1;
            })
            (select_where
              (λ (p : Preparation). p.project_id == r.source_project_id)
              s.plans.preparations)
  pub check_plans :
      t.plans.check_plans
      ≡ s.plans.check_plans
        ++ map
            (λ (p : CheckPlan). record { project_id = r.project_id; revision = 1 })
            (select_where
              (λ (p : CheckPlan). p.project_id == r.source_project_id)
              s.plans.check_plans)
  pub items :
      t.plans.check_items
      ≡ s.plans.check_items
        ++ map
            (λ (i : CheckItem). record {
              check_id = r.project_id +s ":" +s decimal i.sequence;
              project_id = r.project_id;
              sequence = i.sequence;
              title = i.title;
              instruction = i.instruction;
              expected_result = i.expected_result;
              suggested_command = i.suggested_command;
              ai_required = i.ai_required;
              human_required = i.human_required;
              human_evidence_requirement = i.human_evidence_requirement;
            })
            (select_where
              (λ (i : CheckItem). i.project_id == r.source_project_id)
              s.plans.check_items)

is_unset-none : (at : Option ℕ) → is_unset at ≡ true → at ≡ none
is_unset-none none h = refl
is_unset-none (some at) h = absurd (cc)

copy_new-Copied :
    (r : ProjectCopyRecord) (revision : Bool) (s : Db) {v : MutationResult CreatedProject} {t : Db}
    → copy_new r revision s ≡ ok (v, t)
    → Copied r revision s t
unfolding copy_new
copy_new-Copied r revision s {t = t} h =
    let (p, s1, h1, k1) = >>=-eq-ok _ _ s h in
    let (_, s2, h2, k2) = >>=-eq-ok _ _ s1 k1 in
    let (_, s3, h3, k3) = >>=-eq-ok _ _ s2 k2 in
    let (_, s4, h4, k4) = >>=-eq-ok _ _ s3 k3 in
    let (found, same1) = require-eq-ok _ _ s h1 in
    let (completed, same2) = admit_copy-eq-ok r revision p s1 h2 in
    let (listed, chosen) = find-Memᴰ _ s.projects found in
    let back : s2 ≡ s = same2 ∙ same1 in
    let (added, plans) = insert_project-eq-ok _ s2 h3 in
    let (preparations, check_plans, items, projects) = copy_plan-eq-ok r s3 h4 in
    let same = plans ∙ ap (λ (d : Db). d.plans) back in
    let after = (Beside-finish _ _ _ _ _ _).at s4 _ t k4 in
    record {
      source = p;
      source_id = (eq_iff p.project_id r.source_project_id).0 (and_left _ _ chosen);
      unarchived = is_unset-none p.archived_at (and_right _ _ chosen);
      listed = listed;
      completed = completed;
      projects =
          after.projects
          ∙ projects
          ∙ added
          ∙ ap (λ (d : Db). d.projects ++ project_copy r revision p ∷ []) back;
      preparations = ap (λ (q : Plans). q.preparations) after.plans ∙ rw same at preparations;
      check_plans = ap (λ (q : Plans). q.check_plans) after.plans ∙ rw same at check_plans;
      items = ap (λ (q : Plans). q.check_items) after.plans ∙ rw same at items;
    }

-- A copy that is made, under a new operation id, leaves every project, preparation, check plan and check
-- item as it is. It adds one project, in its preparation with revision 1, and the preparation, the plan
-- and the check items of its source: the items under ids made of the new project's and their sequence.
-- The source is not archived, and for a revision it is completed.
pub copy_project-Copied :
    (r : ProjectCopyRecord) (revision : Bool) (s : Db) {v : MutationResult CreatedProject} {t : Db}
    → copy_project r revision s ≡ (ok v, t)
    → find
        (same_receipt (if revision then "create_revision" else "duplicate_project") r.operation_id)
        s.receipts
      ≡ none
    → Copied r revision s t
unfolding copy_project copy_tx
copy_project-Copied r revision s h fresh =
    elim (once-eq-ok _ _ _ _ pure (copy_new r revision) s (commit-eq-ok (copy_tx r revision) s h)) [
      | inl (w, answered, p) ↦ absurd (unanswered as_created_project _ _ _ w s fresh answered)
      | inr p ↦ copy_new-Copied r revision s p
    ]
