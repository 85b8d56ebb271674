-- ===== src/Execution/Generate/Ready.antt =====
-- An execution whose procedure can be generated, in terms of its rows: Snapshot.Readiness of what
-- readExecution reads (internal/domain/execution and internal/adapter/sqlite/execution.go).
use mathlib.Core.List.Memᴰ as Members
use tejun.Prelude.{
  ◌≡◌, refl, sym, ap, ◌∙◌, true, List, [], ◌∷◌, ◌==◌, Memᴰ, ◌≢◌, ◌⊎◌, subst, eq_iff, map,
}
use tejun.Sql.Table.{select_where-Memᴰ}
use tejun.Sql.Table.Order.{Memᴰ-select_where}
use tejun.Sql.Table.Sorted.{order_by-Memᴰ, Memᴰ-order_by}
use tejun.Database.{Db}
use tejun.Database.Rows.{AiStatus, HumanStatus, ExecutionStatus, Execution, Check, Evidence}
use tejun.Domain.Readiness as Readiness
use tejun.Execution.Snapshot.{
  ai_status_text, human_status_text, execution_status_text, evidence_status, evidence_before,
  execution_evidence, execution_checks, evidence_of, snapshot_check, snapshot_of,
}

-- Evidence of a human for this check, available and of the kind that the check asks for.
pub record Proof (s : Db) (c : Check) (v : Evidence) : Type 0 where
  pub listed : Memᴰ v s.evidence
  pub same_execution : v.execution_id ≡ c.execution_id
  pub same_check : v.check_id ≡ c.check_id
  pub actor : v.actor ≡ "human"
  pub available : evidence_status s v ≡ "available"
  pub kind :
      (v.kind ≡ c.human_evidence_requirement)
      ⊎ ((c.human_evidence_requirement ≡ "text_or_image")
          × ((v.kind ≡ "text") ⊎ (v.kind ≡ "image")))

pub record RowDone (s : Db) (c : Check) : Type 0 where
  pub ai : c.ai_required ≡ true → c.ai_status ≡ AiStatus.completed
  pub human : c.human_required ≡ true → c.human_status ≡ HumanStatus.completed
  pub proof :
      c.human_required ≡ true → c.human_evidence_requirement ≢ "none" → (v : Evidence) × Proof s c v

pub record Ready (e : Execution) (s : Db) : Type 0 where
  pub active : e.status ≡ ExecutionStatus.active
  pub some_check : (c : Check) × Memᴰ c s.checks × (c.execution_id ≡ e.execution_id)
  pub done : (c : Check) → Memᴰ c s.checks → c.execution_id ≡ e.execution_id → RowDone s c

active_text :
    (x : ExecutionStatus) → execution_status_text x ≡ "active" → x ≡ ExecutionStatus.active
active_text ExecutionStatus.active h = refl
active_text ExecutionStatus.completed h = absurd (cc)
active_text ExecutionStatus.cancelled h = absurd (cc)

ai_completed : (x : AiStatus) → ai_status_text x ≡ "completed" → x ≡ AiStatus.completed
ai_completed AiStatus.pending h = absurd (cc)
ai_completed AiStatus.queued h = absurd (cc)
ai_completed AiStatus.running h = absurd (cc)
ai_completed AiStatus.completed h = refl
ai_completed AiStatus.failed h = absurd (cc)

human_completed : (x : HumanStatus) → human_status_text x ≡ "completed" → x ≡ HumanStatus.completed
human_completed HumanStatus.pending h = absurd (cc)
human_completed HumanStatus.completed h = refl

-- The evidence of a check in the snapshot is that of its rows.
Proof-of_snapshot :
    (s : Db) (c : Check) (x : Readiness.Evidence)
    → Memᴰ x (snapshot_check s c).evidence
    → Readiness.Proves c.human_evidence_requirement x
    → (v : Evidence) × Proof s c v
Proof-of_snapshot s c x m (actor, available, kind) =
    let (v, mv, same) = Members.of_map _ (evidence_of c s) m in
    let (here, of_check) =
      select_where-Memᴰ (λ (w : Evidence). w.check_id == c.check_id)
        (execution_evidence c.execution_id s) mv in
    let (listed, of_execution) =
      select_where-Memᴰ (λ (w : Evidence). w.execution_id == c.execution_id) s.evidence
        (order_by-Memᴰ evidence_before _ here) in
    (
      v,
      record {
        listed = listed;
        same_execution = (eq_iff v.execution_id c.execution_id).0 of_execution;
        same_check = (eq_iff v.check_id c.check_id).0 of_check;
        actor = ap (λ (y : Readiness.Evidence). y.actor) same ∙ actor;
        available = ap (λ (y : Readiness.Evidence). y.status) same ∙ available;
        kind =
            subst
              (λ k.
                (k ≡ c.human_evidence_requirement)
                ⊎ ((c.human_evidence_requirement ≡ "text_or_image")
                    × ((k ≡ "text") ⊎ (k ≡ "image"))))
              (ap (λ (y : Readiness.Evidence). y.kind) (sym same)) kind;
      },
    )

RowDone-of_snapshot : (s : Db) (c : Check) → Readiness.CheckDone (snapshot_check s c) → RowDone s c
RowDone-of_snapshot s c d = record {
  ai = λ h. ai_completed c.ai_status (d.ai h);
  human = λ h. human_completed c.human_status (d.human h);
  proof = λ h k. let (x, m, p) = d.proof h k in Proof-of_snapshot s c x m p;
}

first_of :
    {A : Type 0} {B : Type 0} (f : A → B) (xs : List A) → (map f xs ≢ []) → (x : A) × Memᴰ x xs
first_of f [] h = absurd (h refl)
first_of f (x ∷ xs) h = (x, Memᴰ.head refl)

pub readiness-Ready :
    (e : Execution) (s : Db) → (Readiness.readiness (snapshot_of e s)).0 ≡ true → Ready e s
readiness-Ready e s h =
    let (active, some, done) = (Readiness.readiness-CheckDone (snapshot_of e s)).0 h in
    let (c, m) = first_of (snapshot_check s) (execution_checks e.execution_id s) some in
    let (listed, owner) =
      select_where-Memᴰ (λ (d : Check). d.execution_id == e.execution_id) s.checks
        (order_by-Memᴰ _ _ m) in
    record {
      active = active_text e.status active;
      some_check = (c, listed, (eq_iff c.execution_id e.execution_id).0 owner);
      done = λ d md same. RowDone-of_snapshot s d (
          done (snapshot_check s d) (
            Members.map (snapshot_check s) (
              Memᴰ-order_by _ _ (
                Memᴰ-select_where (λ (x : Check). x.execution_id == e.execution_id) s.checks md
                  ((eq_iff d.execution_id e.execution_id).1 same)))));
    }
