-- ===== src/Execution/Generate/Writes.antt =====
-- The statements of GenerateProcedureDraft (internal/adapter/sqlite/execution.go): what each of them
-- adds, and the tables that it leaves alone.
use tejun.Prelude.{◌≡◌, refl, ◌∙◌, ap, ℕ, String, List, [], ◌∷◌, ◌++◌, arith}
use tejun.Sql.Tx.{ok, modify, ◌>>=◌}
use tejun.Sql.Keeps.{IsPreorder, Keeps, Keeps-modify, >>=-eq-ok, keeps_rules}
use tejun.Sql.Commit.{attempt-eq-ok, modify-eq-ok}
use tejun.Sql.Table.{insert_row}
use tejun.Database.{Db}
use tejun.Database.Rows.{Procedure, ProcedureSource, SourceEvidence}
use tejun.Database.PlanRows.{ProcedureDraft}
use tejun.Database.Ledger.{MutationResult, OutboxEvent, Stored}
use tejun.Mutation.{next_sequence, insert_outbox, insert_receipt, save_mutation}
use tejun.Execution.Generate.{
  insert_draft, insert_procedure, insert_source, same_link, insert_source_evidence,
  insert_procedure_evidence, open_editing,
}
use tejun.Project.Inserts.{insert_rows-eq-ok}

-- The tables that the statements besides the procedure, its sources and the end of the execution
-- leave alone.
pub record Beside (s t : Db) : Type 0 where
  pub executions : t.executions ≡ s.executions
  pub checks : t.checks ≡ s.checks
  pub evidence : t.evidence ≡ s.evidence
  pub procedures : t.procedures ≡ s.procedures
  pub source_evidence : t.source_evidence ≡ s.source_evidence

pub Beside-order : IsPreorder Beside
Beside-order = record {
  same = λ s. record {
    executions = refl;
    checks = refl;
    evidence = refl;
    procedures = refl;
    source_evidence = refl;
  };
  joined = λ s t u k l. record {
    executions = l.executions ∙ k.executions;
    checks = l.checks ∙ k.checks;
    evidence = l.evidence ∙ k.evidence;
    procedures = l.procedures ∙ k.procedures;
    source_evidence = l.source_evidence ∙ k.source_evidence;
  };
}

Beside-modify : (f : Db → Db) → ((s : Db) → Beside s (f s)) → Keeps Beside (modify f)
Beside-modify f h = Keeps-modify f h

pub Beside-insert_draft : (d : ProcedureDraft) → Keeps Beside (insert_draft d)
unfolding insert_draft
Beside-insert_draft d = search (keeps_rules, Beside-order, Beside-modify)

pub Beside-insert_source : (new : Db → ProcedureSource) → Keeps Beside (insert_source new)
unfolding insert_source
Beside-insert_source new = search (keeps_rules, Beside-order, Beside-modify)

pub Beside-insert_procedure_evidence :
    (new : Db → List SourceEvidence) → Keeps Beside (insert_procedure_evidence new)
unfolding insert_procedure_evidence
Beside-insert_procedure_evidence new = search (keeps_rules, Beside-order, Beside-modify)

pub Beside-open_editing : (id : String) (at : ℕ) → Keeps Beside (open_editing id at)
unfolding open_editing
Beside-open_editing id at = search (keeps_rules, Beside-modify)

pub Beside-next_sequence : Keeps Beside next_sequence
unfolding next_sequence
Beside-next_sequence = search (keeps_rules, Beside-order, Beside-modify)

pub Beside-save_mutation :
    {T : Type 0} (encode : MutationResult T → Stored) (scope operation_id hash : String)
    (result : MutationResult T) (event : OutboxEvent) (sequence : ℕ)
    → Keeps Beside (save_mutation encode scope operation_id hash result event sequence)
unfolding save_mutation insert_outbox insert_receipt
Beside-save_mutation encode scope operation_id hash result event sequence =
    search (keeps_rules, Beside-order, Beside-modify) depth 20

pub insert_draft-projects :
    (d : ProcedureDraft) (s : Db) {a : Unit {0}} {t : Db}
    → insert_draft d s ≡ ok (a, t)
    → t.projects ≡ s.projects
unfolding insert_draft
insert_draft-projects d s h =
    let (rows, s1, h1, k1) = >>=-eq-ok _ _ s h in
    let (_, same) = attempt-eq-ok _ s h1 in
    ap (λ (d : Db). d.projects) (modify-eq-ok _ s1 k1) ∙ ap (λ (d : Db). d.projects) same

pub insert_procedure-eq-ok :
    (p : Procedure) (s : Db) {a : Unit {0}} {t : Db}
    → insert_procedure p s ≡ ok (a, t)
    → t ≡ record s { procedures = s.procedures ++ p ∷ [] }
unfolding insert_procedure insert_row ◌>>=◌
insert_procedure-eq-ok p s h = ground arith

pub insert_source_evidence-eq-ok :
    (new : Db → List SourceEvidence) (s : Db) {a : Unit {0}} {t : Db}
    → insert_source_evidence new s ≡ ok (a, t)
    → t ≡ record s { source_evidence = s.source_evidence ++ new s }
unfolding insert_source_evidence
insert_source_evidence-eq-ok new s h =
    let (rows, s1, h1, k1) = >>=-eq-ok _ _ s h in
    let (grown, same) = attempt-eq-ok _ s h1 in
    let all = insert_rows-eq-ok same_link (new s) s.source_evidence grown in
    let now = modify-eq-ok _ s1 k1 in now ∙ rw (same, all) refl
