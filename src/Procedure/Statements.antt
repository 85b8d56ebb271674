-- ===== src/Procedure/Statements.antt =====
-- The statements that several methods of ProcedureRepository send.
use tejun.Prelude.{ℕ, ◌+◌, String, Bool, true, false, List, ◌==◌, ◌&&◌, ◌||◌, nat_eq, map}
use tejun.Sql.Tx.{Tx, modify, attempt, ◌>>=◌}
use tejun.Sql.Table.{update_where, insert_row, select_where}
use tejun.Database.{Db}
use tejun.Database.Rows.{
  JobState, ProcedureStatus, Procedure, ProcedureTurn, RevisionJob, SourceEvidence,
}
use tejun.Execution.Statements.{is_queued, is_claimed}

abbrev pub is_draft : ProcedureStatus → Bool
is_draft ProcedureStatus.draft = true
is_draft _ = false

abbrev pub has_procedure : String → Procedure → Bool
has_procedure id p = p.procedure_id == id

-- WHERE procedure_id=? AND revision=? AND status='draft'
abbrev pub is_draft_at : String → ℕ → Procedure → Bool
is_draft_at id revision p = p.procedure_id == id && nat_eq p.revision revision && is_draft p.status

-- state IN ('queued','running','cancellation_requested')
abbrev pub is_pending : JobState → Bool
is_pending state = is_queued state || is_claimed state

abbrev pub pending_for : String → RevisionJob → Bool
pending_for id j = j.procedure_id == id && is_pending j.state

abbrev pub has_revision_job : String → RevisionJob → Bool
has_revision_job id j = j.job_id == id

-- procedureEvidenceIDs
abbrev pub source_ids : String → Db → List String
source_ids id db =
    map (λ (e : SourceEvidence). e.evidence_id)
      (select_where (λ (e : SourceEvidence). e.procedure_id == id) db.source_evidence)

unfoldable pub update_procedures : (Procedure → Bool) → (Procedure → Procedure) → Tx Db Unit
update_procedures p f = modify (λ db. record db { procedures = update_where p f db.procedures })

-- UPDATE procedures SET document_json=?,revision=revision+1,updated_at=? WHERE procedure_id=? AND
-- revision=? AND status='draft'
unfoldable pub write_document : String → ℕ → String → ℕ → Tx Db Unit
write_document id revision text at =
    update_procedures (is_draft_at id revision)
      (λ p. record p { document = text; revision = p.revision + 1; updated_at = at })

unfoldable pub update_revision_jobs :
    (RevisionJob → Bool) → (RevisionJob → RevisionJob) → Tx Db Unit
update_revision_jobs p f =
    modify (λ db. record db { revision_jobs = update_where p f db.revision_jobs })

unfoldable pub update_procedure_turns : (Db → ProcedureTurn → Bool) → String → Tx Db Unit
update_procedure_turns p status = modify (λ db. record db {
  procedure_turns = update_where (p db) (λ t. record t { status = status }) db.procedure_turns;
})

-- INSERT INTO procedure_turns. The code has read or updated the procedure before, so that its foreign
-- key holds.
unfoldable pub insert_procedure_turn : ProcedureTurn → Tx Db Unit
insert_procedure_turn t = do
  rows ←
      attempt
        (λ db. insert_row (λ (u : ProcedureTurn). u.turn_id == t.turn_id) t db.procedure_turns)
  modify (λ db. record db { procedure_turns = rows })

-- INSERT INTO procedure_revision_jobs: job_id is the key, and turn_id is UNIQUE.
unfoldable pub insert_revision_job : RevisionJob → Tx Db Unit
insert_revision_job j = do
  rows ← attempt (λ db.
      insert_row (λ (k : RevisionJob). k.job_id == j.job_id || k.turn_id == j.turn_id) j
        db.revision_jobs)
  modify (λ db. record db { revision_jobs = rows })
