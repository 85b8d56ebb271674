-- ===== src/Procedure/Revision/Recover.antt =====
-- FailInterruptedProcedureRevisions: at a start, the revisions that a dead process left unfinished.
use tejun.Prelude.{Bool, true, false, some, ◌==◌, ◌+s◌, ◌&&◌}
use tejun.Sql.Tx.{Result, Tx, gets, for_each, commit, ◌>>=◌, ◌>>◌}
use tejun.Sql.Table.{exists, select_where}
use tejun.Database.{Db}
use tejun.Database.Time.{Time}
use tejun.Database.Rows.{JobState, RevisionJob}
use tejun.Mutation.{next_sequence, insert_outbox}
use tejun.Execution.Statements.{is_claimed}
use tejun.Procedure.Statements.{update_revision_jobs, update_procedure_turns}
use tejun.Procedure.Revision.Accept.{procedure_event}

abbrev pub is_interrupted : JobState → Bool
is_interrupted JobState.interrupted = true
is_interrupted _ = false

unfoldable pub announce_interrupted : Time → RevisionJob → Tx Db Unit
announce_interrupted at j = do
  sequence ← next_sequence
  insert_outbox (procedure_event (j.job_id +s ":interrupted") j.procedure_id at j.job_id) sequence

-- UPDATE procedure_revision_jobs SET state='interrupted',... WHERE state IN (...)
unfoldable pub interrupt_revisions : Time → Tx Db Unit
interrupt_revisions at =
    update_revision_jobs (λ j. is_claimed j.state)
      (λ j. record j {
        state = JobState.interrupted;
        completed_at = some at.micros;
        error_code = some "interrupted";
      })

unfoldable pub recover_revisions_tx : Time → Tx Db Unit
recover_revisions_tx at = do
  jobs ← gets (λ db. select_where (λ (j : RevisionJob). is_claimed j.state) db.revision_jobs)
  interrupt_revisions at
  update_procedure_turns
      (λ db t.
        exists (λ (j : RevisionJob). is_interrupted j.state && j.turn_id == t.turn_id)
          db.revision_jobs)
      "interrupted"
  for_each jobs (announce_interrupted at)

unfoldable pub fail_interrupted_procedure_revisions : Time → Db → Result (Unit {0}) × Db
fail_interrupted_procedure_revisions at = commit (recover_revisions_tx at)
