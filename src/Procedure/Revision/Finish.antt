-- ===== src/Procedure/Revision/Finish.antt =====
-- FinishProcedureRevision: what becomes of a revision, and of the draft.
use tejun.Prelude.{
  ℕ, String, Bool, true, false, Option, none, some, [], ◌∷◌, ◌==◌, ◌+s◌, ◌||◌, not, nat_eq, ltb,
  if◌then◌else◌, byte_length,
}
use tejun.Shared.{no_rows}
use tejun.Sql.Tx.{Result, Tx, pure, gets, require, commit, ◌>>=◌, ◌>>◌}
use tejun.Sql.Table.{find, count_where}
use tejun.Database.{Db}
use tejun.Database.Time.{Time}
use tejun.Database.Rows.{JobState}
use tejun.Domain.Integrity.{Document, evaluate}
use tejun.Mutation.{next_sequence, insert_outbox}
use tejun.Execution.Statements.{job_state_text, is_cancellation_requested}
use tejun.Procedure.Codec.{Json, valid_document_text}
use tejun.Procedure.Statements.{
  has_procedure, has_revision_job, is_draft_at, source_ids, write_document, update_revision_jobs,
  update_procedure_turns, insert_procedure_turn,
}
use tejun.Procedure.Draft.{document_limit}
use tejun.Procedure.Revision.Accept.{procedure_event}
use tejun.Procedure.Revision.Claim.{ClaimedProcedureRevision}

-- `status` and `code`
abbrev pub Outcome : Type 0
Outcome = JobState × String

abbrev pub invalid_response : Outcome
invalid_response = (JobState.failed, "invalid_response")

abbrev pub revision_lost : Outcome
revision_lost = (JobState.failed, "revision_conflict")

-- SELECT j.state,q.revision FROM procedure_revision_jobs j JOIN procedures q ...
unfoldable pub revision_state : String → Tx Db (JobState × ℕ)
revision_state job_id = do
  j ← require (λ db. find (has_revision_job job_id) db.revision_jobs) no_rows
  q ← require (λ db. find (has_procedure j.procedure_id) db.procedures) no_rows
  pure (j.state, q.revision)

-- UPDATE procedure_revision_jobs SET state=?,completed_at=?,error_code=? WHERE job_id=?
unfoldable pub close_revision : String → Outcome → Time → Tx Db Unit
close_revision job_id outcome at = update_revision_jobs (has_revision_job job_id) (λ j. record j {
  state = outcome.0;
  completed_at = some at.micros;
  error_code = some outcome.1;
})

abbrev pub is_completed_state : JobState → Bool
is_completed_state JobState.completed = true
is_completed_state _ = false

module _ (json : Json) where
  -- The UPDATE of the draft and its RowsAffected.
  unfoldable pub adopt : ClaimedProcedureRevision → Document → Time → Tx Db Outcome
  adopt job document at = do
    affected ←
        gets (λ db. count_where (is_draft_at job.procedure_id job.expected_revision) db.procedures)
    write_document job.procedure_id job.expected_revision (json.marshal document) at.micros
    pure (if nat_eq affected 1 then (JobState.completed, "") else revision_lost)

  -- A document that was decoded.
  unfoldable pub examine : ClaimedProcedureRevision → String → Document → Time → Tx Db Outcome
  examine job answer document at =
      if ltb document_limit (byte_length answer) || not (valid_document_text document)
      then pure invalid_response
      else (do
        ids ← gets (source_ids job.procedure_id)
        if (evaluate document ids).status == "blocked"
            then pure invalid_response
            else adopt job document at)

  abbrev pub examine_decoded :
      ClaimedProcedureRevision → String → Option Document → Time → Tx Db Outcome
  examine_decoded job answer none at = pure invalid_response
  examine_decoded job answer (some document) at = examine job answer document at

  -- The chain of tests; `failed` tells that the agent's run ended with an error.
  unfoldable pub outcome_of :
      ClaimedProcedureRevision → String → Bool → Time → JobState → ℕ → Tx Db Outcome
  outcome_of job answer failed at state revision =
      if is_cancellation_requested state
      then pure (JobState.cancelled, "cancelled")
      else if failed
      then pure (JobState.failed, "generation_failed")
      else if not (nat_eq revision job.expected_revision)
      then pure revision_lost
      else examine_decoded job answer (json.decode answer) at

  -- The turn of the agent's answer. A revision is completed only when the draft was updated, so that
  -- the procedure exists.
  unfoldable pub insert_reply : ClaimedProcedureRevision → String → JobState → Time → Tx Db Unit
  insert_reply job answer state at =
      if is_completed_state state
      then insert_procedure_turn (record {
        turn_id = job.job_id +s ":reply";
        procedure_id = job.procedure_id;
        role = "agent";
        content = json.marshal_content (record { kind = "text"; text = answer } ∷ []);
        status = "completed";
        created_at = at.micros;
      })
      else pure tt

  -- What follows the tests: the job, its turn, the reply and the event.
  unfoldable pub settle_revision :
      ClaimedProcedureRevision → String → Time → String → Outcome → Tx Db Unit
  settle_revision job answer at event_id outcome = do
    close_revision job.job_id outcome at
    update_procedure_turns (λ db t. t.turn_id == job.turn_id) (job_state_text outcome.0)
    insert_reply job answer outcome.0 at
    sequence ← next_sequence
    insert_outbox (procedure_event event_id job.procedure_id at job.job_id) sequence

  unfoldable pub finish_tx : ClaimedProcedureRevision → String → Bool → Time → String → Tx Db Unit
  finish_tx job answer failed at event_id = do
    found ← revision_state job.job_id
    outcome ← outcome_of job answer failed at found.0 found.1
    settle_revision job answer at event_id outcome

  unfoldable pub finish_procedure_revision :
      ClaimedProcedureRevision → String → Bool → Time → String → Db → Result (Unit {0}) × Db
  finish_procedure_revision job answer failed at event_id =
      commit (finish_tx job answer failed at event_id)
