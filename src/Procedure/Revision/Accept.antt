-- ===== src/Procedure/Revision/Accept.antt =====
-- AcceptProcedureRevision: one revision at a time is queued for a draft.
use tejun.Prelude.{
  ℕ, String, Option, none, some, List, [], ◌∷◌, ◌+s◌, not, nat_eq, ltb, byte_length, decimal,
}
use tejun.Shared.{app_error, not_found}
use tejun.Sql.Tx.{Result, Tx, pure, gets, require, fail_if, found_or, commit, ◌>>=◌, ◌>>◌}
use tejun.Sql.Table.{find, count_where}
use tejun.Database.{Db}
use tejun.Database.Time.{Time}
use tejun.Database.Rows.{JobState, RevisionJob}
use tejun.Database.Ledger.{MutationResult, OutboxEvent, AcceptedTurn, Stored}
use tejun.Mutation.{request_hash, existing_result, next_sequence, save_mutation}
use tejun.Procedure.Codec.{ContentPart, Json}
use tejun.Procedure.Statements.{
  has_procedure, pending_for, insert_procedure_turn, insert_revision_job,
}
use tejun.Procedure.Draft.{admit_draft}

-- ProcedureRevisionRecord, with the fields of RequestProcedureRevisionInput.
pub record ProcedureRevisionRecord : Type 0 where
  pub procedure_id : String
  pub expected_revision : ℕ
  pub content : List ContentPart
  pub operation_id : String
  pub turn_id : String
  pub job_id : String
  pub session_id : String
  pub event_id : String
  pub at : Time

abbrev pub as_accepted_turn : Stored → Option (MutationResult AcceptedTurn)
as_accepted_turn (Stored.accepted_turn r) = some r
as_accepted_turn _ = none

-- 6<<20
abbrev pub prompt_limit : ℕ
prompt_limit = 6291456

abbrev pub prompt_of : String → String → String
prompt_of document content =
    "次の手順書を利用者の依頼に沿って修正し、ProcedureDocumentのJSONオブジェクトのみを返してください。既存のevidenceIdは維持してください。手順書: "
    +s document +s "\n依頼: " +s content

-- The event of a change of a procedure.
abbrev pub procedure_event : String → String → Time → String → OutboxEvent
procedure_event id procedure_id at job_id = record {
  id = id;
  name = "procedure.updated";
  emitted_at = at;
  aggregate_type = "procedure";
  aggregate_id = procedure_id;
  correlation = job_id;
}

abbrev pub accepted_turn_result : ProcedureRevisionRecord → ℕ → MutationResult AcceptedTurn
accepted_turn_result r sequence = record {
  value = record {
    session_id = r.session_id;
    turn_id = r.turn_id;
    job_id = r.job_id;
    accepted_at = r.at;
  };
  receipt = record {
    operation_id = r.operation_id;
    committed_at = r.at;
    change_sequence = sequence;
  };
}

abbrev pub queued_revision : ProcedureRevisionRecord → String → RevisionJob
queued_revision r prompt = record {
  job_id = r.job_id;
  procedure_id = r.procedure_id;
  turn_id = r.turn_id;
  session_id = r.session_id;
  state = JobState.queued;
  prompt_text = prompt;
  expected_revision = r.expected_revision;
  accepted_at = r.at.micros;
  completed_at = none;
  error_code = none;
}

module _ (sha256 : String → String) (json : Json) where
  abbrev pub revision_hash : ProcedureRevisionRecord → String
  revision_hash r =
      request_hash sha256
        (r.procedure_id ∷ decimal r.expected_revision ∷ json.marshal_content r.content ∷ [])

  -- The turn and the job.
  unfoldable pub enqueue_revision : ProcedureRevisionRecord → String → Tx Db Unit
  enqueue_revision r prompt = do
    insert_procedure_turn (record {
      turn_id = r.turn_id;
      procedure_id = r.procedure_id;
      role = "user";
      content = json.marshal_content r.content;
      status = "queued";
      created_at = r.at.micros;
    })
    insert_revision_job (queued_revision r prompt)

  -- The branch of a request that has no receipt yet.
  unfoldable pub accept_revision_new : ProcedureRevisionRecord → Tx Db (MutationResult AcceptedTurn)
  accept_revision_new r = do
    p ← require (λ db. find (has_procedure r.procedure_id) db.procedures) not_found
    admit_draft "draftのみ修正できます" p r.expected_revision
    pending ← gets (λ db. count_where (pending_for r.procedure_id) db.revision_jobs)
    fail_if (not (nat_eq pending 0)) (app_error "invalid_state" "修正依頼が進行中です")
    fail_if (ltb prompt_limit (byte_length (prompt_of p.document (json.marshal_content r.content))))
        (app_error "validation_failed" "修正依頼が長すぎます")
    enqueue_revision r (prompt_of p.document (json.marshal_content r.content))
    sequence ← next_sequence
    save_mutation Stored.accepted_turn "request_procedure_revision" r.operation_id (revision_hash r)
        (accepted_turn_result r sequence) (procedure_event r.event_id r.procedure_id r.at r.job_id)
        sequence
    pure (accepted_turn_result r sequence)

  unfoldable pub accept_revision_tx : ProcedureRevisionRecord → Tx Db (MutationResult AcceptedTurn)
  accept_revision_tx r = do
    replayed ←
        existing_result as_accepted_turn "request_procedure_revision" r.operation_id
          (revision_hash r)
    found_or replayed pure (accept_revision_new r)

  unfoldable pub accept_procedure_revision :
      ProcedureRevisionRecord → Db → Result (MutationResult AcceptedTurn) × Db
  accept_procedure_revision r = commit (accept_revision_tx r)
