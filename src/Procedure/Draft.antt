-- ===== src/Procedure/Draft.antt =====
-- SaveProcedureDraft: a draft is replaced by a document, if nobody changed it since it was read.
use tejun.Prelude.{
  ℕ, ◌+◌, String, Bool, Option, none, some, [], ◌∷◌, ◌||◌, not, nat_eq, ltb, byte_length, decimal,
}
use tejun.Shared.{app_error, conflict_error, not_found}
use tejun.Sql.Tx.{Result, Tx, pure, gets, require, fail_if, found_or, commit, ◌>>=◌, ◌>>◌}
use tejun.Sql.Table.{find}
use tejun.Database.{Db}
use tejun.Database.Time.{Time}
use tejun.Database.Rows.{Procedure}
use tejun.Database.Ledger.{MutationResult, OutboxEvent, ProcedureSaved, Stored}
use tejun.Domain.Integrity.{Document, Integrity, evaluate}
use tejun.Mutation.{request_hash, existing_result, next_sequence, save_mutation}
use tejun.Procedure.Codec.{Json, valid_document_text}
use tejun.Procedure.Statements.{is_draft, has_procedure, source_ids, write_document}

-- ProcedureSaveRecord, with the fields of ProcedureSaveInput.
pub record ProcedureSaveRecord : Type 0 where
  pub procedure_id : String
  pub expected_revision : ℕ
  pub operation_id : String
  pub document : Document
  pub at : Time
  pub event : OutboxEvent

abbrev pub as_procedure_saved : Stored → Option (MutationResult ProcedureSaved)
as_procedure_saved (Stored.procedure_saved r) = some r
as_procedure_saved _ = none

-- 5<<20
abbrev pub document_limit : ℕ
document_limit = 5242880

abbrev pub saved : ProcedureSaveRecord → ℕ → Integrity → ℕ → MutationResult ProcedureSaved
saved r revision integrity sequence = record {
  value = record {
    procedure_id = r.procedure_id;
    revision = revision + 1;
    document = r.document;
    integrity = integrity;
    updated_at = r.at;
  };
  receipt = record {
    operation_id = r.operation_id;
    committed_at = r.at;
    change_sequence = sequence;
  };
}

-- The two guards that a change of a draft begins with; `message` is that of a procedure that is no
-- draft.
unfoldable pub admit_draft : String → Procedure → ℕ → Tx Db Unit
admit_draft message p expected = do
  fail_if (not (is_draft p.status)) (app_error "invalid_state" message)
  fail_if (not (nat_eq p.revision expected)) (conflict_error "手順書が更新されています" p.revision)

-- The tests on the document of a save.
abbrev pub is_refused : Json → ProcedureSaveRecord → Bool
is_refused json r =
    ltb document_limit (byte_length (json.marshal r.document))
    || not (valid_document_text r.document)

module _ (sha256 : String → String) (json : Json) where
  abbrev pub save_hash : ProcedureSaveRecord → String
  save_hash r =
      request_hash sha256
        (r.procedure_id ∷ decimal r.expected_revision ∷ json.marshal r.document ∷ [])

  -- The branch of a request that has no receipt yet.
  unfoldable pub save_new : ProcedureSaveRecord → Tx Db (MutationResult ProcedureSaved)
  save_new r = do
    p ← require (λ db. find (has_procedure r.procedure_id) db.procedures) not_found
    admit_draft "draftのみ編集できます" p r.expected_revision
    ids ← gets (source_ids r.procedure_id)
    write_document r.procedure_id p.revision (json.marshal r.document) r.at.micros
    sequence ← next_sequence
    save_mutation Stored.procedure_saved "save_procedure_draft" r.operation_id (save_hash r)
        (saved r p.revision (evaluate r.document ids) sequence) r.event sequence
    pure (saved r p.revision (evaluate r.document ids) sequence)

  unfoldable pub save_tx : ProcedureSaveRecord → Tx Db (MutationResult ProcedureSaved)
  save_tx r = do
    fail_if (is_refused json r) (app_error "validation_failed" "documentが不正です")
    replayed ←
        existing_result as_procedure_saved "save_procedure_draft" r.operation_id (save_hash r)
    found_or replayed pure (save_new r)

  -- The document is tested before BeginTx; a test that fails writes nothing either way.
  unfoldable pub save_procedure_draft :
      ProcedureSaveRecord → Db → Result (MutationResult ProcedureSaved) × Db
  save_procedure_draft r = commit (save_tx r)
