-- ===== src/Procedure/Complete.antt =====
-- CompleteProcedure: a draft that is well formed and whose images are intact becomes the completed
-- procedure of its project. Three reads of the database come before the transaction.
use tejun.Prelude.{
  ℕ, ◌+◌, String, Bool, true, false, Option, none, some, List, [], ◌∷◌, ◌==◌, ◌&&◌, ◌||◌, not,
  nat_eq, ltb, is_empty, if◌then◌else◌, decimal, text_lt,
}
use tejun.Shared.{Error, plain, app_error, not_found}
use tejun.Sql.Tx.{
  Result, ok, err, Tx, pure, gets, attempt, require, fail_if, found_or, modify, commit, ◌>>=◌, ◌>>◌,
}
use tejun.Sql.Table.{find, exists, select_where, order_by, update_where, count_where}
use tejun.Database.{Db}
use tejun.Database.Time.{Time}
use tejun.Database.Rows.{
  ProcedureStatus, ProjectStatus, Stage, BlobStatus, Procedure, Project, ProcedureTurn,
  ProcedureSource, SourceEvidence, Evidence, Blob,
}
use tejun.Database.Ledger.{MutationResult, OutboxEvent, ProcedureCompleted, Stored}
use tejun.Domain.Integrity.{Document, evaluate}
use tejun.Mutation.{request_hash, existing_result, next_sequence, insert_outbox, save_mutation}
use tejun.Procedure.Codec.{Json}
use tejun.Procedure.Statements.{is_draft_at, has_procedure, source_ids, update_procedures}
use tejun.Procedure.Draft.{admit_draft}

-- ProcedureCompleteRecord, with the fields of ProcedureCompleteInput.
pub record ProcedureCompleteRecord : Type 0 where
  pub procedure_id : String
  pub expected_revision : ℕ
  pub operation_id : String
  pub at : Time
  pub event : OutboxEvent
  pub project_event : OutboxEvent

-- procedureImage; the name of the staging file is a constant.
pub record Image : Type 0 where
  pub evidence_id : String
  pub hash : String
  pub mime : String
  pub size : ℕ

abbrev pub as_procedure_completed : Stored → Option (MutationResult ProcedureCompleted)
as_procedure_completed (Stored.procedure_completed r) = some r
as_procedure_completed _ = none

abbrev pub evidence_invalid : Error
evidence_invalid = app_error "evidence_invalid" "証跡を検証できません"

abbrev pub is_available : BlobStatus → Bool
is_available BlobStatus.available = true
is_available _ = false

-- LEFT JOIN evidence_blobs b ON b.hash=ee.blob_hash; a NULL joins nothing.
abbrev pub blob_of : Option String → List Blob → Option Blob
blob_of none blobs = none
blob_of (some hash) blobs = find (λ (b : Blob). b.hash == hash) blobs

abbrev pub image_of : Evidence → Option Blob → Result Image
image_of e none = err evidence_invalid
image_of e (some b) =
    if is_available b.status
    then ok (record { evidence_id = e.evidence_id; hash = b.hash; mime = b.mime; size = b.size })
    else err evidence_invalid

abbrev pub image_then : Result Image → Result (List Image) → Result (List Image)
image_then (err e) rest = err e
image_then (ok i) (err e) = err e
image_then (ok i) (ok rest) = ok (i ∷ rest)

-- The loop over the rows.
unfoldable pub images_of : List Blob → List Evidence → Result (List Image)
images_of blobs [] = ok []
images_of blobs (e ∷ rows) =
    image_then (image_of e (blob_of e.blob_hash blobs)) (images_of blobs rows)

-- WHERE pse.procedure_id=? AND ee.kind='image', with the two inner joins.
abbrev pub is_source_image : String → Db → Evidence → Bool
is_source_image id db e =
    e.kind == "image"
    && exists (λ (p : SourceEvidence). p.procedure_id == id && p.evidence_id == e.evidence_id)
        db.source_evidence
    && exists (λ (p : ProcedureSource). p.procedure_id == id && p.execution_id == e.execution_id)
        db.procedure_sources

-- procedureImages
unfoldable pub procedure_images : String → Db → Result (List Image)
procedure_images id db = images_of db.blobs (
    order_by (λ (e f : Evidence). text_lt e.evidence_id f.evidence_id)
      (select_where (is_source_image id db) db.evidence))

abbrev pub same_image : Image → Image → Bool
same_image i j =
    i.evidence_id == j.evidence_id && i.hash == j.hash && i.mime == j.mime && nat_eq i.size j.size

-- slices.Equal
unfoldable pub same_images : List Image → List Image → Bool
same_images [] [] = true
same_images (i ∷ is) (j ∷ js) = same_image i j && same_images is js
same_images _ _ = false

-- EvidenceFiles, when there is one: Verify answers true with no error.
abbrev pub Verifier : Type 0
Verifier = Option (Image → Bool)

unfoldable pub all_verified : (Image → Bool) → List Image → Bool
all_verified verify [] = true
all_verified verify (i ∷ is) = verify i && all_verified verify is

-- The tests on the images before the transaction.
abbrev pub is_verified : Verifier → List Image → Bool
is_verified none images = is_empty images
is_verified (some verify) images = all_verified verify images

-- status IN ('queued','running','cancellation_requested')
abbrev pub is_open_turn : String → ProcedureTurn → Bool
is_open_turn id t =
    t.procedure_id == id
    && (t.status == "queued" || t.status == "running" || t.status == "cancellation_requested")

abbrev pub completed_result :
    ProcedureCompleteRecord → Procedure → Project → ℕ → MutationResult ProcedureCompleted
completed_result r q p sequence = record {
  value = record {
    procedure_id = r.procedure_id;
    revision = q.revision + 1;
    status = ProcedureStatus.completed;
    completed_at = r.at;
    project_id = p.project_id;
    project_revision = p.revision + 1;
  };
  receipt = record {
    operation_id = r.operation_id;
    committed_at = r.at;
    change_sequence = sequence;
  };
}

-- UPDATE procedures SET status='completed',... WHERE procedure_id=? AND revision=? AND status='draft'
unfoldable pub close_procedure : String → ℕ → ℕ → Tx Db Unit
close_procedure id revision at = update_procedures (is_draft_at id revision) (λ p. record p {
  status = ProcedureStatus.completed;
  revision = p.revision + 1;
  updated_at = at;
  completed_at = some at;
})

-- UPDATE projects SET status='completed',current_stage='completed',... WHERE project_id=?
unfoldable pub close_project : String → ℕ → Tx Db Unit
close_project id at = modify (λ db. record db {
  projects =
      update_where (λ (p : Project). p.project_id == id)
        (λ p. record p {
          status = ProjectStatus.completed;
          current_stage = Stage.completed;
          revision = p.revision + 1;
          updated_at = at;
          completed_at = some at;
        })
        db.projects;
})

module _ (sha256 : String → String) (json : Json) where
  abbrev pub complete_hash : ProcedureCompleteRecord → String
  complete_hash r = request_hash sha256 (r.procedure_id ∷ decimal r.expected_revision ∷ [])

  -- The rest of the transaction, for the document that the column holds.
  unfoldable pub complete_document :
      ProcedureCompleteRecord
      → List Image
      → Procedure
      → Project
      → Document
      → Tx Db (MutationResult ProcedureCompleted)
  complete_document r images q p document = do
    ids ← gets (source_ids r.procedure_id)
    fail_if ((evaluate document ids).status == "blocked")
        (app_error "invalid_state" "手順書の整合性を確認してください")
    current ← attempt (procedure_images r.procedure_id)
    fail_if (not (same_images images current)) evidence_invalid
    pending ← gets (λ db. count_where (is_open_turn r.procedure_id) db.procedure_turns)
    fail_if (ltb 0 pending) (app_error "invalid_state" "生成処理が完了していません")
    close_procedure r.procedure_id q.revision r.at.micros
    close_project p.project_id r.at.micros
    sequence ← next_sequence
    save_mutation Stored.procedure_completed "complete_procedure" r.operation_id (complete_hash r)
        (completed_result r q p sequence) r.event sequence
    insert_outbox (record r.project_event { aggregate_id = p.project_id }) sequence
    pure (completed_result r q p sequence)

  unfoldable pub complete_new :
      ProcedureCompleteRecord → List Image → Tx Db (MutationResult ProcedureCompleted)
  complete_new r images = do
    q ← require (λ db. find (has_procedure r.procedure_id) db.procedures) not_found
    p ← require (λ db. find (λ (p : Project). p.project_id == q.project_id) db.projects) not_found
    admit_draft "draftのみ完成できます" q r.expected_revision
    document ← require (λ _. json.unmarshal q.document) (plain "json: cannot unmarshal")
    complete_document r images q p document

  unfoldable pub complete_procedure_tx :
      ProcedureCompleteRecord → List Image → Tx Db (MutationResult ProcedureCompleted)
  complete_procedure_tx r images = do
    replayed ←
        existing_result as_procedure_completed "complete_procedure" r.operation_id (complete_hash r)
    found_or replayed pure (complete_new r images)

  -- After the images were read.
  unfoldable pub complete_verified :
      Verifier
      → ProcedureCompleteRecord
      → Result (List Image)
      → Db
      → Result (MutationResult ProcedureCompleted) × Db
  complete_verified verifier r (err e) db = (err e, db)
  complete_verified verifier r (ok images) db =
      if is_verified verifier images
      then commit (complete_procedure_tx r images) db
      else (err evidence_invalid, db)

  -- After the first look for a receipt.
  unfoldable pub complete_looked :
      Verifier
      → ProcedureCompleteRecord
      → Result (Option (MutationResult ProcedureCompleted) × Db)
      → Db
      → Db
      → Result (MutationResult ProcedureCompleted) × Db
  complete_looked verifier r (err e) seen db = (err e, db)
  complete_looked verifier r (ok (some result, _)) seen db = (ok result, db)
  complete_looked verifier r (ok (none, _)) seen db =
      complete_verified verifier r (procedure_images r.procedure_id seen) db

  -- `first` and `seen` are the database at the look for a receipt and at the read of the images, and
  -- `db` is the database at the transaction: other requests come in between.
  unfoldable pub complete_procedure :
      Verifier
      → ProcedureCompleteRecord
      → Db
      → Db
      → Db
      → Result (MutationResult ProcedureCompleted) × Db
  complete_procedure verifier r first seen db =
      complete_looked verifier r
        (existing_result as_procedure_completed "complete_procedure" r.operation_id
          (complete_hash r) first)
        seen db
