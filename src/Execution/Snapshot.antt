-- ===== src/Execution/Snapshot.antt =====
-- readExecution (internal/adapter/sqlite/execution.go): what the rules of internal/domain/execution
-- are asked about, read from the tables. Permissions, the conversation and the times of the snapshot
-- are views that no rule reads.
use tejun.Prelude.{
  String, Bool, false, Option, none, some, List, ◌==◌, ◌&&◌, ◌||◌, ltb, map, text_lt, if◌then◌else◌,
}
use tejun.Sql.Table.{find, exists, select_where, order_by}
use tejun.Database.{Db}
use tejun.Database.Rows.{
  AiStatus, HumanStatus, ExecutionStatus, BlobStatus, Execution, Check, Evidence, Blob,
}
use tejun.Database.Ledger.{Receipt, Stored}
use tejun.Domain.Readiness as Readiness

abbrev pub ai_status_text : AiStatus → String
ai_status_text AiStatus.pending = "pending"
ai_status_text AiStatus.queued = "queued"
ai_status_text AiStatus.running = "running"
ai_status_text AiStatus.completed = "completed"
ai_status_text AiStatus.failed = "failed"

abbrev pub human_status_text : HumanStatus → String
human_status_text HumanStatus.pending = "pending"
human_status_text HumanStatus.completed = "completed"

abbrev pub execution_status_text : ExecutionStatus → String
execution_status_text ExecutionStatus.active = "active"
execution_status_text ExecutionStatus.completed = "completed"
execution_status_text ExecutionStatus.cancelled = "cancelled"

abbrev pub blob_status_text : BlobStatus → String
blob_status_text BlobStatus.pending = "pending"
blob_status_text BlobStatus.available = "available"
blob_status_text BlobStatus.corrupt = "corrupt"

abbrev pub is_pending_evidence : String → Stored → Bool
is_pending_evidence id (Stored.pending_evidence waiting) = waiting == id
is_pending_evidence id _ = false

-- COALESCE(b.status, 'available') of the LEFT JOIN to evidence_blobs.
abbrev pub joined_status : Option Blob → String
joined_status none = "available"
joined_status (some b) = blob_status_text b.status

abbrev pub blob_status : Option String → List Blob → String
blob_status none blobs = "available"
blob_status (some hash) blobs = joined_status (find (λ (b : Blob). b.hash == hash) blobs)

-- CASE WHEN o.operation_id IS NOT NULL THEN 'pending' ELSE COALESCE(b.status, 'available') END
abbrev pub evidence_status : Db → Evidence → String
evidence_status db v =
    if exists
      (λ (r : Receipt). r.scope == "evidence_pending" && is_pending_evidence v.evidence_id r.result)
      db.receipts
    then "pending"
    else blob_status v.blob_hash db.blobs

-- ORDER BY v.created_at, v.evidence_id
abbrev pub evidence_before : Evidence → Evidence → Bool
evidence_before v w =
    text_lt v.created_at w.created_at
    || (v.created_at == w.created_at && text_lt v.evidence_id w.evidence_id)

abbrev pub execution_evidence : String → Db → List Evidence
execution_evidence execution_id db =
    order_by evidence_before
      (select_where (λ (v : Evidence). v.execution_id == execution_id) db.evidence)

-- WHERE execution_id = ? ORDER BY sequence
abbrev pub execution_checks : String → Db → List Check
execution_checks execution_id db =
    order_by (λ (c d : Check). ltb c.sequence d.sequence)
      (select_where (λ (c : Check). c.execution_id == execution_id) db.checks)

-- The rows that the loop over the evidence adds to a check: check_id is a key within an execution.
abbrev pub evidence_of : Check → Db → List Evidence
evidence_of c db =
    select_where (λ (v : Evidence). v.check_id == c.check_id) (execution_evidence c.execution_id db)

abbrev pub snapshot_check : Db → Check → Readiness.Check
snapshot_check db c = record {
  id = c.check_id;
  ai_required = c.ai_required;
  human_required = c.human_required;
  ai_status = ai_status_text c.ai_status;
  human_status = human_status_text c.human_status;
  human_evidence_requirement = c.human_evidence_requirement;
  evidence =
      map
        (λ (v : Evidence). record { actor = v.actor; kind = v.kind; status = evidence_status db v })
        (evidence_of c db);
}

abbrev pub snapshot_of : Execution → Db → Readiness.Snapshot
snapshot_of e db = record {
  status = execution_status_text e.status;
  checks = map (snapshot_check db) (execution_checks e.execution_id db);
}
