-- ===== src/Procedure.antt =====
-- ProcedureRepository (internal/adapter/sqlite/procedure.go and procedure_revision.go): drafts, their
-- completion, and the queue of the revisions that an agent writes.
pub mod Codec
pub mod Statements
pub mod Draft
pub mod Complete
pub mod Revision
pub mod Operations
pub mod Versions
pub mod Replay
pub mod Pending
pub mod Sound
pub mod Bounds
pub mod ReadsBack
pub mod Tests
