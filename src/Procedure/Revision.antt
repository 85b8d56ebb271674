-- ===== src/Procedure/Revision.antt =====
-- procedure_revision.go: an agent rewrites a draft. A revision is queued with its turn; the worker
-- claims it, and its answer replaces the draft if it is a well-formed document and nobody changed the
-- draft meanwhile.
pub mod Accept
pub mod Claim
pub mod Finish
pub mod Recover
pub mod Cancel
pub mod Outcomes
pub mod Adopts
