-- ===== src/Execution.antt =====
-- The runs of an execution: ExecutionRepository of internal/adapter/sqlite/execution_run.go.
pub mod Statements
pub mod Accept
pub mod Claim
pub mod Checks
pub mod Complete
pub mod Recover
pub mod Snapshot
pub mod Generate
pub mod Cancel
pub mod Operations
pub mod Replay
pub mod Outbox
pub mod Lifecycle
pub mod Tests
