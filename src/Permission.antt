-- ===== src/Permission.antt =====
-- The answers to an agent's permission requests: ExecutionRepository of internal/adapter/sqlite/
-- execution_permission.go and ExecutionPermission of internal/application/execution_permission.go.
pub mod Claims
pub mod Answers
pub mod Spent
pub mod Once
pub mod Respond
mod Tests
