-- ===== src/Runner.antt =====
-- ExecutionRunner of internal/application/execution_run.go.
pub mod Turn
pub mod Clients
pub mod Ended
mod Tests
