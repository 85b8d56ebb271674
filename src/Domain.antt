-- ===== src/Domain.antt =====
-- The rules of internal/domain: values, and functions on them without a state.
pub mod Readiness
pub mod Project
pub mod Integrity
pub mod Connection
mod Tests
