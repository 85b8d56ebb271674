-- ===== src/Project.antt =====
-- ProjectRepository (internal/adapter/sqlite/project.go): creation, copies, archiving and deletion of
-- projects.
pub mod Statements
pub mod Create
pub mod Archive
pub mod Links
pub mod Delete
pub mod Stuck
pub mod Inserts
pub mod Copies
pub mod Spares
pub mod Tests
