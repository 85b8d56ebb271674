-- ===== src/Sql.antt =====
-- Transactions of database/sql, and the statements that the repositories send to SQLite.
pub mod Tx
pub mod Table
pub mod Keeps
pub mod Commit
pub mod Yields
