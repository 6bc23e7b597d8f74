-- ===== src/Explorer.antt =====
-- The database explorer of the SQL worker (apps/sql-worker/src/explorer): the SQL text that it
-- builds from a request.
pub mod Identifier
pub mod Columns
pub mod Filter
pub mod Query
mod Tests
