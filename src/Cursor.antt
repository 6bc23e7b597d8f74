-- ===== src/Cursor.antt =====
-- The opaque tokens of the database explorer (apps/sql-worker/src/explorer/cursorCodec.ts): cursors
-- of pages and references to rows, sealed under a key and bound to a relation.
pub mod Json
pub mod Budget
pub mod Value
pub mod Codec
mod Tests
