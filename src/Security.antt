-- ===== src/Security.antt =====
-- The column policy of the database explorer (packages/security/src/database/columnPolicy.ts):
-- which columns are blocked or personal, and how personal values are masked.
pub mod Search
pub mod Words
pub mod Tables
pub mod Classify
pub mod Mask
mod Tests
