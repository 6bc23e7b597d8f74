-- ===== src/Wire.antt =====
-- The frames that the services exchange: four bytes with the length of a body, then the body, which
-- is JSON. The SQL worker (apps/sql-worker/src/protocol/framing.ts) and the configuration contracts
-- (packages/config-contracts/src/framing.ts) each have a decoder.
pub mod Bytes
pub mod Frames
pub mod Stream
pub mod Settle
mod Tests
