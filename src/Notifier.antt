-- ===== src/Notifier.antt =====
-- The notifier's decisions (apps/notifier/src/policy/alertPolicy.ts and outbox/scheduleAlerts.ts):
-- which alerts an event of an issue asks for, and to whom they go.
pub mod Policy
pub mod Schedule
mod Tests
