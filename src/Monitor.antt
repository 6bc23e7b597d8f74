-- ===== src/Monitor.antt =====
-- The collector's state machine of monitors (apps/web/src/server/collector/statusMachine.ts): from
-- the stored samples of a monitor and a new one, the level, the transition to report, and whether
-- the condition itself is healthy. Floating-point numbers are a parameter, `Numbers`; a time is
-- what `Date.parse` gives, counted in milliseconds from the earliest date.
pub mod Sample
pub mod Window
pub mod Resources
pub mod Choice
pub mod Infrastructure
pub mod Evaluate
pub mod Transitions
pub mod Recovery
mod Tests
