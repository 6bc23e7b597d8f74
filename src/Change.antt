-- ===== src/Change.antt =====
-- apps/api/src/modules/variables/changeStateMachine.ts: the life of a configuration change, as the
-- API records it. A snapshot holds the state, its version and the events that led to it. Numbers
-- are natural numbers; a thrown error is `err`.
mod State
pub mod Checked
pub mod Transition
pub mod History
pub mod Supersede
mod Tests
unfoldable pub use State.*
