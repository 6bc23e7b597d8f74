-- ===== src/Apply.antt =====
-- apps/config-agent/src/changes/applyCoordinator.ts and applyStateMachine.ts: how the agent applies
-- a staged change to the configuration sources of an application, and how it goes back to the
-- snapshot when a step fails. What the agent calls is a parameter that may answer or throw at
-- every call.
pub mod Machine
pub mod Model
pub mod Writes
pub mod Grouping
pub mod Steps
pub mod Plain
pub mod Quiet
pub mod Meets
pub mod Conditions
pub mod Safety
pub mod Rollback
pub mod Journal
pub mod Coordinator
mod Tests
