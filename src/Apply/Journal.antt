-- ===== src/Apply/Journal.antt =====
-- The events that a run of the coordinator hands to `persistEvent`
-- (apps/config-agent/src/changes/applyCoordinator.ts), against the table of legal transitions of
-- the API (apps/api/src/modules/variables/changeStateMachine.ts).
pub mod Unseen
pub mod Keeps
pub mod InStep
pub mod Emit
pub mod Legal
use nancy_man.Base.{
  ℕ, ◌+◌, ◌≤◌, Bool, true, false, List, [], ◌∷◌, Option, some, none, ◌≡◌, refl, any, All, Text,
}
use nancy_man.Change
use nancy_man.Change.{ChangeState, legal_transitions, includes, same_state}
use nancy_man.Apply.Machine.{
  ApplyState, Machine, applying, snapshotted, written, action_running, health_checking, completed,
  rolling_back, rolled_back, rollback_failed, same_place, transitions,
}
use nancy_man.Apply.Model.{ApplyEvent, Call, persist_event}

-- The state of the change that has the name of a state of the run.
abbrev pub as_change : ApplyState → ChangeState
as_change applying = Change.applying
as_change snapshotted = Change.snapshotted
as_change written = Change.written
as_change action_running = Change.action_running
as_change health_checking = Change.health_checking
as_change completed = Change.completed
as_change rolling_back = Change.rolling_back
as_change rolled_back = Change.rolled_back
as_change rollback_failed = Change.rollback_failed

abbrev pub with_event : Call → List ApplyEvent → List ApplyEvent
with_event (persist_event event) events = event ∷ events
with_event _ events = events

-- The events among the calls, the latest first.
abbrev pub journal : List Call → List ApplyEvent
journal [] = []
journal (c ∷ calls) = with_event c (journal calls)

-- A history by the table of the API, the latest event first: it begins in `APPLYING` with the number
-- 0, the numbers count up by 1, and each step is a legal transition of the change.
abbrev pub IsHistory : List ApplyEvent → Type 0
IsHistory [] = Unit
IsHistory (event ∷ []) = (event.state ≡ applying) × (event.sequence ≡ 0)
IsHistory (event ∷ before ∷ events) =
    (event.sequence ≡ before.sequence + 1)
    × (includes (legal_transitions (as_change before.state)) (as_change event.state) ≡ true)
    × IsHistory (before ∷ events)

-- Each transition of the agent's machine is one of the API's.
pub transitions-legal_transitions :
    (s t : ApplyState)
    → any (same_place t) (transitions s) ≡ includes (legal_transitions (as_change s)) (as_change t)
unfolding includes same_state
transitions-legal_transitions applying applying = refl
transitions-legal_transitions applying _ = refl
transitions-legal_transitions snapshotted applying = refl
transitions-legal_transitions snapshotted _ = refl
transitions-legal_transitions written applying = refl
transitions-legal_transitions written _ = refl
transitions-legal_transitions action_running applying = refl
transitions-legal_transitions action_running _ = refl
transitions-legal_transitions health_checking applying = refl
transitions-legal_transitions health_checking _ = refl
transitions-legal_transitions completed applying = refl
transitions-legal_transitions completed _ = refl
transitions-legal_transitions rolling_back applying = refl
transitions-legal_transitions rolling_back _ = refl
transitions-legal_transitions rolled_back applying = refl
transitions-legal_transitions rolled_back _ = refl
transitions-legal_transitions rollback_failed applying = refl
transitions-legal_transitions rollback_failed _ = refl
