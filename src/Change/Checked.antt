-- ===== src/Change/Checked.antt =====
-- `validateSnapshot`: the check that every use of a snapshot starts with
-- (apps/api/src/modules/variables/changeStateMachine.ts).
pub mod Laws
use nancy_man.Base.{
  ℕ, Text, Bool, false, List, [], ◌∷◌, Option, some, none, leb, ltb, ◌==◌, not, ◌||◌, Result, ok,
  ◌>>=◌, ◌>>◌, throw_if, member, last?,
}
use nancy_man.Change.State.{
  ChangeState, ChangeTransitionEvent, ChangeStateSnapshot, ChangeError, change_states, includes,
  legal_transitions, same_state, max_safe_integer, version_invalid, state_invalid,
  transition_id_duplicate, event_id_duplicate, sequence_not_monotonic, event_transition_invalid,
  sequence_invalid, chain_invalid, state_event_mismatch, version_exhausted,
}

-- The variables of the loop.
pub record Seen : Type 0 where
  pub transition_ids : List Text
  pub event_ids : List Text
  pub previous_sequence : ℕ
  pub previous_state : Option ChangeState

abbrev pub nothing_seen : Seen
nothing_seen = record {
  transition_ids = [];
  event_ids = [];
  previous_sequence = 0;
  previous_state = none;
}

abbrev pub breaks_chain : Option ChangeState → ChangeState → Bool
breaks_chain none from = false
breaks_chain (some s) from = not (same_state from s)

abbrev pub saw : Seen → ChangeTransitionEvent → Seen
saw seen event = record {
  transition_ids = event.transition_id ∷ seen.transition_ids;
  event_ids = event.event_id ∷ seen.event_ids;
  previous_sequence = event.sequence;
  previous_state = some event.to;
}

-- One round of the loop.
unfoldable pub check_event : ℕ → Seen → ChangeTransitionEvent → Result ChangeError Seen
check_event version seen event = do
  throw_if (member event.transition_id seen.transition_ids) transition_id_duplicate
  throw_if (member event.event_id seen.event_ids) event_id_duplicate
  throw_if (not (leb event.sequence max_safe_integer) || leb event.sequence seen.previous_sequence)
      sequence_not_monotonic
  throw_if (not (includes change_states event.from) || not (includes change_states event.to))
      state_invalid
  throw_if (not (includes (legal_transitions event.from) event.to)) event_transition_invalid
  throw_if (ltb version event.sequence) sequence_invalid
  throw_if (breaks_chain seen.previous_state event.from) chain_invalid
  ok (saw seen event)

unfoldable pub check_events : ℕ → Seen → List ChangeTransitionEvent → Result ChangeError Seen
check_events version seen [] = ok seen
check_events version seen (event ∷ events) = do
  seen' ← check_event version seen event
  check_events version seen' events

abbrev pub ends_elsewhere : Option ChangeTransitionEvent → ChangeState → Bool
ends_elsewhere none state = false
ends_elsewhere (some event) state = not (same_state event.to state)

unfoldable pub validate_snapshot : ChangeStateSnapshot → Result ChangeError (Unit {0})
validate_snapshot snapshot = do
  throw_if (not (leb snapshot.version max_safe_integer)) version_invalid
  throw_if (not (includes change_states snapshot.state)) state_invalid
  seen ← check_events snapshot.version nothing_seen snapshot.events
  throw_if (ends_elsewhere (last? snapshot.events) snapshot.state) state_event_mismatch
  throw_if (snapshot.version == max_safe_integer) version_exhausted
  ok tt
