-- ===== src/Change/Transition.antt =====
-- `transitionChange`: one step of a change, with replay detection and optimistic versions
-- (apps/api/src/modules/variables/changeStateMachine.ts). `Date.parse` is a parameter, of which
-- the code asks whether its result is finite.
pub mod Effects
pub mod Validity
use nancy_man.Base.{
  ℕ, ◌+◌, Text, Bool, [], ◌∷◌, ◌++◌, Option, some, none, leb, ◌==◌, not, ◌&&◌, ◌||◌, Result, ok,
  err, ◌>>◌, throw_if, same, is_empty, find, is_uuid, if◌then◌else◌,
}
use nancy_man.Change.State.{
  ChangeState, ChangeTransitionEvent, ChangeStateSnapshot, ChangeError, includes, legal_transitions,
  terminal_change_states, same_state, max_safe_integer, transition_id_invalid, idempotency_conflict,
  version_conflict, transition_terminal, transition_illegal, input_invalid, timestamp_invalid,
}
use nancy_man.Change.Checked.{validate_snapshot}

-- `sameEvent`, which does not compare the sequence.
unfoldable pub same_event : ChangeTransitionEvent → ChangeTransitionEvent → Bool
same_event left right =
    same left.transition_id right.transition_id
    && same left.event_id right.event_id
    && same_state left.from right.from
    && same_state left.to right.to
    && same left.actor_user_id right.actor_user_id
    && same left.occurred_at right.occurred_at

pub record TransitionInput : Type 0 where
  pub snapshot : ChangeStateSnapshot
  pub to : ChangeState
  pub expected_version : ℕ
  pub transition_id : Text
  pub event_id : Text
  pub actor_user_id : Text
  pub occurred_at : Text

-- The predicate of `events.find`.
abbrev pub has_id : TransitionInput → ChangeTransitionEvent → Bool
has_id input event =
    same event.transition_id input.transition_id || same event.event_id input.event_id

-- `requested`, built to be compared with an event that carries one of the ids.
abbrev pub requested : TransitionInput → ChangeTransitionEvent → ChangeTransitionEvent
requested input existing = record {
  transition_id = input.transition_id;
  event_id = input.event_id;
  from = existing.from;
  to = input.to;
  sequence = existing.sequence;
  actor_user_id = input.actor_user_id;
  occurred_at = input.occurred_at;
}

unfoldable pub replay :
    TransitionInput → ChangeTransitionEvent → Result ChangeError ChangeStateSnapshot
replay input existing =
    if not (same_state existing.to input.to)
      || (same existing.transition_id input.transition_id
          && not (same_event existing (requested input existing)))
    then err idempotency_conflict
    else ok input.snapshot

-- The event that the step records.
abbrev pub new_event : TransitionInput → ChangeTransitionEvent
new_event input = record {
  transition_id = input.transition_id;
  event_id = input.event_id;
  from = input.snapshot.state;
  to = input.to;
  sequence = input.snapshot.version + 1;
  actor_user_id = input.actor_user_id;
  occurred_at = input.occurred_at;
}

-- The snapshot that the step returns.
abbrev pub advanced : TransitionInput → ChangeStateSnapshot
advanced input = record input.snapshot {
  state = input.to;
  version = input.snapshot.version + 1;
  events = input.snapshot.events ++ new_event input ∷ [];
}

-- What follows the search, when no event carries one of the ids.
unfoldable pub advance : (Text → Bool) → TransitionInput → Result ChangeError ChangeStateSnapshot
advance date_is_finite input = do
  throw_if (not (input.expected_version == input.snapshot.version)) version_conflict
  throw_if (includes terminal_change_states input.snapshot.state) transition_terminal
  throw_if (not (includes (legal_transitions input.snapshot.state) input.to)) transition_illegal
  throw_if (is_empty input.actor_user_id || not (leb input.expected_version max_safe_integer))
      input_invalid
  throw_if (not (date_is_finite input.occurred_at)) timestamp_invalid
  ok (advanced input)

abbrev pub replay_or_advance :
    (Text → Bool)
    → TransitionInput
    → Option ChangeTransitionEvent
    → Result ChangeError ChangeStateSnapshot
replay_or_advance date_is_finite input (some existing) = replay input existing
replay_or_advance date_is_finite input none = advance date_is_finite input

unfoldable pub transition_change :
    (Text → Bool) → TransitionInput → Result ChangeError ChangeStateSnapshot
transition_change date_is_finite input = do
  throw_if (not (is_uuid input.transition_id) || not (is_uuid input.event_id)) transition_id_invalid
  validate_snapshot input.snapshot
  replay_or_advance date_is_finite input (find (has_id input) input.snapshot.events)
