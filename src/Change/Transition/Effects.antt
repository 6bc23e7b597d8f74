-- ===== src/Change/Transition/Effects.antt =====
-- What a call of `transitionChange` that succeeds does
-- (apps/api/src/modules/variables/changeStateMachine.ts).
use nancy_man.Base.{
  ◌+◌, ◌++◌, [], ◌∷◌, ◌||◌, same, Text, Bool, true, false, some, none, ◌≡◌, ◌⊎◌, inl, inr, ok,
  Result-cases, Option-cases, find, arith, is_empty,
}
use nancy_man.Change.State.{
  ChangeTransitionEvent, ChangeStateSnapshot, includes, legal_transitions, terminal_change_states,
  terminal-stuck,
}
use nancy_man.Change.Checked.{validate_snapshot}
use nancy_man.Change.Transition.{
  TransitionInput, has_id, replay, advance, advanced, transition_change,
}

-- The guards of a step that no earlier event carries.
pub record Admits (date_is_finite : Text → Bool) (input : TransitionInput) : Type 0 where
  pub current : input.expected_version ≡ input.snapshot.version
  pub alive : includes terminal_change_states input.snapshot.state ≡ false
  pub legal : includes (legal_transitions input.snapshot.state) input.to ≡ true
  pub actor : is_empty input.actor_user_id ≡ false
  pub dated : date_is_finite input.occurred_at ≡ true

module _ (date_is_finite : Text → Bool) (input : TransitionInput) where
  -- Replayed: an event carries one of the ids, and the snapshot is returned as it was.
  abbrev pub IsReplay : ChangeStateSnapshot → Type 0
  IsReplay result =
      (e : ChangeTransitionEvent) × (find
          (λ d. same d.transition_id input.transition_id || same d.event_id input.event_id)
          input.snapshot.events
        ≡ some e)
      × (result ≡ input.snapshot)

  -- Advanced: no event carries an id, the guards hold, and one event is appended.
  abbrev pub IsAdvance : ChangeStateSnapshot → Type 0
  IsAdvance result =
      (find (λ d. same d.transition_id input.transition_id || same d.event_id input.event_id)
          input.snapshot.events
        ≡ none)
      × Admits date_is_finite input
      × (result ≡ record {
        change_id = input.snapshot.change_id;
        application_id = input.snapshot.application_id;
        state = input.to;
        version = input.snapshot.version + 1;
        events =
            input.snapshot.events
            ++ record {
              transition_id = input.transition_id;
              event_id = input.event_id;
              from = input.snapshot.state;
              to = input.to;
              sequence = input.snapshot.version + 1;
              actor_user_id = input.actor_user_id;
              occurred_at = input.occurred_at;
            }
              ∷ [];
        supersedes_change_id = input.snapshot.supersedes_change_id;
        actor_user_id = input.snapshot.actor_user_id;
      })

  advance-Admits :
      {result : ChangeStateSnapshot}
      → advance date_is_finite input ≡ ok result
      → Admits date_is_finite input × (result ≡ advanced input)
  unfolding advance
  advance-Admits h = ground arith

  replay-eq-ok :
      (e : ChangeTransitionEvent) {result : ChangeStateSnapshot}
      → replay input e ≡ ok result
      → result ≡ input.snapshot
  unfolding replay
  replay-eq-ok e h = ground arith

  pub transition_change-validates :
      {result : ChangeStateSnapshot}
      → transition_change date_is_finite input ≡ ok result
      → validate_snapshot input.snapshot ≡ ok tt
  unfolding transition_change
  transition_change-validates h = elim (Result-cases (validate_snapshot input.snapshot)) [
    | inl (u, p) ↦ ground arith
    | inr (e, p) ↦ absurd (ground arith)
  ]

  -- A call that succeeds either answers a replay, where an event carries the transition id or the
  -- event id, with the unchanged snapshot; or no event does, every guard is met, and the result is the
  -- snapshot with the new state, the next version and one event of the request more.
  pub transition_change_effect :
      {result : ChangeStateSnapshot}
      → transition_change date_is_finite input ≡ ok result
      → IsReplay result ⊎ IsAdvance result
  unfolding transition_change
  transition_change_effect {result} h =
      let valid = transition_change-validates h in
      elim (Option-cases (find (has_id input) input.snapshot.events)) [
        | inl fresh ↦
            let went : advance date_is_finite input ≡ ok result = ground arith in
            inr (fresh, (advance-Admits went).0, (advance-Admits went).1)
        | inr (e, found) ↦
            let went : replay input e ≡ ok result = ground arith in
            inl (e, found, replay-eq-ok e went)
      ]

  -- In a terminal state no request changes the snapshot.
  pub transition_change-terminal :
      {result : ChangeStateSnapshot}
      → includes terminal_change_states input.snapshot.state ≡ true
      → transition_change date_is_finite input ≡ ok result
      → result ≡ input.snapshot
  transition_change-terminal final h = elim (transition_change_effect h) [
    | inl (e, found, unchanged) ↦ unchanged
    | inr (fresh, a, moved) ↦ absurd (terminal-stuck _ _ final a.legal)
  ]
