-- ===== src/Change/Transition/Validity.antt =====
-- `transitionChange` keeps snapshots valid, and answers a repeated request as it answered the first
-- (apps/api/src/modules/variables/changeStateMachine.ts).
use nancy_man.Base.{
  ◌+◌, Text, Bool, true, false, List, [], ◌∷◌, ◌++◌, Option, some, none, ◌≡◌, refl, inl, inr, ◌≢◌,
  ok, find, any, arith, same, is_uuid, subst, last?, last?-append, same_refl, member,
}
use nancy_man.Change.State.{
  ChangeState, ChangeTransitionEvent, ChangeStateSnapshot, max_safe_integer, same_state-eq,
  same_state_refl,
}
use nancy_man.Change.Checked.{Seen, nothing_seen, breaks_chain, ends_elsewhere, validate_snapshot}
use nancy_man.Change.Checked.Laws.{
  Accepts, Checks, state_after, check_events-append, check_events_mono, check_events-end,
  check_events-fresh_transition, check_events-fresh_event, validate_snapshot-Checks,
  validate_snapshot_of_Checks,
}
use nancy_man.Change.Transition.{
  TransitionInput, has_id, replay, same_event, advanced, transition_change, new_event,
}
use nancy_man.Change.Transition.Effects.{
  Admits, transition_change_effect, transition_change-validates,
}

find-none_transition :
    (input : TransitionInput) (es : List ChangeTransitionEvent)
    → find (has_id input) es ≡ none
    → any (λ e. same e.transition_id input.transition_id) es ≡ false
find-none_transition input [] h = refl
find-none_transition input (e ∷ es) h = ground (arith, find-none_transition input es)

find-none_event :
    (input : TransitionInput) (es : List ChangeTransitionEvent)
    → find (has_id input) es ≡ none
    → any (λ e. same e.event_id input.event_id) es ≡ false
find-none_event input [] h = refl
find-none_event input (e ∷ es) h = ground (arith, find-none_event input es)

find-append_none :
    (input : TransitionInput) (es : List ChangeTransitionEvent) (e : ChangeTransitionEvent)
    → find (has_id input) es ≡ none
    → has_id input e ≡ true
    → find (has_id input) (es ++ e ∷ []) ≡ some e
find-append_none input [] e h k = ground arith
find-append_none input (d ∷ ds) e h k = ground (arith, find-append_none input ds e)

-- A snapshot's own state continues the chain of its events.
chain-continues :
    (last : Option ChangeTransitionEvent) (state : ChangeState)
    → ends_elsewhere last state ≡ false
    → breaks_chain (state_after none last) state ≡ false
chain-continues none state h = refl
chain-continues (some e) state h = ground (arith, same_state-eq e.to state, same_state_refl state)

module _ (date_is_finite : Text → Bool) (input : TransitionInput) where
  new_event-Accepts :
      (seen : Seen)
      → Checks input.snapshot seen
      → find (has_id input) input.snapshot.events ≡ none
      → Admits date_is_finite input
      → Accepts (input.snapshot.version + 1) seen (new_event input)
  unfolding member
  new_event-Accepts seen c fresh a =
      let events = input.snapshot.events in
      let version = input.snapshot.version in
      let (low, before) = check_events-end version nothing_seen events c.loop (omega arith) in
      record {
        fresh_transition =
            check_events-fresh_transition input.transition_id version nothing_seen events c.loop
              refl (find-none_transition input events fresh);
        fresh_event =
            check_events-fresh_event input.event_id version nothing_seen events c.loop refl
              (find-none_event input events fresh);
        safe = omega (arith, c.version_safe);
        rising = omega (arith, low);
        legal = a.legal;
        bounded = omega arith;
        chained = rw before (chain-continues (last? events) input.snapshot.state c.ending);
      }

  advanced-validates :
      find (has_id input) input.snapshot.events ≡ none
      → Admits date_is_finite input
      → validate_snapshot input.snapshot ≡ ok tt
      → input.snapshot.version + 1 ≢ max_safe_integer
      → validate_snapshot (advanced input) ≡ ok tt
  advanced-validates fresh a valid room =
      let events = input.snapshot.events in
      let version = input.snapshot.version in
      let (seen, c) = validate_snapshot-Checks input.snapshot valid in
      let grown =
        check_events_mono version (version + 1) nothing_seen events (omega arith) c.loop in
      validate_snapshot_of_Checks (advanced input) (record {
        loop =
            check_events-append (version + 1) nothing_seen events (new_event input) grown
              (new_event-Accepts seen c fresh a);
        version_safe = omega (arith, c.version_safe);
        ending = rw (last?-append events (new_event input), same_state_refl input.to);
      })

  -- A step from a valid snapshot gives a valid snapshot, until the version numbers run out.
  pub transition_change-valid :
      {result : ChangeStateSnapshot}
      → transition_change date_is_finite input ≡ ok result
      → result.version ≢ max_safe_integer
      → validate_snapshot result ≡ ok tt
  transition_change-valid {result} h room =
      let valid = transition_change-validates date_is_finite input h in
      elim (transition_change_effect date_is_finite input h) [
        | inl (e, found, unchanged) ↦ rw unchanged valid
        | inr (fresh, a, moved) ↦ rw moved (
            advanced-validates fresh a valid
              (subst (λ (r : ChangeStateSnapshot). r.version ≢ max_safe_integer) moved room))
      ]

  replay-new_event :
      replay (record input { snapshot = advanced input }) (new_event input) ≡ ok (advanced input)
  unfolding replay same_event
  replay-new_event = ground (
    arith,
    same_state_refl input.to,
    same_state_refl input.snapshot.state,
    same_refl input.transition_id,
    same_refl input.event_id,
    same_refl input.actor_user_id,
    same_refl input.occurred_at,
  )

  retry-advanced :
      find (has_id input) input.snapshot.events ≡ none
      → is_uuid input.transition_id ≡ true
      → is_uuid input.event_id ≡ true
      → validate_snapshot (advanced input) ≡ ok tt
      → transition_change date_is_finite (record input { snapshot = advanced input })
        ≡ ok (advanced input)
  unfolding transition_change
  retry-advanced fresh t e valid =
      let found =
        find-append_none input input.snapshot.events (new_event input) fresh
          (rw (same_refl input.transition_id)) in
      let again = replay-new_event in ground arith

  ids-are-uuids :
      {result : ChangeStateSnapshot}
      → transition_change date_is_finite input ≡ ok result
      → (is_uuid input.transition_id ≡ true) × (is_uuid input.event_id ≡ true)
  unfolding transition_change
  ids-are-uuids h = ground arith

  -- A request that succeeded, sent again against the snapshot that it gave, succeeds with that same
  -- snapshot, unless the version of that snapshot is the largest safe integer.
  pub transition_change_retry :
      {result : ChangeStateSnapshot}
      → transition_change date_is_finite input ≡ ok result
      → result.version ≢ max_safe_integer
      → transition_change date_is_finite (record input { snapshot = result }) ≡ ok result
  transition_change_retry {result} h room =
      let (t, e) = ids-are-uuids h in
      let valid = transition_change-valid h room in
      elim (transition_change_effect date_is_finite input h) [
        | inl (e, found, unchanged) ↦ rw unchanged (rw unchanged at h)
        | inr (fresh, a, moved) ↦ rw moved (retry-advanced fresh t e (rw moved at valid))
      ]
