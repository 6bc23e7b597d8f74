-- ===== src/Change/Checked/Laws.antt =====
-- Lemmas on the loop of `validateSnapshot`: what an accepted event satisfies, and how the loop runs
-- over a longer list or under a higher version.
use nancy_man.Base.{
  ℕ, ◌≤◌, ◌<◌, Text, true, false, List, [], ◌∷◌, ◌++◌, Option, some, none, ◌≡◌, refl, ◌∙◌, ok,
  member, last?, last?-cons, arith, any, same, inl, inr, >>=-eq-ok, Result-cases,
}
use nancy_man.Change.State.{
  ChangeState, ChangeTransitionEvent, ChangeStateSnapshot, includes, legal_transitions,
  max_safe_integer, includes-change_states,
}
use nancy_man.Change.Checked.{
  Seen, saw, breaks_chain, check_event, check_events, ends_elsewhere, validate_snapshot,
  nothing_seen,
}

-- The conditions under which the loop goes on past an event.
pub record Accepts (version : ℕ) (seen : Seen) (event : ChangeTransitionEvent) : Type 0 where
  pub fresh_transition : member event.transition_id seen.transition_ids ≡ false
  pub fresh_event : member event.event_id seen.event_ids ≡ false
  pub safe : event.sequence ≤ max_safe_integer
  pub rising : seen.previous_sequence < event.sequence
  pub legal : includes (legal_transitions event.from) event.to ≡ true
  pub bounded : event.sequence ≤ version
  pub chained : breaks_chain seen.previous_state event.from ≡ false

module _ (version : ℕ) (seen : Seen) (event : ChangeTransitionEvent) where
  pub check_event-Accepts :
      {seen' : Seen} → check_event version seen event ≡ ok seen' → Accepts version seen event
  unfolding check_event
  check_event-Accepts h = ground arith

  -- The loop keeps what it has compared with.
  pub check_event-saw :
      {seen' : Seen} → check_event version seen event ≡ ok seen' → seen' ≡ saw seen event
  unfolding check_event
  check_event-saw h = ground arith

  pub check_event_of_Accepts :
      Accepts version seen event → check_event version seen event ≡ ok (saw seen event)
  unfolding check_event
  check_event_of_Accepts a =
      ground (arith, includes-change_states event.from, includes-change_states event.to)

-- The loop over a list with one more event at its end.
pub check_events-append :
    (version : ℕ) (seen : Seen) (events : List ChangeTransitionEvent)
    (event : ChangeTransitionEvent) {mid : Seen}
    → check_events version seen events ≡ ok mid
    → Accepts version mid event
    → check_events version seen (events ++ event ∷ []) ≡ ok (saw mid event)
unfolding check_events
check_events-append version seen [] event {mid} h a =
    ground (arith, check_event_of_Accepts version mid event)
check_events-append version seen (e ∷ es) event h a =
    let (next, first, later) = >>=-eq-ok (check_event version seen e) _ h in
    rw first (check_events-append version next es event later a)

-- A higher version accepts no less.
pub check_events_mono :
    (version higher : ℕ) (seen : Seen) (events : List ChangeTransitionEvent) {last : Seen}
    → version ≤ higher
    → check_events version seen events ≡ ok last
    → check_events higher seen events ≡ ok last
unfolding check_events
check_events_mono version higher seen [] le h = h
check_events_mono version higher seen (e ∷ es) le h =
    let (next, first, later) = >>=-eq-ok (check_event version seen e) _ h in
    let a = check_event-Accepts version seen e first in
    let same_next = check_event-saw version seen e first in
    let again : check_event higher seen e ≡ ok (saw seen e) =
      check_event_of_Accepts higher seen e (ground arith) in
    rw again (check_events_mono version higher (saw seen e) es le (rw same_next at later))

-- An id that neither the start of the loop nor an event holds is new at its end.
module _ (id : Text) (version : ℕ) where
  pub check_events-fresh_transition :
      (seen : Seen) (events : List ChangeTransitionEvent) {last : Seen}
      → check_events version seen events ≡ ok last
      → member id seen.transition_ids ≡ false
      → any (λ e. same e.transition_id id) events ≡ false
      → member id last.transition_ids ≡ false
  unfolding check_events member
  check_events-fresh_transition seen [] h m n = ground arith
  check_events-fresh_transition seen (e ∷ es) h m n =
      let (next, first, later) = >>=-eq-ok (check_event version seen e) _ h in
      let same_next = check_event-saw version seen e first in
      check_events-fresh_transition (saw seen e) es (rw same_next at later) (ground arith)
        (ground arith)

  pub check_events-fresh_event :
      (seen : Seen) (events : List ChangeTransitionEvent) {last : Seen}
      → check_events version seen events ≡ ok last
      → member id seen.event_ids ≡ false
      → any (λ e. same e.event_id id) events ≡ false
      → member id last.event_ids ≡ false
  unfolding check_events member
  check_events-fresh_event seen [] h m n = ground arith
  check_events-fresh_event seen (e ∷ es) h m n =
      let (next, first, later) = >>=-eq-ok (check_event version seen e) _ h in
      let same_next = check_event-saw version seen e first in
      check_events-fresh_event (saw seen e) es (rw same_next at later) (ground arith) (ground arith)

-- The state that the last event has left.
abbrev pub state_after : Option ChangeState → Option ChangeTransitionEvent → Option ChangeState
state_after before none = before
state_after before (some event) = some event.to

state_after-last? :
    (before : Option ChangeState) (e : ChangeTransitionEvent) (es : List ChangeTransitionEvent)
    → state_after (some e.to) (last? es) ≡ state_after before (last? (e ∷ es))
state_after-last? before e [] = refl
state_after-last? before e (d ∷ ds) = rw (last?-cons d ds).1

pub check_events-end :
    (version : ℕ) (seen : Seen) (events : List ChangeTransitionEvent) {last : Seen}
    → check_events version seen events ≡ ok last
    → seen.previous_sequence ≤ version
    → (last.previous_sequence ≤ version)
      × (last.previous_state ≡ state_after seen.previous_state (last? events))
unfolding check_events
check_events-end version seen [] h le = ground arith
check_events-end version seen (e ∷ es) h le =
    let (next, first, later) = >>=-eq-ok (check_event version seen e) _ h in
    let same_next = check_event-saw version seen e first in
    let a = check_event-Accepts version seen e first in
    let (bound, state) =
      check_events-end version (saw seen e) es (rw same_next at later) a.bounded in
    (bound, state ∙ state_after-last? seen.previous_state e es)

-- What a snapshot that passes the check satisfies, and what suffices to pass it.
pub record Checks (snapshot : ChangeStateSnapshot) (seen : Seen) : Type 0 where
  pub loop : check_events snapshot.version nothing_seen snapshot.events ≡ ok seen
  pub version_safe : snapshot.version < max_safe_integer
  pub ending : ends_elsewhere (last? snapshot.events) snapshot.state ≡ false

pub validate_snapshot-Checks :
    (snapshot : ChangeStateSnapshot)
    → validate_snapshot snapshot ≡ ok tt
    → (seen : Seen) × Checks snapshot seen
unfolding validate_snapshot
validate_snapshot-Checks snapshot h =
    elim (Result-cases (check_events snapshot.version nothing_seen snapshot.events)) [
      | inl (seen, looped) ↦
          (seen, record { loop = looped; version_safe = ground arith; ending = ground arith })
      | inr (e, failed) ↦ absurd (ground arith)
    ]

pub validate_snapshot_of_Checks :
    (snapshot : ChangeStateSnapshot) {seen : Seen}
    → Checks snapshot seen
    → validate_snapshot snapshot ≡ ok tt
unfolding validate_snapshot
validate_snapshot_of_Checks snapshot c = ground (arith, includes-change_states snapshot.state)
