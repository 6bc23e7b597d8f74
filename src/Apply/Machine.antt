-- ===== src/Apply/Machine.antt =====
-- apps/config-agent/src/changes/applyStateMachine.ts: the machine that a run steps through. A state
-- is one of the nine of the type, so the lookups of `transitions` by an unknown state have no
-- counterpart.
use nancy_man.Base.{
  ap, ℕ, ◌+◌, Text, Bool, true, false, List, [], ◌∷◌, Option, some, none, ◌≡◌, refl, ◌⊎◌, inl, inr,
  arith, Result, ok, ◌>>◌, throw_if, throw_if-passes, is_empty, same, same_refl, any, not, ◌==◌,
  Option-cases, if◌then◌else◌, ok-injective, subst, sym,
}

pub data ApplyState : Type 0 where
  applying snapshotted written action_running health_checking completed : ApplyState
  rolling_back rolled_back rollback_failed : ApplyState

abbrev pub place : ApplyState → ℕ
place applying = 0
place snapshotted = 1
place written = 2
place action_running = 3
place health_checking = 4
place completed = 5
place rolling_back = 6
place rolled_back = 7
place rollback_failed = 8

abbrev pub same_place : ApplyState → ApplyState → Bool
same_place s t = place s == place t

pub data MachineError : Type 0 where
  state_invalid state_terminal machine_transition_invalid event_replay_conflict : MachineError

abbrev pub transitions : ApplyState → List ApplyState
transitions applying = snapshotted ∷ rolling_back ∷ []
transitions snapshotted = written ∷ rolling_back ∷ []
transitions written = action_running ∷ rolling_back ∷ []
transitions action_running = health_checking ∷ rolling_back ∷ []
transitions health_checking = completed ∷ rolling_back ∷ []
transitions completed = []
transitions rolling_back = rolled_back ∷ rollback_failed ∷ []
transitions rolled_back = []
transitions rollback_failed = []

abbrev pub terminal : List ApplyState
terminal = completed ∷ rolled_back ∷ rollback_failed ∷ []

-- The variables of the closure; the latest event stands first in the map.
pub record Machine : Type 0 where
  pub current : ApplyState
  pub sequence : ℕ
  pub event_states : List (Text × ApplyState)

abbrev pub create_apply_state_machine : ApplyState → Machine
create_apply_state_machine initial_state = record {
  current = initial_state;
  sequence = 0;
  event_states = [];
}

-- `eventStates.get`.
abbrev pub event_state : Text → List (Text × ApplyState) → Option ApplyState
event_state event_id [] = none
event_state event_id (e ∷ es) = if same e.0 event_id then some e.1 else event_state event_id es

abbrev pub moved : Machine → ApplyState → Text → Machine
moved machine next event_id = record {
  current = next;
  sequence = machine.sequence + 1;
  event_states = (event_id, next) ∷ machine.event_states;
}

-- What follows the lookup of the event.
unfoldable pub move : Machine → ApplyState → Text → Option ApplyState → Result MachineError Machine
move machine next event_id (some replayed) = do
  throw_if (not (same_place replayed next)) event_replay_conflict
  ok machine
move machine next event_id none = do
  throw_if (any (same_place machine.current) terminal) state_terminal
  throw_if (not (any (same_place next) (transitions machine.current))) machine_transition_invalid
  ok (moved machine next event_id)

unfoldable pub transition : Machine → ApplyState → Text → Result MachineError Machine
transition machine next event_id = do
  throw_if (is_empty event_id) state_invalid
  move machine next event_id (event_state event_id machine.event_states)

-- A step that is no replay: a legal one, from a state that is not terminal. The machine is then in the
-- next state, has counted one step more, and holds the event before those of earlier.
pub record IsMove (machine : Machine) (next : ApplyState) (event_id : Text) (machine' : Machine)
    : Type 0 where
  pub unseen : event_state event_id machine.event_states ≡ none
  pub running : any (same_place machine.current) terminal ≡ false
  pub legal : any (same_place next) (transitions machine.current) ≡ true
  pub moves : machine' ≡ moved machine next event_id
  pub enters : machine'.current ≡ next
  pub counts : machine'.sequence ≡ machine.sequence + 1
  pub records : machine'.event_states ≡ (event_id, next) ∷ machine.event_states

-- A replay: the event is recorded, with this state, and the machine stays as it is.
pub record IsReplayed (machine : Machine) (next : ApplyState) (event_id : Text) (machine' : Machine)
    : Type 0 where
  pub recorded :
      (s : ApplyState) × (event_state event_id machine.event_states ≡ some s)
      × (same_place s next ≡ true)
  pub stays : machine' ≡ machine

move-some :
    (machine machine' : Machine) (next s : ApplyState) (event_id : Text)
    → move machine next event_id (some s) ≡ ok machine'
    → (same_place s next ≡ true) × (machine' ≡ machine)
unfolding move
move-some machine machine' next s event_id h =
    let (same_state, result) =
      throw_if-passes (not (same_place s next)) event_replay_conflict (ok machine) machine' h in
    (ground arith, sym (ok-injective machine machine' result))

move-none :
    (machine machine' : Machine) (next : ApplyState) (event_id : Text)
    → move machine next event_id none ≡ ok machine'
    → (any (same_place machine.current) terminal ≡ false)
      × (any (same_place next) (transitions machine.current) ≡ true)
      × (machine' ≡ moved machine next event_id)
unfolding move
move-none machine machine' next event_id h =
    let checked =
      throw_if (not (any (same_place next) (transitions machine.current)))
        machine_transition_invalid
      >> ok (moved machine next event_id) in
    let (running, rest) =
      throw_if-passes (any (same_place machine.current) terminal) state_terminal checked machine'
        h in
    let (legal, result) =
      throw_if-passes (not (any (same_place next) (transitions machine.current)))
        machine_transition_invalid (ok (moved machine next event_id)) machine' rest in
    (running, ground arith, sym (ok-injective (moved machine next event_id) machine' result))

-- A step that succeeds either replays an event that is recorded with the same state, and leaves the
-- machine as it is, or is legal, does not leave a terminal state, counts one and records its event.
pub transition_lem :
    (machine machine' : Machine) (next : ApplyState) (event_id : Text)
    → transition machine next event_id ≡ ok machine'
    → IsMove machine next event_id machine' ⊎ IsReplayed machine next event_id machine'
unfolding transition
transition_lem machine machine' next event_id h =
    let found = event_state event_id machine.event_states in
    let (_, after) =
      throw_if-passes (is_empty event_id) state_invalid (move machine next event_id found) machine'
        h in
    elim (Option-cases found) [
      | inl unseen ↦ inl (
          let (running, legal, moves) =
            move-none machine machine' next event_id (rw unseen at after) in
          record {
            unseen = unseen;
            running = running;
            legal = legal;
            moves = moves;
            enters = ap (λ m. m.current) moves;
            counts = ap (λ m. m.sequence) moves;
            records = ap (λ m. m.event_states) moves;
          })
      | inr (s, seen) ↦ inr (
          let (same_state, stays) = move-some machine machine' next s event_id (rw seen at after) in
          record { recorded = (s, seen, same_state); stays = stays })
    ]

event_state-moved :
    (machine : Machine) (next : ApplyState) (event_id : Text)
    → event_state event_id (moved machine next event_id).event_states ≡ some next
event_state-moved machine next event_id = ground (arith, same_refl event_id)

same_place_refl : (s : ApplyState) → same_place s s ≡ true
same_place_refl applying = refl
same_place_refl _ = refl

-- A step that succeeded, taken again with the same event, succeeds and changes nothing.
pub transition_retry :
    (machine machine' : Machine) (next : ApplyState) (event_id : Text)
    → transition machine next event_id ≡ ok machine'
    → transition machine' next event_id ≡ ok machine'
unfolding transition move
transition_retry machine machine' next event_id h =
    elim (transition_lem machine machine' next event_id h) [
      | inl m ↦
          subst (λ q. transition q next event_id ≡ ok q) (sym m.moves)
            (let (some_id, _) =
                throw_if-passes (is_empty event_id) state_invalid
                  (move machine next event_id (event_state event_id machine.event_states)) machine'
                  h in
              rw (some_id, event_state-moved machine next event_id, same_place_refl next))
      | inr r ↦
          subst (λ q. transition q next event_id ≡ ok q) (sym r.stays)
            (subst (λ q. transition machine next event_id ≡ ok q) r.stays h)
    ]
