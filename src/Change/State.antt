-- ===== src/Change/State.antt =====
-- The states of a change, its events and snapshots, and the table of legal transitions
-- (apps/api/src/modules/variables/changeStateMachine.ts).
use nancy_man.Base.{
  ℕ, Text, Bool, true, false, List, [], ◌∷◌, Option, ◌≡◌, refl, ap, ◌∙◌, sym, ◌==◌, ==_iff, any,
}

pub data ChangeState : Type 0 where
  draft validating invalid ready saved applying snapshotted written action_running : ChangeState
  health_checking completed rolling_back rolled_back rollback_failed cancelled : ChangeState
  expired : ChangeState

abbrev pub change_states : List ChangeState
change_states =
    draft ∷ validating ∷ invalid ∷ ready ∷ saved ∷ applying ∷ snapshotted ∷ written ∷ action_running
    ∷ health_checking ∷ completed ∷ rolling_back ∷ rolled_back ∷ rollback_failed ∷ cancelled
    ∷ expired ∷ []

-- A number for each state, to compare by.
abbrev pub tag : ChangeState → ℕ
tag draft = 0
tag validating = 1
tag invalid = 2
tag ready = 3
tag saved = 4
tag applying = 5
tag snapshotted = 6
tag written = 7
tag action_running = 8
tag health_checking = 9
tag completed = 10
tag rolling_back = 11
tag rolled_back = 12
tag rollback_failed = 13
tag cancelled = 14
tag expired = 15

-- `===` on states.
unfoldable pub same_state : ChangeState → ChangeState → Bool
same_state s t = tag s == tag t

unfoldable pub includes : List ChangeState → ChangeState → Bool
unfolding same_state
includes ss t = any (λ s. same_state s t) ss

abbrev pub terminal_change_states : List ChangeState
terminal_change_states =
    invalid ∷ completed ∷ rolled_back ∷ rollback_failed ∷ expired ∷ cancelled ∷ []

abbrev pub legal_transitions : ChangeState → List ChangeState
legal_transitions draft = validating ∷ cancelled ∷ expired ∷ []
legal_transitions validating = invalid ∷ ready ∷ []
legal_transitions invalid = []
legal_transitions ready = saved ∷ cancelled ∷ expired ∷ []
legal_transitions saved = applying ∷ cancelled ∷ expired ∷ []
legal_transitions applying = snapshotted ∷ rolling_back ∷ []
legal_transitions snapshotted = written ∷ rolling_back ∷ []
legal_transitions written = action_running ∷ rolling_back ∷ []
legal_transitions action_running = health_checking ∷ rolling_back ∷ []
legal_transitions health_checking = completed ∷ rolling_back ∷ []
legal_transitions completed = []
legal_transitions rolling_back = rolled_back ∷ rollback_failed ∷ []
legal_transitions rolled_back = []
legal_transitions rollback_failed = []
legal_transitions cancelled = []
legal_transitions expired = []

pub record ChangeTransitionEvent : Type 0 where
  pub transition_id : Text
  pub event_id : Text
  pub from : ChangeState
  pub to : ChangeState
  pub sequence : ℕ
  pub actor_user_id : Text
  pub occurred_at : Text

pub record ChangeStateSnapshot : Type 0 where
  pub change_id : Text
  pub application_id : Text
  pub state : ChangeState
  pub version : ℕ
  pub events : List ChangeTransitionEvent
  pub supersedes_change_id : Option Text
  pub actor_user_id : Option Text

pub data ChangeError : Type 0 where
  id_invalid version_invalid state_invalid transition_id_duplicate event_id_duplicate : ChangeError
  sequence_not_monotonic event_transition_invalid sequence_invalid chain_invalid : ChangeError
  state_event_mismatch version_exhausted transition_id_invalid idempotency_conflict : ChangeError
  version_conflict transition_terminal transition_illegal input_invalid : ChangeError
  timestamp_invalid supersedes_self application_mismatch supersedes_state_invalid : ChangeError
  application_invalid actor_invalid : ChangeError

-- `Number.MAX_SAFE_INTEGER`; `Number.isSafeInteger` at a natural number.
abbrev pub max_safe_integer : ℕ
max_safe_integer = 9007199254740991

-- The inverse of `tag`.
state_of : ℕ → ChangeState
state_of n = pick n change_states
  where
    pick : ℕ → List ChangeState → ChangeState
    pick n [] = expired
    pick n (s ∷ ss) = pick_one (n == tag s) s (pick n ss)
      where
        pick_one : Bool → ChangeState → ChangeState → ChangeState
        pick_one true s t = s
        pick_one false s t = t

state_of-tag : (s : ChangeState) → state_of (tag s) ≡ s
unfolding state_of
state_of-tag draft = refl
state_of-tag _ = refl

pub same_state-eq : (s t : ChangeState) → same_state s t ≡ true → s ≡ t
unfolding same_state
same_state-eq s t h =
    sym (state_of-tag s) ∙ ap state_of ((==_iff (tag s) (tag t)).0 h) ∙ state_of-tag t

pub same_state_refl : (s : ChangeState) → same_state s s ≡ true
unfolding same_state
same_state_refl s = (==_iff (tag s) (tag s)).1 refl

pub includes-change_states : (s : ChangeState) → includes change_states s ≡ true
unfolding includes
includes-change_states draft = refl
includes-change_states _ = refl

-- A terminal state has no legal transition.
pub terminal-stuck :
    (s t : ChangeState)
    → includes terminal_change_states s ≡ true
    → includes (legal_transitions s) t ≡ true
    → ⊥
unfolding includes
terminal-stuck draft t h k = cc
terminal-stuck _ t h k = cc
