-- ===== src/Change/History.antt =====
-- What the events of a valid snapshot say of the life that it has had
-- (apps/api/src/modules/variables/changeStateMachine.ts).
use nancy_man.Base.{
  ℕ, ◌+◌, ◌≤◌, ◌<◌, Bool, true, false, List, [], ◌∷◌, Option, some, ◌≡◌, refl, ◌∙◌, ◌⊎◌, ◌≢◌, inl,
  inr, ok, >>=-eq-ok, any, arith, last?, last?-cons, length, not, ap, leb, ◌==◌, ◌&&◌, Bool-cases,
}
use nancy_man.Change.State.{
  ChangeState, ChangeTransitionEvent, ChangeStateSnapshot, includes, legal_transitions, same_state,
  same_state-eq, tag, draft, completed, max_safe_integer,
}
use nancy_man.Change.Checked.{
  Seen, saw, nothing_seen, breaks_chain, check_event, check_events, ends_elsewhere,
  validate_snapshot,
}
use nancy_man.Change.Checked.Laws.{
  check_event-Accepts, check_event-saw, validate_snapshot-Checks, Checks, check_events-end,
}

-- Each event starts where the one before it ended, and takes a legal transition.
abbrev pub IsWalk : ChangeState → List ChangeTransitionEvent → ChangeState → Type 0
IsWalk from [] to = from ≡ to
IsWalk from (e ∷ es) to =
    (e.from ≡ from) × (includes (legal_transitions from) e.to ≡ true) × IsWalk e.to es to

chain-eq : (before from : ChangeState) → breaks_chain (some before) from ≡ false → from ≡ before
chain-eq before from h = same_state-eq from before (ground arith)

check_events-IsWalk :
    (version : ℕ) (seen : Seen) (before final : ChangeState) (es : List ChangeTransitionEvent)
    {end : Seen}
    → seen.previous_state ≡ some before
    → check_events version seen es ≡ ok end
    → end.previous_state ≡ some final
    → IsWalk before es final
unfolding check_events
check_events-IsWalk version seen before final [] p h k = ground arith
check_events-IsWalk version seen before final (e ∷ es) p h k =
    let (next, first, later) = >>=-eq-ok (check_event version seen e) _ h in
    let same_next = check_event-saw version seen e first in
    let a = check_event-Accepts version seen e first in
    let joined = chain-eq before e.from (rw p at a.chained) in
    (
      joined,
      rw joined at a.legal,
      check_events-IsWalk version (saw seen e) e.to final es refl (rw same_next at later) k,
    )

ends-eq :
    (last : Option ChangeTransitionEvent) (state : ChangeState) (e : ChangeTransitionEvent)
    → last ≡ some e
    → ends_elsewhere last state ≡ false
    → e.to ≡ state
ends-eq last state e p h = same_state-eq e.to state (ground arith)

IsWalk-of_Checks :
    (snapshot : ChangeStateSnapshot) (seen : Seen) (e : ChangeTransitionEvent)
    (es : List ChangeTransitionEvent)
    → snapshot.events ≡ e ∷ es
    → Checks snapshot seen
    → IsWalk e.from (e ∷ es) snapshot.state
unfolding check_events
IsWalk-of_Checks snapshot seen e es split c =
    let version = snapshot.version in
    let looped : check_events version nothing_seen (e ∷ es) ≡ ok seen = rw split at c.loop in
    let ending = rw split at c.ending in
    let (next, first, later) = >>=-eq-ok (check_event version nothing_seen e) _ looped in
    let same_next = check_event-saw version nothing_seen e first in
    let a = check_event-Accepts version nothing_seen e first in
    let (final, is_last) = last?-cons e es in
    let (_, left) = check_events-end version nothing_seen (e ∷ es) looped (omega arith) in
    let at_end = ends-eq (last? (e ∷ es)) snapshot.state final is_last ending in
    (
      refl,
      a.legal,
      check_events-IsWalk version (saw nothing_seen e) e.to snapshot.state es refl
          (rw same_next at later) (left ∙ rw is_last (ap some at_end)),
    )

-- The events of a valid snapshot form one unbroken walk along legal transitions, from the state of
-- the first event to the state that the snapshot claims.
pub validate_snapshot-IsWalk :
    (snapshot : ChangeStateSnapshot) (e : ChangeTransitionEvent) (es : List ChangeTransitionEvent)
    → validate_snapshot snapshot ≡ ok tt
    → snapshot.events ≡ e ∷ es
    → IsWalk e.from (e ∷ es) snapshot.state
validate_snapshot-IsWalk snapshot e es valid split =
    let (seen, c) = validate_snapshot-Checks snapshot valid in
    IsWalk-of_Checks snapshot seen e es split c

check_events-length :
    (version : ℕ) (seen : Seen) (es : List ChangeTransitionEvent) {end : Seen}
    → check_events version seen es ≡ ok end
    → seen.previous_sequence + length es ≤ end.previous_sequence
unfolding check_events
check_events-length version seen [] h = ground arith
check_events-length version seen (e ∷ es) h =
    let (next, first, later) = >>=-eq-ok (check_event version seen e) _ h in
    let same_next = check_event-saw version seen e first in
    let a = check_event-Accepts version seen e first in
    omega (arith, a.rising, check_events-length version (saw seen e) es (rw same_next at later))

-- A valid snapshot holds no more events than its version counts, and the version is a safe integer
-- below the largest.
pub validate_snapshot-length :
    (snapshot : ChangeStateSnapshot)
    → validate_snapshot snapshot ≡ ok tt
    → (length snapshot.events ≤ snapshot.version) × (snapshot.version < max_safe_integer)
validate_snapshot-length snapshot valid =
    let (seen, c) = validate_snapshot-Checks snapshot valid in
    let grown = check_events-length snapshot.version nothing_seen snapshot.events c.loop in
    let (bound, _) =
      check_events-end snapshot.version nothing_seen snapshot.events c.loop (omega arith) in
    (omega arith, c.version_safe)

-- Along legal transitions the main line is climbed one state at a time; `validating` goes on to
-- `ready`, past `invalid`.
legal-climb :
    (s t : ChangeState)
    → includes (legal_transitions s) t ≡ true
    → tag t ≤ 10
    → (tag s ≤ 9) × ((tag t ≤ tag s + 1) ⊎ ((tag s ≡ 1) × (tag t ≡ 3)))
unfolding includes
legal-climb draft t h k = ground arith
legal-climb _ t h k = ground arith

-- The states of the main line that no way round exists for.
abbrev pub is_milestone : ChangeState → Bool
is_milestone s = not (tag s == 2) && leb (tag s) 10

walk-milestone :
    (from to x : ChangeState) (es : List ChangeTransitionEvent)
    → is_milestone x ≡ true
    → (tag from < tag x) ⊎ (10 < tag from)
    → tag x ≤ tag to
    → tag to ≤ 10
    → IsWalk from es to
    → any (λ e. same_state e.to x) es ≡ true
unfolding same_state
walk-milestone from to x [] m early late main w = ground (arith, ap tag w)
walk-milestone from to x (e ∷ es) m early late main w = elim (Bool-cases (tag e.to == tag x)) [
  | inl hit ↦ ground arith
  | inr miss ↦ ground (arith, legal-climb from e.to w.1, walk-milestone e.to to x es m)
]

-- A change that began as a draft and is completed has been in every state of the main line:
-- validated, saved, snapshotted, written, acted on and checked for health.
pub completed_milestones :
    (snapshot : ChangeStateSnapshot) (e : ChangeTransitionEvent) (es : List ChangeTransitionEvent)
    (x : ChangeState)
    → validate_snapshot snapshot ≡ ok tt
    → snapshot.events ≡ e ∷ es
    → e.from ≡ draft
    → snapshot.state ≡ completed
    → is_milestone x ≡ true
    → x ≢ draft
    → any (λ event. same_state event.to x) (e ∷ es) ≡ true
completed_milestones snapshot e es x valid split start end m other =
    let w = validate_snapshot-IsWalk snapshot e es valid split in
    walk-milestone e.from snapshot.state x (e ∷ es) m (inl (rw start (tag-pos x other)))
      (rw end (ground arith)) (rw end (omega arith)) w
  where
    tag-pos : (x : ChangeState) → x ≢ draft → 0 < tag x
    tag-pos draft h = absurd (h refl)
    tag-pos _ h = omega arith
