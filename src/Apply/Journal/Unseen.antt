-- ===== src/Apply/Journal/Unseen.antt =====
-- The ids of the events of one run (apps/config-agent/src/changes/applyCoordinator.ts) tell their
-- numbers apart, so the machine never takes the next event for a replay.
use nancy_man.Base.{
  ℕ, suc, ◌+◌, ◌≤◌, Text, codes, List, [], ◌∷◌, ◌++◌, none, ◌≡◌, refl, ap, ◌∙◌, All, arith,
  if◌then◌else◌, same, same_iff, Bool-cases, inl, inr, length, drop, ◌==◌,
}
use nancy_man.Explorer.Identifier.{decimal, read_decimal, read_decimal-decimal}
use nancy_man.Apply.Machine.{ApplyState, applying, event_state}
use nancy_man.Apply.Steps.{state_name, event_id}

pub after_colon : Text → Text
after_colon [] = []
after_colon (c ∷ s) = if c == b':' then s else after_colon s

-- The number at the end of the id of an event of the run.
abbrev pub number_in : Text → Text → ℕ
number_in run_id id = read_decimal 0 (after_colon (drop (length run_id + 1) id))

after_colon-state_name :
    (state : ApplyState) (s : Text) → after_colon (state_name state ++ (codes ":" ++ s)) ≡ s
unfolding after_colon
after_colon-state_name applying s = refl
after_colon-state_name _ s = refl

drop-prefix : (p s : Text) (c : ℕ) → drop (length p + 1) (p ++ (c ∷ s)) ≡ s
drop-prefix [] s c = refl
drop-prefix (d ∷ p) s c =
    let one_more : suc (length p) + 1 ≡ suc (length p + 1) = omega arith in
    ap (λ n. drop n (d ∷ (p ++ (c ∷ s)))) one_more ∙ drop-prefix p s c

number_in-event_id :
    (run_id : Text) (state : ApplyState) (n : ℕ) → number_in run_id (event_id run_id state n) ≡ n
number_in-event_id run_id state n =
    ap (λ s. read_decimal 0 (after_colon s))
      (drop-prefix run_id (state_name state ++ (codes ":" ++ decimal n)) b':')
    ∙ ap (read_decimal 0) (after_colon-state_name state (decimal n))
    ∙ read_decimal-decimal n

-- The recorded events have numbers up to `n`.
abbrev pub AreOlder : Text → ℕ → List (Text × ApplyState) → Type 0
AreOlder run_id n events = All (λ e. number_in run_id e.0 ≤ n) events

-- An event with the next number is not among the recorded ones.
pub event_state-next :
    (run_id : Text) (state : ApplyState) (n : ℕ) (events : List (Text × ApplyState))
    → AreOlder run_id n events
    → event_state (event_id run_id state (n + 1)) events ≡ none
event_state-next run_id state n [] older = refl
event_state-next run_id state n (e ∷ events) older =
    let id = event_id run_id state (n + 1) in
    elim (Bool-cases (same e.0 id)) [
      | inl same_id ↦
          let number = ap (number_in run_id) ((same_iff e.0 id).0 same_id) in
          absurd (omega (arith, older.0, number, number_in-event_id run_id state (n + 1)))
      | inr other ↦ rw other (event_state-next run_id state n events older.1)
    ]

AreOlder-weaken :
    (run_id : Text) (n : ℕ) (events : List (Text × ApplyState))
    → AreOlder run_id n events
    → AreOlder run_id (n + 1) events
AreOlder-weaken run_id n [] older = tt
AreOlder-weaken run_id n (e ∷ events) older =
    (omega (arith, older.0), AreOlder-weaken run_id n events older.1)

pub AreOlder-moved :
    (run_id : Text) (state : ApplyState) (n : ℕ) (events : List (Text × ApplyState))
    → AreOlder run_id n events
    → AreOlder run_id (n + 1) ((event_id run_id state (n + 1), state) ∷ events)
AreOlder-moved run_id state n events older =
    (omega (arith, number_in-event_id run_id state (n + 1)), AreOlder-weaken run_id n events older)
