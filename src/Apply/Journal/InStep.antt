-- ===== src/Apply/Journal/InStep.antt =====
-- When the machine of a run is in step with the events of the run
-- (apps/config-agent/src/changes/applyCoordinator.ts), and that a step of the machine keeps it so.
use nancy_man.Base.{
  ◌+◌, Text, true, List, [], ◌∷◌, Option, some, none, ◌≡◌, refl, sym, ap, ◌∙◌, subst, ok, arith,
  inl, inr, any,
}
use nancy_man.Change.{legal_transitions, includes}
use nancy_man.Apply.Machine.{Machine, same_place, transitions, moved, transition, transition_lem}
use nancy_man.Apply.Model.{ApplyEvent}
use nancy_man.Apply.Steps.{event_id}
use nancy_man.Apply.Journal.{IsHistory, as_change, transitions-legal_transitions}
use nancy_man.Apply.Journal.Unseen.{AreOlder, AreOlder-moved, event_state-next}

-- The machine stands where the latest event says, and it has recorded only ids with smaller numbers.
abbrev pub InStep : Text → Option Machine → List ApplyEvent → Type 0
InStep run_id none [] = Unit
InStep run_id none (e ∷ events) = ⊥
InStep run_id (some machine) [] = ⊥
InStep run_id (some machine) (e ∷ events) =
    (machine.current ≡ e.state)
    × (machine.sequence ≡ e.sequence)
    × AreOlder run_id machine.sequence machine.event_states
    × IsHistory (e ∷ events)

pub InStep-IsHistory :
    (run_id : Text) (m : Option Machine) (events : List ApplyEvent)
    → InStep run_id m events
    → IsHistory events
InStep-IsHistory run_id none [] h = tt
InStep-IsHistory run_id none (e ∷ events) h = absurd h
InStep-IsHistory run_id (some machine) [] h = absurd h
InStep-IsHistory run_id (some machine) (e ∷ events) h = h.3

-- An event of a step that the machine takes continues the history.
InStep-moved :
    (run_id : Text) (machine : Machine) (next : ApplyEvent) (events : List ApplyEvent)
    → InStep run_id (some machine) events
    → any (same_place next.state) (transitions machine.current) ≡ true
    → next.sequence ≡ machine.sequence + 1
    → InStep run_id
        (some (moved machine next.state (event_id run_id next.state (machine.sequence + 1))))
        (next ∷ events)
InStep-moved run_id machine next [] h legal number = absurd h
InStep-moved run_id machine next (e ∷ events) h legal number =
    let step : includes (legal_transitions (as_change e.state)) (as_change next.state) ≡ true =
      sym (transitions-legal_transitions e.state next.state)
      ∙ subst (λ s. any (same_place next.state) (transitions s) ≡ true) h.0 legal in
    (
      refl,
      sym number,
      AreOlder-moved run_id next.state machine.sequence machine.event_states h.2,
      (omega (arith, number, h.1), step, h.3),
    )

-- The machine takes the next event, or throws: it never takes it for a replay.
pub InStep-transition :
    (run_id : Text) (machine machine' : Machine) (next : ApplyEvent) (events : List ApplyEvent)
    → InStep run_id (some machine) events
    → transition machine next.state (event_id run_id next.state (machine.sequence + 1))
      ≡ ok machine'
    → next.sequence ≡ machine'.sequence
    → InStep run_id (some machine') (next ∷ events)
InStep-transition run_id machine machine' next [] h taken number = absurd h
InStep-transition run_id machine machine' next (e ∷ events) h taken number =
    let id = event_id run_id next.state (machine.sequence + 1) in
    elim (transition_lem machine machine' next.state id taken) [
      | inl m ↦
          let sequence = number ∙ ap (λ q. q.sequence) m.moves in
          subst (λ q. InStep run_id (some q) (next ∷ e ∷ events)) (sym m.moves)
            (InStep-moved run_id machine next (e ∷ events) h m.legal sequence)
      | inr r ↦
          let unseen =
            event_state-next run_id next.state machine.sequence machine.event_states h.2 in
          absurd (cc (unseen, r.recorded.1))
    ]
