-- ===== src/Apply/Journal/Emit.antt =====
-- The steps that open a run and hand over its events keep the machine in step with the events
-- (apps/config-agent/src/changes/applyCoordinator.ts).
use nancy_man.Base.{
  ◌+◌, Bool, List, [], ◌∷◌, Option, some, none, ◌≡◌, refl, sym, subst, Result, ok, err, not, same,
  member,
}
use nancy_man.Apply.Machine.{
  ApplyState, Machine, MachineError, applying, transition, create_apply_state_machine,
}
use nancy_man.Apply.Model.{
  ApplyEvent, StagedChangePayload, ReasonCode, Lock, Call, Run, Dependencies, ApplyInput, ◌>>◌,
  pure, throw, refuse_if, modify, persist_event, acquire, apply_started, application,
  apply_already_running, staged_change_expired, read_staged,
}
use nancy_man.Apply.Steps.{
  tell, event, emit_moved, emit_on, emit, hold, found, read_change, mark_active, refuse_expired,
  open_run, health_of, event_id,
}
use nancy_man.Apply.Meets.{Meets, Ends, >>=-Meets, call-Meets, modify-Meets}
use nancy_man.Apply.Journal.{journal}
use nancy_man.Apply.Journal.Keeps.{
  At, Keeps, Weakens, pure-Keeps, throw-Keeps, refuse_if-Keeps, when-Keeps, call-Keeps,
  modify-Keeps,
}
use nancy_man.Apply.Journal.InStep.{InStep, InStep-transition}

module _ (deps : Dependencies) (input : ApplyInput) where
  -- Before the machine is made, and while it has taken no event.
  abbrev pub Start : Option Machine → List ApplyEvent → Type 0
  Start m events = (m ≡ none) × (events ≡ [])

  abbrev Opening : Option Machine → List ApplyEvent → Type 0
  Opening m events = (m ≡ some (create_apply_state_machine applying)) × (events ≡ [])

  abbrev pub J : Option Machine → List ApplyEvent → Type 0
  J = InStep input.run_id

  Start-InStep : Weakens Start J
  Start-InStep m events h = subst (λ m. J m events) (sym h.0) (subst (λ es. J none es) (sym h.1) tt)

  pub stays : Weakens J J
  stays m events h = h

  pub tell-Keeps :
      {P : Option Machine → List ApplyEvent → Type 0} (weaken : Weakens P J) (c : Call)
      → ((calls : List Call) → journal (c ∷ calls) ≡ journal calls)
      → Keeps P J (tell deps input c)
  tell-Keeps weaken c h = call-Keeps weaken c (λ calls. deps.done calls c) h

  pub hold-Keeps :
      {P : Option Machine → List ApplyEvent → Type 0} (weaken : Weakens P J) (lock : Lock)
      → Keeps P J (hold deps input lock)
  hold-Keeps weaken lock =
      >>=-Meets (tell-Keeps weaken (acquire lock) (λ calls. refl))
        (λ _. modify-Keeps weaken _ (λ _. refl) (λ _. refl))

  -- What `persistEvent` is handed once the machine has taken a step.
  emit_moved-Meets :
      (change : StagedChangePayload) (state : ApplyState) (reason : ReasonCode) (machine : Machine)
      (answer : Result MachineError Machine)
      → transition machine state (event_id input.run_id state (machine.sequence + 1)) ≡ answer
      → Meets
          (At (λ m events. (m ≡ some machine) × J (some machine) events))
          (λ _. At J)
          (At J)
          (emit_moved deps input change state reason answer)
  unfolding throw
  emit_moved-Meets change state reason machine (err e) taken = record {
    met = λ run h. subst (λ m. J m (journal run.calls)) (sym h.0) h.1;
  }
  emit_moved-Meets change state reason machine (ok machine') taken =
      let next = event deps input change state machine'.sequence reason in
      >>=-Meets {Q = λ _. At (λ m events. (m ≡ some machine') × J (some machine) events)}
        (modify-Meets _ (λ run h. (refl, h.1)))
        λ _.
          call-Meets (persist_event next) (λ calls. deps.done calls (persist_event next))
            (λ run h.
              subst (λ m. J m (next ∷ journal run.calls)) (sym h.0)
                (InStep-transition input.run_id machine machine' next (journal run.calls) h.1 taken
                  refl))
            (λ run h. h)

  emit_on-Ends :
      (change : StagedChangePayload) (state : ApplyState) (reason : ReasonCode) (m : Option Machine)
      (run : Run)
      → run.machine ≡ m
      → J m (journal run.calls)
      → Ends (λ _. At J) (At J) (emit_on deps input change state reason m run)
  unfolding pure
  emit_on-Ends change state reason none run e h = subst (λ m. J m (journal run.calls)) (sym e) h
  emit_on-Ends change state reason (some machine) run e h =
      (emit_moved-Meets change state reason machine
          (transition machine state (event_id input.run_id state (machine.sequence + 1))) refl).met
        run (e, h)

  pub emit-Keeps :
      (change : StagedChangePayload) (state : ApplyState) (reason : ReasonCode)
      → Keeps J J (emit deps input change state reason)
  unfolding emit
  emit-Keeps change state reason = record {
    met = λ run h. emit_on-Ends change state reason run.machine run refl h;
  }

  pub health_of-Keeps :
      (c : Call)
      → ((calls : List Call) → journal (c ∷ calls) ≡ journal calls)
      → Keeps J J (health_of deps input c)
  health_of-Keeps c h =
      >>=-Meets (call-Keeps stays c (λ calls. deps.passed calls c) h)
        (λ passed. refuse_if-Keeps stays (not passed) _)

  found-Keeps : (change : Option StagedChangePayload) → Keeps Start J (found deps input change)
  found-Keeps none = throw-Keeps Start-InStep _
  found-Keeps (some change) = pure-Keeps Start-InStep _

  read_change-Keeps : Keeps Start J (read_change deps input)
  read_change-Keeps =
      >>=-Meets (call-Keeps Start-InStep (read_staged input.change_id) _ (λ calls. refl)) λ change.
        >>=-Meets (modify-Keeps Start-InStep _ (λ _. refl) (λ _. refl)) λ _. found-Keeps change

  refuse_expired-Keeps :
      (change : StagedChangePayload) → Keeps Start J (refuse_expired deps input change)
  refuse_expired-Keeps change = record {
    met = λ run.
        (refuse_if-Keeps Start-InStep (deps.has_expired run.calls change.expires_at)
            staged_change_expired).met
          run;
  }

  mark_active-Keeps : (change : StagedChangePayload) → Keeps Start J (mark_active deps input change)
  mark_active-Keeps change = record {
    met = λ run. (marks (member change.app_id run.active)).met run;
  }
    where
      marks :
          (b : Bool)
          → Keeps Start J (
              refuse_if b apply_already_running
              >> modify (λ run. record run { active = change.app_id ∷ run.active }))
      marks b =
          >>=-Meets (refuse_if-Keeps Start-InStep b _)
            (λ _. modify-Keeps Start-InStep _ (λ _. refl) (λ _. refl))

  pub open_run-Meets : Meets (At Start) (λ _. At J) (At J) (open_run deps input)
  unfolding open_run
  open_run-Meets = >>=-Meets read_change-Keeps λ change.
      >>=-Meets
        (refuse_if-Keeps Start-InStep (not (same change.change_digest input.change_digest)) _)
        λ _. >>=-Meets (refuse_expired-Keeps change) λ _. >>=-Meets (mark_active-Keeps change) λ _.
          >>=-Meets
            (when-Keeps Start-InStep deps.locks_applications
              (hold-Keeps Start-InStep (application change.app_id)))
            λ _. >>=-Meets {Q = λ _. At Opening} (modify-Meets _ (λ run h. (refl, h.1))) λ _.
              >>=-Meets {Q = λ _. At J}
                (call-Meets _ _
                  (λ run h.
                    subst
                      (λ m.
                        J m (event deps input change applying 0 apply_started ∷ journal run.calls))
                      (sym h.0)
                      (subst
                        (λ es.
                          J (some (create_apply_state_machine applying))
                            (event deps input change applying 0 apply_started ∷ es))
                        (sym h.1) (refl, refl, tt, (refl, refl))))
                  (λ run h. h))
                λ _. pure-Keeps stays change
