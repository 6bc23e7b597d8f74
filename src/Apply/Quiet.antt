-- ===== src/Apply/Quiet.antt =====
-- The steps of a run that are plain: all but the capture, the writes and the restoration.
use nancy_man.Base.{
  ◌+◌, Bool, false, ◌∷◌, Option, some, none, ◌≡◌, refl, Result, ok, err, not, member, same,
}
use nancy_man.Apply.Machine.{Machine, MachineError, ApplyState, applying, transition}
use nancy_man.Apply.Model.{
  StagedChangePayload, ReasonCode, Lock, Call, Dependencies, ApplyInput, ◌>>◌, refuse_if, modify,
  apply_started, staged_change_expired, apply_already_running, application, read_staged, acquire,
  persist_event,
}
use nancy_man.Apply.Steps.{
  tell, event, emit_moved, emit_on, emit, hold, found, read_change, mark_active, refuse_expired,
  open_run, health_of, event_id,
}
use nancy_man.Apply.Plain.{
  IsPlain, modify-IsPlain, >>=-IsPlain, pure-IsPlain, throw-IsPlain, refuse_if-IsPlain,
  when-IsPlain, call-IsPlain, is_write,
}

module _ (deps : Dependencies) (input : ApplyInput) where
  pub tell-IsPlain : (c : Call) → is_write c ≡ false → IsPlain (tell deps input c)
  tell-IsPlain c h = call-IsPlain c _ h

  emit_moved-IsPlain :
      (change : StagedChangePayload) (state : ApplyState) (reason : ReasonCode)
      (answer : Result MachineError Machine)
      → IsPlain (emit_moved deps input change state reason answer)
  emit_moved-IsPlain change state reason (err e) = throw-IsPlain _
  emit_moved-IsPlain change state reason (ok machine) =
      >>=-IsPlain (modify-IsPlain _ (λ _. refl) (λ _. refl) (λ _. refl)) (λ _.
        call-IsPlain (persist_event (event deps input change state machine.sequence reason)) _ refl)

  emit_on-IsPlain :
      (change : StagedChangePayload) (state : ApplyState) (reason : ReasonCode) (m : Option Machine)
      → IsPlain (emit_on deps input change state reason m)
  emit_on-IsPlain change state reason none = pure-IsPlain _
  emit_on-IsPlain change state reason (some machine) =
      emit_moved-IsPlain change state reason
        (transition machine state (event_id input.run_id state (machine.sequence + 1)))

  pub emit-IsPlain :
      (change : StagedChangePayload) (state : ApplyState) (reason : ReasonCode)
      → IsPlain (emit deps input change state reason)
  unfolding emit
  emit-IsPlain change state reason = record {
    plainly = λ run. (emit_on-IsPlain change state reason run.machine).plainly run;
  }

  pub hold-IsPlain : (lock : Lock) → IsPlain (hold deps input lock)
  hold-IsPlain lock =
      >>=-IsPlain (call-IsPlain (acquire lock) _ refl)
        (λ _. modify-IsPlain _ (λ _. refl) (λ _. refl) (λ _. refl))

  pub health_of-IsPlain : (c : Call) → is_write c ≡ false → IsPlain (health_of deps input c)
  health_of-IsPlain c h =
      >>=-IsPlain (call-IsPlain c _ h) (λ passed. refuse_if-IsPlain (not passed) _)

  found-IsPlain : (change : Option StagedChangePayload) → IsPlain (found deps input change)
  found-IsPlain none = throw-IsPlain _
  found-IsPlain (some change) = pure-IsPlain _

  read_change-IsPlain : IsPlain (read_change deps input)
  read_change-IsPlain = >>=-IsPlain (call-IsPlain (read_staged input.change_id) _ refl) λ change.
      >>=-IsPlain (modify-IsPlain _ (λ _. refl) (λ _. refl) (λ _. refl)) λ _. found-IsPlain change

  refuse_expired-IsPlain :
      (change : StagedChangePayload) → IsPlain (refuse_expired deps input change)
  refuse_expired-IsPlain change = record {
    plainly = λ run.
        (refuse_if-IsPlain (deps.has_expired run.calls change.expires_at)
            staged_change_expired).plainly
          run;
  }

  mark_active-IsPlain : (change : StagedChangePayload) → IsPlain (mark_active deps input change)
  mark_active-IsPlain change = record {
    plainly = λ run. (marks (member change.app_id run.active)).plainly run;
  }
    where
      marks :
          (b : Bool)
          → IsPlain (
              refuse_if b apply_already_running
              >> modify (λ run. record run { active = change.app_id ∷ run.active }))
      marks b =
          >>=-IsPlain (refuse_if-IsPlain b _)
            (λ _. modify-IsPlain _ (λ _. refl) (λ _. refl) (λ _. refl))

  pub open_run-IsPlain : IsPlain (open_run deps input)
  unfolding open_run
  open_run-IsPlain = >>=-IsPlain read_change-IsPlain λ change.
      >>=-IsPlain (refuse_if-IsPlain (not (same change.change_digest input.change_digest)) _) λ _.
        >>=-IsPlain (refuse_expired-IsPlain change) λ _.
          >>=-IsPlain (mark_active-IsPlain change) λ _.
            >>=-IsPlain
              (when-IsPlain deps.locks_applications (hold-IsPlain (application change.app_id)))
              λ _. >>=-IsPlain (modify-IsPlain _ (λ _. refl) (λ _. refl) (λ _. refl)) λ _.
                >>=-IsPlain
                  (tell-IsPlain (persist_event (event deps input change applying 0 apply_started))
                    refl)
                  λ _. pure-IsPlain _
