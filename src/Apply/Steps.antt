-- ===== src/Apply/Steps.antt =====
-- The steps of `performApply` (apps/config-agent/src/changes/applyCoordinator.ts), each in the order
-- of the source.
use nancy_man.Base.{
  ℕ, ◌+◌, Text, codes, Bool, true, false, List, [], ◌∷◌, ◌++◌, Option, some, none, Result, ok, err,
  same, member, keep, not, if◌then◌else◌,
}
use nancy_man.Explorer.Identifier.{decimal}
use nancy_man.Apply.Machine.{
  Machine, MachineError, ApplyState, applying, snapshotted, written, action_running,
  health_checking, completed, rolling_back, rolled_back, rollback_failed,
  create_apply_state_machine, transition,
}
use nancy_man.Apply.Writes.{source_operations}
use nancy_man.Apply.Model.{
  StagedChangePayload, SnapshotPayload, ReasonCode, ApplyEvent, SourceWrite, Thrown, Lock, Call,
  Dependencies, ApplyInput, Outcome, ApplyCoordinatorResult, Run, begun, Step, ◌>>=◌, ◌>>◌, pure,
  throw, refuse_if, when, for_each, attempt, call, modify, apply_started, snapshot_recorded,
  sources_written, actions_started, health_checks_started, health_checks_passed,
  rollback_not_required, no_write_to_roll_back, rollback_started, rollback_health_passed,
  rollback_failed_code, staged_change_not_found, change_digest_mismatch, staged_change_expired,
  apply_already_running, apply_precondition_failed, config_source_changed, apply_failed,
  coordinator_error, machine_error, source_changed, other_error, application, source, action,
  read_staged, acquire, release, capture_snapshot, persist_snapshot, create_snapshot, write_source,
  run_action, rollback_action, run_health, rollback_health, restore_snapshot, persist_event,
  mark_rollback_failed, on_rollback_failed, was_completed, was_rolled_back, rollback_has_failed,
}

abbrev pub state_name : ApplyState → Text
state_name applying = codes "APPLYING"
state_name snapshotted = codes "SNAPSHOTTED"
state_name written = codes "WRITTEN"
state_name action_running = codes "ACTION_RUNNING"
state_name health_checking = codes "HEALTH_CHECKING"
state_name completed = codes "COMPLETED"
state_name rolling_back = codes "ROLLING_BACK"
state_name rolled_back = codes "ROLLED_BACK"
state_name rollback_failed = codes "ROLLBACK_FAILED"

-- `${runId}:${state}:${machine.sequence + 1}`.
abbrev pub event_id : Text → ApplyState → ℕ → Text
event_id run_id state n = run_id ++ (codes ":" ++ (state_name state ++ (codes ":" ++ decimal n)))

abbrev pub snapshot_id : Text → Text
snapshot_id run_id = codes "SNAP_" ++ run_id

abbrev pub lift : {A : Type 0} → Result Thrown A → Step A
lift (ok a) = pure a
lift (err e) = throw e

module _ (deps : Dependencies) (input : ApplyInput) where
  abbrev pub tell : Call → Step (Unit {0})
  tell c = call c (λ calls. deps.done calls c)

  abbrev pub event : StagedChangePayload → ApplyState → ℕ → ReasonCode → ApplyEvent
  event change state sequence reason = record {
    change_id = change.change_id;
    run_id = input.run_id;
    state = state;
    sequence = sequence;
    reason_code = reason;
  }

  -- What `emit` does once the machine has answered: its variables change only if it does not throw.
  abbrev pub emit_moved :
      StagedChangePayload → ApplyState → ReasonCode → Result MachineError Machine → Step (Unit {0})
  emit_moved change state reason (err e) = throw (machine_error e)
  emit_moved change state reason (ok machine) =
      modify (λ run. record run { machine = some machine })
      >> tell (persist_event (event change state machine.sequence reason))

  -- `emit` is called only with a machine, so without one it does nothing.
  abbrev pub emit_on :
      StagedChangePayload → ApplyState → ReasonCode → Option Machine → Step (Unit {0})
  emit_on change state reason none = pure tt
  emit_on change state reason (some machine) =
      emit_moved change state reason
        (transition machine state (event_id input.run_id state (machine.sequence + 1)))

  unfoldable pub emit : StagedChangePayload → ApplyState → ReasonCode → Step (Unit {0})
  emit change state reason run = emit_on change state reason run.machine run

  -- `releases.push(await acquire(...))`.
  abbrev pub hold : Lock → Step (Unit {0})
  hold lock = tell (acquire lock) >> modify (λ run. record run { releases = lock ∷ run.releases })

  abbrev pub found : Option StagedChangePayload → Step StagedChangePayload
  found none = throw (coordinator_error staged_change_not_found)
  found (some change) = pure change

  -- `change` is assigned before it is tested.
  abbrev pub read_change : Step StagedChangePayload
  read_change =
      call (read_staged input.change_id) (λ calls. deps.staged calls input.change_id) >>= λ change.
      modify (λ run. record run { change = change }) >> found change

  abbrev pub mark_active : StagedChangePayload → Step (Unit {0})
  mark_active change run =
      (refuse_if (member change.app_id run.active) apply_already_running
          >> modify (λ run. record run { active = change.app_id ∷ run.active }))
        run

  abbrev pub refuse_expired : StagedChangePayload → Step (Unit {0})
  refuse_expired change run =
      refuse_if (deps.has_expired run.calls change.expires_at) staged_change_expired run

  -- From `readStaged` to the first event.
  unfoldable pub open_run : Step StagedChangePayload
  open_run = do
    change ← read_change
    refuse_if (not (same change.change_digest input.change_digest)) change_digest_mismatch
    refuse_expired change
    mark_active change
    when deps.locks_applications (hold (application change.app_id))
    modify (λ run. record run { machine = some (create_apply_state_machine applying) })
    tell (persist_event (event change applying 0 apply_started))
    pure change

  -- `persistSnapshot`, or else the store.
  abbrev pub keep_snapshot : StagedChangePayload → SnapshotPayload → Step (Unit {0})
  keep_snapshot change snapshot =
      if deps.persists_snapshots
      then tell (persist_snapshot (snapshot_id input.run_id) change snapshot)
      else when deps.stores_snapshots
          (tell (create_snapshot (snapshot_id input.run_id) change snapshot))

  unfoldable pub take_snapshot : StagedChangePayload → Step (Unit {0})
  take_snapshot change = do
    when deps.locks_sources (for_each (λ s. hold (source s)) change.source_ids)
    when deps.locks_actions (for_each (λ a. hold (action a)) change.action_ids)
    snapshot ← call (capture_snapshot change input.run_id) deps.captured
    modify (λ run. record run { snapshot = some snapshot })
    keep_snapshot change snapshot
    emit change snapshotted snapshot_recorded

  abbrev pub write : SourceWrite → Step (Unit {0})
  write operation =
      modify (λ run. record run { write_started = true }) >> tell (write_source operation)

  unfoldable pub write_sources : StagedChangePayload → Step (Unit {0})
  write_sources change = do operations ← lift (source_operations change); for_each write operations

  abbrev pub health_of : Call → Step (Unit {0})
  health_of c =
      call c (λ calls. deps.passed calls c) >>= λ passed. refuse_if (not passed) apply_failed

  abbrev pub result : StagedChangePayload → ApplyState → Outcome → ApplyCoordinatorResult
  result change state outcome = record {
    change_id = change.change_id;
    run_id = input.run_id;
    state = state;
    outcome = outcome;
  }

  unfoldable pub finish_run : StagedChangePayload → Step ApplyCoordinatorResult
  finish_run change = do
    emit change written sources_written
    emit change action_running actions_started
    for_each (λ a. tell (run_action input.run_id a)) change.action_ids
    emit change health_checking health_checks_started
    health_of (run_health input.run_id change.check_ids)
    emit change completed health_checks_passed
    pure (result change completed was_completed)

  -- The body of the outer `try`.
  unfoldable pub try_apply : Step ApplyCoordinatorResult
  try_apply = do change ← open_run; take_snapshot change; write_sources change; finish_run change

  abbrev pub ignored : Step (Unit {0}) → Step (Unit {0})
  ignored step = attempt step (λ e. pure tt)

  abbrev pub report_failure : StagedChangePayload → Step ApplyCoordinatorResult
  report_failure change = do
    ignored (emit change rollback_failed rollback_failed_code)
    when deps.reports_failed_rollbacks (
        tell (
          on_rollback_failed change.change_id input.run_id (snapshot_id input.run_id)
            rollback_failed_code))
    pure (result change rollback_failed rollback_has_failed)

  -- `if (!snapshot || !writeStarted)`.
  unfoldable pub close_unwritten : StagedChangePayload → Step ApplyCoordinatorResult
  close_unwritten change =
      attempt
        (do
          emit change rolling_back rollback_not_required
          emit change rolled_back no_write_to_roll_back
          pure (result change rolled_back was_rolled_back))
        (λ e. report_failure change)

  unfoldable pub restore : StagedChangePayload → SnapshotPayload → Step ApplyCoordinatorResult
  restore change snapshot = do
    emit change rolling_back rollback_started
    tell (restore_snapshot change input.run_id snapshot)
    for_each (λ a. when deps.rolls_actions_back (tell (rollback_action input.run_id a)))
        change.action_ids
    when deps.checks_rollback_health (health_of (rollback_health input.run_id change.check_ids))
    emit change rolled_back rollback_health_passed
    pure (result change rolled_back was_rolled_back)

  unfoldable pub roll_back : StagedChangePayload → SnapshotPayload → Step ApplyCoordinatorResult
  roll_back change snapshot = attempt (restore change snapshot) (λ e. do
    ignored (when deps.stores_snapshots (tell (mark_rollback_failed (snapshot_id input.run_id))))
    report_failure change)

  -- An error before the machine exists is passed on.
  abbrev pub precondition_error : Thrown → Thrown
  precondition_error (coordinator_error code) = coordinator_error code
  precondition_error source_changed = coordinator_error config_source_changed
  precondition_error (machine_error e) = coordinator_error apply_precondition_failed
  precondition_error other_error = coordinator_error apply_precondition_failed

  abbrev pub recover_with :
      Thrown
      → Option StagedChangePayload
      → Option Machine
      → Option SnapshotPayload
      → Bool
      → Step ApplyCoordinatorResult
  recover_with error none machine snapshot write_started = throw (precondition_error error)
  recover_with error (some change) none snapshot write_started = throw (precondition_error error)
  recover_with error (some change) (some machine) none write_started = close_unwritten change
  recover_with error (some change) (some machine) (some snapshot) false = close_unwritten change
  recover_with error (some change) (some machine) (some snapshot) true = roll_back change snapshot

  -- The `catch` of the outer `try`.
  unfoldable pub recover : Thrown → Step ApplyCoordinatorResult
  recover error run = recover_with error run.change run.machine run.snapshot run.write_started run

  -- The locks, the latest first; what a release throws is ignored.
  unfoldable pub release_all : List Lock → Run → Run
  release_all [] run = run
  release_all (lock ∷ locks) run =
      release_all locks (record run { calls = release lock ∷ run.calls })

  abbrev pub deactivate : Option StagedChangePayload → List Text → List Text
  deactivate none active = active
  deactivate (some change) active = keep (λ a. not (same a change.app_id)) active

  -- The `finally` of the outer `try`.
  unfoldable pub close_run : Run → Run
  close_run run =
      let released = release_all run.releases run in
      record released { active = deactivate released.change released.active }

  unfoldable pub perform_apply : List Text → Result Thrown ApplyCoordinatorResult × Run
  perform_apply active =
      let ended = attempt try_apply recover (begun active) in (ended.0, close_run ended.1)
