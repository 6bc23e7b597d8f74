-- ===== src/Apply/Safety.antt =====
-- What holds along a run: no write before the snapshot is captured, and a run that ends as rolled
-- back after a write has called for the restoration.
use nancy_man.Base.{true, ◌≡◌, refl, arith, Result, ok, err}
use nancy_man.Apply.Machine.{
  snapshotted, written, action_running, health_checking, completed, rolling_back, rolled_back,
  rollback_failed,
}
use nancy_man.Apply.Model.{
  StagedChangePayload, SnapshotPayload, SourceWrite, Thrown, Dependencies, ApplyInput, Step,
  snapshot_recorded, sources_written, actions_started, health_checks_started, health_checks_passed,
  rollback_not_required, no_write_to_roll_back, rollback_started, rollback_health_passed,
  rollback_failed_code, source, action, capture_snapshot, persist_snapshot, create_snapshot,
  write_source, run_action, rollback_action, run_health, rollback_health, restore_snapshot,
  mark_rollback_failed, was_completed, was_rolled_back, rollback_has_failed,
}
use nancy_man.Apply.Steps.{
  take_snapshot, write, write_sources, lift, try_apply, restore, roll_back, keep_snapshot,
  finish_run, result, report_failure, ignored, close_unwritten, snapshot_id,
}
use nancy_man.Apply.Writes.{source_operations}
use nancy_man.Apply.Plain.{
  IsPlain, throw-IsPlain, attempt-IsPlain, pure-IsPlain, when-IsPlain, if-IsPlain, for_each-IsPlain,
}
use nancy_man.Apply.Meets.{
  Meets, >>=-Meets, attempt-Meets, plain-Meets, call-Meets, modify-Meets, pure-Meets,
  for_each-Meets,
}
use nancy_man.Apply.Quiet.{
  tell-IsPlain, emit-IsPlain, hold-IsPlain, health_of-IsPlain, open_run-IsPlain,
}
use nancy_man.Apply.Conditions.{
  Before, Captured, Ready, Safe, Restored, Ended, Guarded, Before-kept, Ready-kept, Restored-kept,
  Guarded-kept, Before-Safe, Captured-Safe, Ready-Safe, Restored-Guarded,
}

module _ (deps : Dependencies) (input : ApplyInput) where
  before : {A : Type 0} {step : Step A} → IsPlain step → Meets Before (λ _. Before) Safe step
  before s = plain-Meets Before-kept Before-Safe s

  ready : {A : Type 0} {step : Step A} → IsPlain step → Meets Ready (λ _. Ready) Safe step
  ready s = plain-Meets Ready-kept Ready-Safe s

  keep_snapshot-IsPlain :
      (change : StagedChangePayload) (snapshot : SnapshotPayload)
      → IsPlain (keep_snapshot deps input change snapshot)
  keep_snapshot-IsPlain change snapshot =
      if-IsPlain deps.persists_snapshots
        (tell-IsPlain deps input (persist_snapshot (snapshot_id input.run_id) change snapshot) refl)
        (when-IsPlain deps.stores_snapshots (
          tell-IsPlain deps input (create_snapshot (snapshot_id input.run_id) change snapshot)
            refl))

  take_snapshot-Meets :
      (change : StagedChangePayload)
      → Meets Before (λ _. Ready) Safe (take_snapshot deps input change)
  unfolding take_snapshot
  take_snapshot-Meets change =
      >>=-Meets
        (before (
          when-IsPlain deps.locks_sources
            (for_each-IsPlain change.source_ids (λ s. hold-IsPlain deps input (source s)))))
        λ _.
          >>=-Meets
            (before (
              when-IsPlain deps.locks_actions
                (for_each-IsPlain change.action_ids (λ a. hold-IsPlain deps input (action a)))))
            λ _.
              >>=-Meets {Q = λ _. Captured}
                (call-Meets (capture_snapshot change input.run_id) deps.captured
                  (λ run h. record {
                    guard = ground (arith, h.guard);
                    unwritten = ground (arith, h.unwritten);
                    captured = refl;
                  })
                  Captured-Safe)
                λ snapshot.
                  >>=-Meets {Q = λ _. Ready}
                    (modify-Meets _ (λ run h. record {
                      guard = h.guard;
                      captured = h.captured;
                      snapped = refl;
                      marked = λ w. absurd (ground (arith, h.unwritten));
                    }))
                    λ _.
                      >>=-Meets (ready (keep_snapshot-IsPlain change snapshot))
                        λ _. ready (emit-IsPlain deps input change snapshotted snapshot_recorded)

  write-Meets : (w : SourceWrite) → Meets Ready (λ _. Ready) Safe (write deps input w)
  write-Meets w =
      >>=-Meets {Q = λ _ run. Ready run × (run.write_started ≡ true)}
        (modify-Meets _ (λ run h. (
          record {
            guard = h.guard;
            captured = h.captured;
            snapped = h.snapped;
            marked = λ _. refl;
          },
          refl,
        )))
        λ _.
          call-Meets (write_source w) (λ calls. deps.done calls (write_source w))
            (λ run h. record {
              guard = ground (arith, h.0.guard, h.0.captured);
              captured = h.0.captured;
              snapped = h.0.snapped;
              marked = λ _. h.1;
            })
            Ready-Safe

  lift-IsPlain : {A : Type 0} (r : Result Thrown A) → IsPlain (lift r)
  lift-IsPlain (ok a) = pure-IsPlain a
  lift-IsPlain (err e) = throw-IsPlain e

  write_sources-Meets :
      (change : StagedChangePayload)
      → Meets Ready (λ _. Ready) Safe (write_sources deps input change)
  unfolding write_sources
  write_sources-Meets change =
      >>=-Meets (ready (lift-IsPlain (source_operations change)))
        λ operations. for_each-Meets operations write-Meets

  finish_run-Meets :
      (change : StagedChangePayload) → Meets Ready Ended Safe (finish_run deps input change)
  unfolding finish_run
  finish_run-Meets change =
      >>=-Meets (ready (emit-IsPlain deps input change written sources_written)) λ _.
        >>=-Meets (ready (emit-IsPlain deps input change action_running actions_started)) λ _.
          >>=-Meets
            (ready (
              for_each-IsPlain change.action_ids
                (λ a. tell-IsPlain deps input (run_action input.run_id a) refl)))
            λ _.
              >>=-Meets
                (ready (emit-IsPlain deps input change health_checking health_checks_started))
                λ _.
                  >>=-Meets
                    (ready (
                      health_of-IsPlain deps input (run_health input.run_id change.check_ids) refl))
                    λ _.
                      >>=-Meets
                        (ready (emit-IsPlain deps input change completed health_checks_passed))
                        λ _. pure-Meets (result deps input change completed was_completed) (λ run h.
                          record { guard = h.guard; restored = λ r. absurd (ground arith) })

  pub try_apply-Meets : Meets Before Ended Safe (try_apply deps input)
  unfolding try_apply
  try_apply-Meets = >>=-Meets (before (open_run-IsPlain deps input)) λ change.
      >>=-Meets (take_snapshot-Meets change)
        λ _. >>=-Meets (write_sources-Meets change) λ _. finish_run-Meets change

  guards : {A : Type 0} {step : Step A} → IsPlain step → Meets Guarded (λ _. Guarded) Guarded step
  guards s = plain-Meets Guarded-kept (λ run h. h) s

  restoring :
      {A : Type 0} {step : Step A} → IsPlain step → Meets Restored (λ _. Restored) Guarded step
  restoring s = plain-Meets Restored-kept Restored-Guarded s

  ignored-IsPlain : {step : Step (Unit {0})} → IsPlain step → IsPlain (ignored deps input step)
  ignored-IsPlain s = attempt-IsPlain s (λ e. pure-IsPlain tt)

  report_failure-Meets :
      (change : StagedChangePayload)
      → Meets Guarded Ended Guarded (report_failure deps input change)
  report_failure-Meets change =
      >>=-Meets
        (guards
          (ignored-IsPlain (emit-IsPlain deps input change rollback_failed rollback_failed_code)))
        λ _.
          >>=-Meets
            (guards (when-IsPlain deps.reports_failed_rollbacks (tell-IsPlain deps input _ refl)))
            λ _.
              pure-Meets (result deps input change rollback_failed rollback_has_failed)
                (λ run h. record { guard = h.guard; restored = λ r. absurd (ground arith) })

  restore-Meets :
      (change : StagedChangePayload) (snapshot : SnapshotPayload)
      → Meets Guarded Ended Guarded (restore deps input change snapshot)
  unfolding restore
  restore-Meets change snapshot =
      >>=-Meets (guards (emit-IsPlain deps input change rolling_back rollback_started)) λ _.
        >>=-Meets {Q = λ _. Restored}
          (call-Meets (restore_snapshot change input.run_id snapshot)
            (λ calls. deps.done calls (restore_snapshot change input.run_id snapshot))
            (λ run h. record { guard = ground (arith, h.guard); restored = refl }) Restored-Guarded)
          λ _.
            >>=-Meets
              (restoring (
                for_each-IsPlain change.action_ids (λ a.
                  when-IsPlain deps.rolls_actions_back
                    (tell-IsPlain deps input (rollback_action input.run_id a) refl))))
              λ _.
                >>=-Meets
                  (restoring (
                    when-IsPlain deps.checks_rollback_health (
                      health_of-IsPlain deps input (rollback_health input.run_id change.check_ids)
                        refl)))
                  λ _.
                    >>=-Meets
                      (restoring
                        (emit-IsPlain deps input change rolled_back rollback_health_passed))
                      λ _.
                        pure-Meets (result deps input change rolled_back was_rolled_back)
                          (λ run h. record { guard = h.guard; restored = λ _ _. h.restored })

  pub roll_back-Meets :
      (change : StagedChangePayload) (snapshot : SnapshotPayload)
      → Meets Guarded Ended Guarded (roll_back deps input change snapshot)
  unfolding roll_back
  roll_back-Meets change snapshot = attempt-Meets (restore-Meets change snapshot) λ e.
      >>=-Meets
        (guards (
          ignored-IsPlain (
            when-IsPlain deps.stores_snapshots
              (tell-IsPlain deps input (mark_rollback_failed (snapshot_id input.run_id)) refl))))
        λ _. report_failure-Meets change

  pub close_unwritten-Meets :
      (change : StagedChangePayload)
      → Meets Before Ended Guarded (close_unwritten deps input change)
  unfolding close_unwritten
  close_unwritten-Meets change =
      attempt-Meets {X = Guarded}
        (>>=-Meets (quiet (emit-IsPlain deps input change rolling_back rollback_not_required)) λ _.
          >>=-Meets (quiet (emit-IsPlain deps input change rolled_back no_write_to_roll_back)) λ _.
            pure-Meets (result deps input change rolled_back was_rolled_back) (λ run h. record {
              guard = h.guard;
              restored = λ _ w. absurd (ground (arith, h.unwritten));
            }))
        (λ e. report_failure-Meets change)
    where
      quiet : {A : Type 0} {step : Step A} → IsPlain step → Meets Before (λ _. Before) Guarded step
      quiet s = plain-Meets Before-kept (λ run h. record { guard = h.guard }) s
