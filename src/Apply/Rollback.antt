-- ===== src/Apply/Rollback.antt =====
-- What is shown of `performApply` as a whole.
use nancy_man.Base.{
  Text, Bool, true, false, List, [], ◌∷◌, Option, some, none, ◌≡◌, refl, sym, inl, inr, ap, ◌∙◌,
  arith, Result, ok, err, not, any, ok-injective, same, member, keep, Bool-cases, subst,
}
use nancy_man.Apply.Machine.{Machine}
use nancy_man.Apply.Model.{
  StagedChangePayload, SnapshotPayload, Thrown, Lock, Dependencies, ApplyInput,
  ApplyCoordinatorResult, Run, begun, throw, attempt, release,
}
use nancy_man.Apply.Steps.{
  try_apply, recover, recover_with, deactivate, release_all, close_run, perform_apply,
}
use nancy_man.Apply.Plain.{Plainly, Plainly-refl, Plainly-trans, is_write, is_restore, guarded}
use nancy_man.Apply.Meets.{Ends, Meets, attempt-Meets}
use nancy_man.Apply.Conditions.{is_some, is_rolled_back, Before, Safe, Ended, Guarded}
use nancy_man.Apply.Safety.{try_apply-Meets, roll_back-Meets, close_unwritten-Meets}

release_all-Plainly :
    (deps : Dependencies) (input : ApplyInput) (locks : List Lock) (run : Run)
    → Plainly run (release_all deps input locks run)
unfolding release_all
release_all-Plainly deps input [] run = Plainly-refl run
release_all-Plainly deps input (lock ∷ locks) run =
    let next = record run { calls = release lock ∷ run.calls } in
    Plainly-trans run next (release_all deps input locks next)
      (record {
        writes = refl;
        guards = refl;
        started = refl;
        snapshots = refl;
        captures = λ h. h;
        restores = λ h. h;
      })
      (release_all-Plainly deps input locks next)

module _ (deps : Dependencies) (input : ApplyInput) where
  unwritten-Before :
      (run : Run) → Safe run → (any is_write run.calls ≡ true → true ≡ false) → Before run
  unwritten-Before run h unwritten = record {
    guard = h.guard;
    unwritten = elim (Bool-cases (any is_write run.calls)) [ inl w ↦ w ∙ unwritten w | inr n ↦ n ];
  }

  recover_with-Ends :
      (error : Thrown) (change : Option StagedChangePayload) (machine : Option Machine)
      (snapshot : Option SnapshotPayload) (started : Bool) (run : Run)
      → Safe run
      → run.snapshot ≡ snapshot
      → run.write_started ≡ started
      → Ends Ended Guarded (recover_with deps input error change machine snapshot started run)
  unfolding throw
  recover_with-Ends error none machine snapshot started run h p q = record { guard = h.guard }
  recover_with-Ends error (some change) none snapshot started run h p q = record { guard = h.guard }
  recover_with-Ends error (some change) (some machine) none started run h p q =
      (close_unwritten-Meets deps input change).met run
        (unwritten-Before run h (λ w. sym (h.marked w).1 ∙ ap is_some p))
  recover_with-Ends error (some change) (some machine) (some snapshot) false run h p q =
      (close_unwritten-Meets deps input change).met run
        (unwritten-Before run h (λ w. sym (h.marked w).0 ∙ q))
  recover_with-Ends error (some change) (some machine) (some snapshot) true run h p q =
      (roll_back-Meets deps input change snapshot).met run (record { guard = h.guard })

  recover-Meets : (error : Thrown) → Meets Safe Ended Guarded (recover deps input error)
  unfolding recover
  recover-Meets error = record {
    met = λ run h.
        recover_with-Ends error run.change run.machine run.snapshot run.write_started run h refl
          refl;
  }

  ends :
      (active : List Text)
      → Ends Ended Guarded (attempt (try_apply deps input) (recover deps input) (begun active))
  ends active =
      (attempt-Meets (try_apply-Meets deps input) recover-Meets).met (begun active)
        (record { guard = refl; unwritten = refl })

  Ends-guarded :
      (r : Result Thrown ApplyCoordinatorResult × Run)
      → Ends Ended Guarded r
      → guarded r.1.calls ≡ true
  Ends-guarded (ok a, run) e = e.guard
  Ends-guarded (err x, run) e = e.guard

  Ends-restored :
      (r : Result Thrown ApplyCoordinatorResult × Run) (result : ApplyCoordinatorResult)
      → Ends Ended Guarded r
      → r.0 ≡ ok result
      → Ended result r.1
  Ends-restored (ok a, run) result e p = subst (λ q. Ended q run) (ok-injective a result p) e
  Ends-restored (err x, run) result e p = absurd (ground arith)

-- Whatever the dependencies answer or throw, a run writes no source before it has called for the
-- capture of the snapshot.
pub perform_apply-guarded :
    (deps : Dependencies) (input : ApplyInput) (active : List Text)
    → guarded (perform_apply deps input active).1.calls ≡ true
unfolding perform_apply close_run
perform_apply-guarded deps input active =
    let ended = attempt (try_apply deps input) (recover deps input) (begun active) in
    (release_all-Plainly deps input ended.1.releases ended.1).guards
    ∙ Ends-guarded deps input ended (ends deps input active)

-- Whatever the dependencies answer or throw, a run that returns the outcome that it is rolled back
-- and has called for the write of a source has called for the restoration of the snapshot too.
pub perform_apply_restores :
    (deps : Dependencies) (input : ApplyInput) (active : List Text)
    (result : ApplyCoordinatorResult)
    → (perform_apply deps input active).0 ≡ ok result
    → is_rolled_back result.outcome ≡ true
    → any is_write (perform_apply deps input active).1.calls ≡ true
    → any is_restore (perform_apply deps input active).1.calls ≡ true
unfolding perform_apply close_run
perform_apply_restores deps input active result returns rolled written =
    let ended = attempt (try_apply deps input) (recover deps input) (begun active) in
    let plain = release_all-Plainly deps input ended.1.releases ended.1 in
    let finished = Ends-restored deps input ended result (ends deps input active) returns in
    plain.restores (finished.restored rolled (sym plain.writes ∙ written))

member-keep : (a : Text) (active : List Text) → member a (keep (λ b. not (same b a)) active) ≡ false
unfolding member
member-keep a [] = refl
member-keep a (b ∷ active) = elim (Bool-cases (same b a)) [
  | inl hit ↦ ground (arith, member-keep a active)
  | inr miss ↦ ground (arith, member-keep a active)
]

-- A run that has read its staged change ends with the application of the change not marked active,
-- whether the run had marked it itself or was refused because another run had.
pub perform_apply_deactivates :
    (deps : Dependencies) (input : ApplyInput) (active : List Text) (change : StagedChangePayload)
    → (perform_apply deps input active).1.change ≡ some change
    → member change.app_id (perform_apply deps input active).1.active ≡ false
unfolding perform_apply close_run
perform_apply_deactivates deps input active change h =
    let ended = attempt (try_apply deps input) (recover deps input) (begun active) in
    let released = release_all deps input ended.1.releases ended.1 in
    ap (λ c. member change.app_id (deactivate deps input c released.active)) h
    ∙ member-keep change.app_id released.active
