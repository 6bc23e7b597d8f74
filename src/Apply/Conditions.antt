-- ===== src/Apply/Conditions.antt =====
-- What holds of the variables of a run at the points of `performApply`
-- (apps/config-agent/src/changes/applyCoordinator.ts), and that plain steps keep it.
use nancy_man.Base.{Bool, true, false, Option, some, none, ◌≡◌, sym, ap, ◌∙◌, arith, any}
use nancy_man.Apply.Model.{
  Outcome, ApplyCoordinatorResult, Run, was_completed, was_rolled_back, rollback_has_failed,
}
use nancy_man.Apply.Plain.{is_write, is_capture, is_restore, guarded}
use nancy_man.Apply.Meets.{IsKept}

abbrev pub is_some {ℓ} : {A : Type ℓ} → Option A → Bool
is_some none = false
is_some (some a) = true

abbrev pub is_rolled_back : Outcome → Bool
is_rolled_back was_completed = false
is_rolled_back was_rolled_back = true
is_rolled_back rollback_has_failed = false

-- Before the capture, after it, and where a step may have thrown.
pub record Before (run : Run) : Type 0 where
  pub guard : guarded run.calls ≡ true
  pub unwritten : any is_write run.calls ≡ false

pub record Captured (run : Run) : Type 0 where
  pub guard : guarded run.calls ≡ true
  pub unwritten : any is_write run.calls ≡ false
  pub captured : any is_capture run.calls ≡ true

pub record Ready (run : Run) : Type 0 where
  pub guard : guarded run.calls ≡ true
  pub captured : any is_capture run.calls ≡ true
  pub snapped : is_some run.snapshot ≡ true
  pub marked : any is_write run.calls ≡ true → run.write_started ≡ true

pub record Safe (run : Run) : Type 0 where
  pub guard : guarded run.calls ≡ true
  pub marked :
      any is_write run.calls ≡ true → (run.write_started ≡ true) × (is_some run.snapshot ≡ true)

-- After the restoration is called, and at the end.
pub record Restored (run : Run) : Type 0 where
  pub guard : guarded run.calls ≡ true
  pub restored : any is_restore run.calls ≡ true

pub record Ended (result : ApplyCoordinatorResult) (run : Run) : Type 0 where
  pub guard : guarded run.calls ≡ true
  pub restored :
      is_rolled_back result.outcome ≡ true
      → any is_write run.calls ≡ true
      → any is_restore run.calls ≡ true

pub record Guarded (run : Run) : Type 0 where
  pub guard : guarded run.calls ≡ true

pub Before-kept : IsKept Before
Before-kept run run' p h = record { guard = p.guards ∙ h.guard; unwritten = p.writes ∙ h.unwritten }

pub Ready-kept : IsKept Ready
Ready-kept run run' p h = record {
  guard = p.guards ∙ h.guard;
  captured = p.captures h.captured;
  snapped = ap is_some p.snapshots ∙ h.snapped;
  marked = λ w. p.started ∙ h.marked (sym p.writes ∙ w);
}

pub Restored-kept : IsKept Restored
Restored-kept run run' p h = record { guard = p.guards ∙ h.guard; restored = p.restores h.restored }

pub Guarded-kept : IsKept Guarded
Guarded-kept run run' p h = record { guard = p.guards ∙ h.guard }

pub Before-Safe : (run : Run) → Before run → Safe run
Before-Safe run h = record { guard = h.guard; marked = λ w. absurd (ground (arith, h.unwritten)) }

pub Captured-Safe : (run : Run) → Captured run → Safe run
Captured-Safe run h = record { guard = h.guard; marked = λ w. absurd (ground (arith, h.unwritten)) }

pub Ready-Safe : (run : Run) → Ready run → Safe run
Ready-Safe run h = record { guard = h.guard; marked = λ w. (h.marked w, h.snapped) }

pub Restored-Guarded : (run : Run) → Restored run → Guarded run
Restored-Guarded run h = record { guard = h.guard }
