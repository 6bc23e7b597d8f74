-- ===== src/Monitor/Recovery.antt =====
-- When a recovery is reported, and when it is held back
-- (apps/web/src/server/collector/statusMachine.ts).
use nancy_man.Base.{
  ℕ, Text, Bool, true, false, List, [], ◌∷◌, ◌++◌, some, ◌≡◌, inl, inr, arith, Bool-cases, length,
  ltb, ◌||◌,
}
use nancy_man.Monitor.Sample.{
  MonitorLevel, Numbers, MonitorSample, recovered, is_alert, effective_level,
  stored_condition_healthy,
}
use nancy_man.Monitor.Window.{trailing, previous, before_last, trailing-two}
use nancy_man.Monitor.Infrastructure.{Verdict, evaluate_infrastructure, infrastructure_recovery}
use nancy_man.Monitor.Evaluate.{
  Stage, is_infrastructure, finish_infrastructure, finish, stages, condition_of, evaluate_monitor,
}

module _ {Num : Type 0} (history : List (MonitorSample Num)) (sample : MonitorSample Num) where
  abbrev clear_count : ℕ
  clear_count = length (trailing (history ++ sample ∷ []) stored_condition_healthy)

  -- The level before the samples that have been clear.
  abbrev pub level_before_clear : MonitorLevel
  level_before_clear = effective_level (before_last (history ++ sample ∷ []) clear_count)

  abbrev pub WasAlert : Type 0
  WasAlert = (is_alert (effective_level (previous history)) || is_alert level_before_clear) ≡ true

  finish_infrastructure-recovered :
      (verdict : Verdict)
      → (finish_infrastructure history sample verdict).transition ≡ some recovered
      → WasAlert × (ltb clear_count 2 ≡ false)
  unfolding finish_infrastructure infrastructure_recovery
  finish_infrastructure-recovered verdict h = (ground arith, ground arith)

  finish-recovered :
      (condition : Bool) (stage : Stage)
      → (finish history sample condition stage).transition ≡ some recovered
      → WasAlert × (ltb clear_count 2 ≡ false)
  unfolding finish
  finish-recovered condition stage h = (ground arith, ground arith)

module _ (numbers : Numbers) (goes_first : Text → Text → Bool) where
  open numbers use {Num}

  -- A recovery is reported only after an alert, and only if both the new sample and the one before
  -- it have a healthy condition: one good sample is never enough.
  pub evaluate_monitor-recovered :
      (history : List (MonitorSample Num)) (sample : MonitorSample Num)
      → (evaluate_monitor numbers goes_first history sample).transition ≡ some recovered
      → WasAlert history sample
        × ((prev : MonitorSample Num) × (previous history ≡ some prev)
            × (stored_condition_healthy prev ≡ true)
            × (stored_condition_healthy sample ≡ true))
  unfolding evaluate_monitor
  evaluate_monitor-recovered history sample h =
      elim (Bool-cases (is_infrastructure sample.monitor)) [
        | inl infra ↦
            let (alert, two) =
              finish_infrastructure-recovered history sample
                (evaluate_infrastructure numbers goes_first sample.monitor history sample)
                (ground arith) in
            (alert, trailing-two history sample stored_condition_healthy two)
        | inr other ↦
            let (alert, two) =
              finish-recovered history sample (condition_of numbers sample)
                (stages numbers history sample (effective_level (previous history)))
                (ground arith) in
            (alert, trailing-two history sample stored_condition_healthy two)
      ]
