-- ===== src/Monitor/Transitions.antt =====
-- What the transitions reported by `evaluateMonitor` mean
-- (apps/web/src/server/collector/statusMachine.ts).
use nancy_man.Base.{Text, Bool, true, List, some, none, ◌≡◌, ◌≢◌, inl, inr, arith, Bool-cases}
use nancy_man.Monitor.Sample.{
  MonitorLevel, unknown, healthy, Numbers, MonitorSample, opened, changed, recovered, Evaluation,
  is_alert, effective_level,
}
use nancy_man.Monitor.Window.{previous}
use nancy_man.Monitor.Infrastructure.{Verdict, evaluate_infrastructure, infrastructure_recovery}
use nancy_man.Monitor.Evaluate.{
  Stage, is_infrastructure, finish_infrastructure, finish, stages, condition_of, evaluate_monitor,
}

-- An alert is reported exactly when the level changes to an alert level: as opened if nothing was
-- known before, as changed otherwise. A recovery is reported only at a healthy level.
pub record IsSound (before : MonitorLevel) (e : Evaluation) : Type 0 where
  pub opened_means : e.transition ≡ some opened → (is_alert e.level ≡ true) × (before ≡ unknown)
  pub changed_means :
      e.transition ≡ some changed
      → (is_alert e.level ≡ true) × (e.level ≢ before) × (before ≢ unknown)
  pub recovered_means :
      e.transition ≡ some recovered → (e.level ≡ healthy) × (e.condition_healthy ≡ true)
  pub silent_means : e.transition ≡ none → is_alert e.level ≡ true → e.level ≡ before

module _ {Num : Type 0} (history : List (MonitorSample Num)) (sample : MonitorSample Num) where
  finish_infrastructure-IsSound :
      (verdict : Verdict)
      → IsSound (effective_level (previous history)) (finish_infrastructure history sample verdict)
  unfolding finish_infrastructure infrastructure_recovery
  finish_infrastructure-IsSound verdict = record {
    opened_means = λ h. ground arith;
    changed_means = λ h. (ground arith, ground arith, ground arith);
    recovered_means = λ h. ground arith;
    silent_means = λ h k. ground arith;
  }

  finish-IsSound :
      (condition : Bool) (stage : Stage)
      → IsSound (effective_level (previous history)) (finish history sample condition stage)
  unfolding finish
  finish-IsSound condition stage = record {
    opened_means = λ h. ground arith;
    changed_means = λ h. (ground arith, ground arith, ground arith);
    recovered_means = λ h. ground arith;
    silent_means = λ h k. ground arith;
  }

module _ (numbers : Numbers) (goes_first : Text → Text → Bool) where
  open numbers use {Num}

  module _ (history : List (MonitorSample Num)) (sample : MonitorSample Num) where
    -- For every monitor, history and sample: `opened` and `changed` are reported only on a change to
    -- an alert level, from an unknown and from a known level; `recovered` only with a healthy level
    -- and condition; and if nothing is reported, an alert level is the level of before.
    pub evaluate_monitor-IsSound :
        IsSound
          (effective_level (previous history))
          (evaluate_monitor numbers goes_first history sample)
    unfolding evaluate_monitor
    evaluate_monitor-IsSound = elim (Bool-cases (is_infrastructure sample.monitor)) [
      | inl infra ↦ rw infra (
          finish_infrastructure-IsSound history sample
            (evaluate_infrastructure numbers goes_first sample.monitor history sample))
      | inr other ↦ rw other (
          finish-IsSound history sample (condition_of numbers sample)
            (stages numbers history sample (effective_level (previous history))))
    ]
