-- ===== src/Monitor/Evaluate.antt =====
-- `evaluateMonitor` (apps/web/src/server/collector/statusMachine.ts). The variables `level` and
-- `reason`, which the code overwrites stage by stage, are a `Stage`.
use nancy_man.Base.{
  ℕ, zero, suc, Text, codes, Bool, true, false, List, [], ◌∷◌, ◌++◌, Option, some, none, ltb, leb,
  length, not, ◌&&◌, ◌||◌, ◌==◌, if◌then◌else◌, any,
}
use nancy_man.Monitor.Sample.{
  MonitorName, app_liveness, app_health, app_process, postgres, errors, cron, backup, beszel,
  host_resources, host_services, name_text, level_text, MonitorLevel, unknown, healthy, warning,
  critical, Numbers, MonitorSample, Transition, opened, changed, recovered, Evaluation, is_failed,
  is_healthy, is_alert, is_healthy_level, same_level, effective_level, stored_condition_healthy,
}
use nancy_man.Monitor.Window.{trailing, sustained, before_last, previous}
use nancy_man.Monitor.Resources.{minutes}
use nancy_man.Monitor.Infrastructure.{
  Verdict, Recovery, text_or, evaluate_infrastructure, infrastructure_recovery,
}

-- `slice(0, n)`.
abbrev pub slice : ℕ → Text → Text
slice zero t = []
slice (suc n) [] = []
slice (suc n) (c ∷ t) = c ∷ slice n t

-- `split(':').slice(1).join(':')`: what stands behind the first colon.
abbrev pub after_colon : Text → Text
after_colon [] = []
after_colon (c ∷ t) = let rest = after_colon t in if c == b':' then t else rest

abbrev pub is_infrastructure : MonitorName → Bool
is_infrastructure beszel = true
is_infrastructure host_resources = true
is_infrastructure host_services = true
is_infrastructure _ = false

abbrev pub is_process : MonitorName → Bool
is_process app_liveness = true
is_process app_health = true
is_process app_process = true
is_process postgres = true
is_process _ = false

abbrev pub is_postgres : MonitorName → Bool
is_postgres postgres = true
is_postgres _ = false

abbrev pub is_errors : MonitorName → Bool
is_errors errors = true
is_errors _ = false

abbrev pub is_reported : MonitorName → Bool
is_reported backup = true
is_reported cron = true
is_reported errors = true
is_reported _ = false

-- The transition to an alert level from another level.
abbrev pub transition_to : MonitorLevel → MonitorLevel → Option Transition
transition_to previous_level level =
    if not (same_level level previous_level) && is_alert level
    then some (if same_level previous_level unknown then opened else changed)
    else none

abbrev pub report : MonitorName → MonitorLevel → Option Transition → Text → Bool → Evaluation
report monitor level transition reason condition_healthy = record {
  level = level;
  transition = transition;
  dedupe_key = name_text monitor ++ (codes ":" ++ reason);
  safe_summary = slice 500 (name_text monitor ++ (codes " " ++ level_text level));
  condition_healthy = condition_healthy;
}

pub record Stage : Type 0 where
  pub level : MonitorLevel
  pub reason : Text

abbrev key_reason : Option Text → Text
key_reason none = codes "recovered"
key_reason (some key) = after_colon key

module _ {Num : Type 0} where
  abbrev pub key_of : Option (MonitorSample Num) → Option Text
  key_of none = none
  key_of (some s) = s.details.dedupe_key

  abbrev recovery_reason : Recovery → Option (MonitorSample Num) → Text → Text
  recovery_reason recovery prev reason = elim recovery.transition [
    | some t ↦ key_reason (key_of prev)
    | none ↦ text_or recovery.reason reason
  ]

  -- The three monitors of the infrastructure.
  unfoldable pub finish_infrastructure :
      List (MonitorSample Num) → MonitorSample Num → Verdict → Evaluation
  finish_infrastructure history sample verdict =
      let previous_level = effective_level (previous history) in
      let recovery =
        infrastructure_recovery (history ++ sample ∷ []) verdict.condition_healthy previous_level in
      if is_healthy_level verdict.level
      then report sample.monitor recovery.level recovery.transition
          (recovery_reason recovery (previous history) verdict.reason) verdict.condition_healthy
      else report sample.monitor verdict.level (transition_to previous_level verdict.level)
          verdict.reason verdict.condition_healthy

  abbrev pub first_stage : MonitorSample Num → Stage
  first_stage sample = record {
    level = if is_healthy_level sample.level then healthy else unknown;
    reason = text_or sample.error_code (name_text sample.monitor ++ codes "_state");
  }

  abbrev is_failure : MonitorSample Num → Bool
  is_failure sample = is_alert sample.level || sample.details.probe_failed

  -- Liveness, health, process and database: two failures are critical, and a critical level waits
  -- for two healthy samples.
  unfoldable pub process_stage :
      List (MonitorSample Num) → MonitorSample Num → MonitorLevel → Stage → Stage
  process_stage history sample previous_level stage =
      let samples = history ++ sample ∷ [] in
      if not (is_process sample.monitor)
      then stage
      else if leb 2 (length (trailing samples is_failed))
      then record {
        level = critical;
        reason = text_or sample.error_code (name_text sample.monitor ++ codes "_failed");
      }
      else if same_level previous_level critical && ltb (length (trailing samples is_healthy)) 2
      then record { level = critical; reason = codes "awaiting_recovery_baseline" }
      else if is_failure sample
      then record stage { level = unknown }
      else stage

module _ (numbers : Numbers) where
  open numbers use {Num, le, lt, is_finite, add, div, lit}

  abbrev pub is_positive : Num → Bool
  is_positive x = lt (lit 0 1) x

  -- The sum with the guard for what is not finite, and the sum without it.
  abbrev pub finite_sum : Num → List Num → Num
  finite_sum total [] = total
  finite_sum total (x ∷ xs) = finite_sum (add total (if is_finite x then x else lit 0 1)) xs

  abbrev pub plain_sum : Num → List Num → Num
  plain_sum total [] = total
  plain_sum total (x ∷ xs) = plain_sum (add total x) xs

  abbrev pub connection_ratio : MonitorSample Num → Num
  connection_ratio s =
      if is_positive s.details.max_connections
      then div (finite_sum (lit 0 1) s.details.connection_states) s.details.max_connections
      else lit 0 1

  -- The predicate of the two connection rules.
  abbrev pub is_crowded : Num → MonitorSample Num → Bool
  is_crowded limit s =
      is_positive s.details.max_connections
      && lt limit (div (plain_sum (lit 0 1) s.details.connection_states) s.details.max_connections)

  abbrev has_waiting : MonitorSample Num → Bool
  has_waiting s = is_positive s.details.waiting_lock_count

  unfoldable pub locks_stage : List (MonitorSample Num) → MonitorSample Num → Stage → Stage
  locks_stage history sample stage =
      let samples = history ++ sample ∷ [] in
      if is_postgres sample.monitor
        && (has_waiting sample && sustained samples has_waiting (minutes 5))
      then record { level = critical; reason = codes "waiting_locks_critical" }
      else if is_postgres sample.monitor
          && (has_waiting sample && leb 2 (length (trailing samples has_waiting)))
      then record { level = warning; reason = codes "waiting_locks_warning" }
      else stage

  unfoldable pub connections_stage : List (MonitorSample Num) → MonitorSample Num → Stage → Stage
  connections_stage history sample stage =
      let samples = history ++ sample ∷ [] in
      if is_postgres sample.monitor
        && (lt (lit 9 10) (connection_ratio sample)
            && sustained samples (is_crowded (lit 9 10)) (minutes 5))
      then record { level = critical; reason = codes "connections_critical" }
      else if is_postgres sample.monitor
          && (lt (lit 8 10) (connection_ratio sample)
              && sustained samples (is_crowded (lit 8 10)) (minutes 5))
      then record { level = warning; reason = codes "connections_warning" }
      else stage

  abbrev fingerprint_reason : MonitorSample Num → Option Text → Text
  fingerprint_reason sample none = name_text sample.monitor ++ codes "_failure"
  fingerprint_reason sample (some f) =
      if is_errors sample.monitor
      then codes "error_" ++ slice 12 f
      else name_text sample.monitor ++ codes "_failure"

  -- Backups, cron jobs and errors report their own level.
  unfoldable pub reported_stage : MonitorSample Num → Stage → Stage
  reported_stage sample stage =
      if is_reported sample.monitor && not (is_healthy_level sample.level)
      then record {
        level = sample.level;
        reason = text_or sample.error_code (fingerprint_reason sample sample.details.fingerprint);
      }
      else stage

  unfoldable pub burst_stage : MonitorSample Num → Stage → Stage
  burst_stage sample stage =
      if is_errors sample.monitor
        && (le (lit 10 1) sample.details.fingerprint_count5m || sample.details.is_fatal)
      then record {
        level = critical;
        reason =
            if sample.details.is_fatal
            then codes "fatal_log_line"
            else codes "error_fingerprint_burst";
      }
      else stage

  unfoldable pub condition_of : MonitorSample Num → Bool
  condition_of sample =
      if is_postgres sample.monitor
      then is_healthy sample
        && (le sample.details.waiting_lock_count (lit 0 1)
            && le (connection_ratio sample) (lit 8 10))
      else if is_errors sample.monitor
      then is_healthy sample
        && (lt sample.details.fingerprint_count5m (lit 10 1) && not sample.details.is_fatal)
      else is_healthy sample

  -- The stages in their order.
  unfoldable pub stages : List (MonitorSample Num) → MonitorSample Num → MonitorLevel → Stage
  unfolding process_stage locks_stage connections_stage reported_stage burst_stage
  stages history sample previous_level = burst_stage sample (
      reported_stage sample (
        connections_stage history sample (
          locks_stage history sample
            (process_stage history sample previous_level (first_stage sample)))))

abbrev pub hold_recovery : Bool → MonitorLevel → MonitorLevel → ℕ → Bool
hold_recovery condition previous_level before_clear clear =
    condition && ((is_alert previous_level || is_alert before_clear) && ltb clear 2)

abbrev is_given : Option Bool → Bool
is_given none = false
is_given (some b) = true

module _ {Num : Type 0} where
  -- What recovery goes by: how many samples have been clear, and the level before them.
  abbrev pub recovery_eligible :
      List (MonitorSample Num) → Bool → MonitorLevel → MonitorLevel → ℕ → Bool
  recovery_eligible samples condition previous_level before_clear clear =
      condition
      && ((is_alert previous_level && leb 2 clear)
          || (not (any (λ s. is_given s.details.condition_healthy) samples)
              && (is_alert before_clear && clear == 2)))

  unfoldable pub finish : List (MonitorSample Num) → MonitorSample Num → Bool → Stage → Evaluation
  finish history sample condition stage =
      let samples = history ++ sample ∷ [] in
      let previous_level = effective_level (previous history) in
      let clear = length (trailing samples stored_condition_healthy) in
      let before_clear = effective_level (before_last samples clear) in
      if recovery_eligible samples condition previous_level before_clear clear
        && is_healthy_level stage.level
      then report sample.monitor healthy (some recovered) stage.reason condition
      else if hold_recovery condition previous_level before_clear clear
          && is_healthy_level stage.level
      then (let level = if is_alert previous_level then previous_level else before_clear in
          report sample.monitor level (transition_to previous_level level)
            (codes "awaiting_recovery_baseline") condition)
      else report sample.monitor stage.level (transition_to previous_level stage.level) stage.reason
          condition

module _ (numbers : Numbers) (goes_first : Text → Text → Bool) where
  open numbers use {Num}

  unfoldable pub evaluate_monitor : List (MonitorSample Num) → MonitorSample Num → Evaluation
  unfolding finish_infrastructure finish stages condition_of
  evaluate_monitor history sample =
      if is_infrastructure sample.monitor
      then finish_infrastructure history sample
          (evaluate_infrastructure numbers goes_first sample.monitor history sample)
      else finish history sample (condition_of numbers sample)
          (stages numbers history sample (effective_level (previous history)))
