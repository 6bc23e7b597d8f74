-- ===== src/Monitor/Infrastructure.antt =====
-- `evaluateInfrastructure` and `infrastructureRecovery`
-- (apps/web/src/server/collector/statusMachine.ts). The Vietnamese order of service names is a
-- parameter, `goes_first`.
use nancy_man.Base.{
  Text, codes, Bool, true, false, List, [], ◌∷◌, ◌++◌, Option, some, none, ltb, leb, length, not,
  ◌||◌, if◌then◌else◌, keep, member,
}
use nancy_man.Monitor.Sample.{
  MonitorName, beszel, host_resources, MonitorLevel, unknown, healthy, critical, Numbers,
  MonitorSample, Transition, recovered, is_failed, is_alert, effective_level,
  stored_condition_healthy,
}
use nancy_man.Monitor.Window.{trailing, before_last, previous}
use nancy_man.Monitor.Resources.{Candidate, evaluate_resources}

abbrev pub text_or : Option Text → Text → Text
text_or none t = t
text_or (some s) t = s

pub record Verdict : Type 0 where
  pub level : MonitorLevel
  pub reason : Text
  pub condition_healthy : Bool

-- The first of the sorted texts.
unfoldable pub first_service : (Text → Text → Bool) → List Text → Option Text
first_service goes_first [] = none
first_service goes_first (t ∷ ts) = elim (first_service goes_first ts) [
  | none ↦ some t
  | some u ↦ if goes_first u t then some u else some t
]

abbrev pub no_services : List Text → Bool
no_services [] = true
no_services (t ∷ ts) = false

module _ (numbers : Numbers) (goes_first : Text → Text → Bool) where
  open numbers use {Num}

  abbrev pub resources_verdict : Option Candidate × Bool → Verdict
  resources_verdict (none, ok) = record {
    level = healthy;
    reason = codes "host_resources_state";
    condition_healthy = ok;
  }
  resources_verdict (some c, ok) = record {
    level = c.level;
    reason = c.reason;
    condition_healthy = ok;
  }

  unfoldable pub beszel_verdict : List (MonitorSample Num) → MonitorSample Num → Verdict
  beszel_verdict history sample =
      let failed = is_failed sample in
      let two_failures = leb 2 (length (trailing (history ++ sample ∷ []) is_failed)) in
      record {
        level = if two_failures then critical else if failed then unknown else healthy;
        reason =
            if two_failures
            then codes "beszel_unavailable"
            else text_or sample.error_code (codes "beszel_state");
        condition_healthy = not failed;
      }

  abbrev pub failed_of : Option (MonitorSample Num) → List Text
  failed_of none = []
  failed_of (some s) = s.details.failed_services

  abbrev services_level : Option Text → MonitorLevel
  services_level none = healthy
  services_level (some t) = critical

  abbrev services_reason : Option Text → Text
  services_reason none = codes "host_services_state"
  services_reason (some t) = codes "service_failed:" ++ t

  -- A service is down if it failed in this sample and in the one before.
  unfoldable pub services_verdict : List (MonitorSample Num) → MonitorSample Num → Verdict
  unfolding first_service
  services_verdict history sample =
      let failed = sample.details.failed_services in
      let same_failed = keep (λ t. member t (failed_of (previous history))) failed in
      let first = first_service goes_first same_failed in
      record {
        level = services_level first;
        reason = services_reason first;
        condition_healthy = no_services failed;
      }

  -- The name is one of the three infrastructure monitors.
  unfoldable pub evaluate_infrastructure :
      MonitorName → List (MonitorSample Num) → MonitorSample Num → Verdict
  unfolding beszel_verdict services_verdict
  evaluate_infrastructure host_resources history sample =
      resources_verdict (evaluate_resources numbers (history ++ sample ∷ []) sample.details)
  evaluate_infrastructure beszel history sample = beszel_verdict history sample
  evaluate_infrastructure _ history sample = services_verdict history sample

pub record Recovery : Type 0 where
  pub level : MonitorLevel
  pub transition : Option Transition
  pub reason : Option Text

module _ {Num : Type 0} where
  unfoldable pub infrastructure_recovery : List (MonitorSample Num) → Bool → MonitorLevel → Recovery
  infrastructure_recovery samples condition_healthy previous_effective =
      let clear = length (trailing samples stored_condition_healthy) in
      let before_clear = effective_level (before_last samples clear) in
      if not condition_healthy || not (is_alert previous_effective)
      then record { level = healthy; transition = none; reason = none }
      else if not (is_alert previous_effective || is_alert before_clear)
      then record { level = healthy; transition = none; reason = none }
      else if ltb clear 2
      then record {
        level = previous_effective;
        transition = none;
        reason = some (codes "awaiting_recovery_baseline");
      }
      else record { level = healthy; transition = some recovered; reason = none }
