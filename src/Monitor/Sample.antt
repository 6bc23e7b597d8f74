-- ===== src/Monitor/Sample.antt =====
-- Samples of monitors (apps/web/src/shared/models.ts), with the details as the state machine reads
-- them: a field that is absent or of another type is `none`, or the default that the code gives it.
use nancy_man.Base.{
  ℕ, Text, codes, Bool, true, false, List, Option, some, none, not, ◌&&◌, ◌||◌, ◌==◌,
}

pub data MonitorName : Type 0 where
  app_liveness app_health app_process postgres errors cron backup collector beszel : MonitorName
  host_resources host_services : MonitorName

abbrev pub name_text : MonitorName → Text
name_text app_liveness = codes "app_liveness"
name_text app_health = codes "app_health"
name_text app_process = codes "app_process"
name_text postgres = codes "postgres"
name_text errors = codes "errors"
name_text cron = codes "cron"
name_text backup = codes "backup"
name_text collector = codes "collector"
name_text beszel = codes "beszel"
name_text host_resources = codes "host_resources"
name_text host_services = codes "host_services"

pub data MonitorLevel : Type 0 where
  unknown healthy warning critical : MonitorLevel

abbrev pub level_text : MonitorLevel → Text
level_text unknown = codes "unknown"
level_text healthy = codes "healthy"
level_text warning = codes "warning"
level_text critical = codes "critical"

abbrev pub level_tag : MonitorLevel → ℕ
level_tag unknown = 0
level_tag healthy = 1
level_tag warning = 2
level_tag critical = 3

abbrev pub same_level : MonitorLevel → MonitorLevel → Bool
same_level a b = level_tag a == level_tag b

abbrev pub is_healthy_level : MonitorLevel → Bool
is_healthy_level healthy = true
is_healthy_level _ = false

-- `alertLevels.includes`.
abbrev pub is_alert : MonitorLevel → Bool
is_alert warning = true
is_alert critical = true
is_alert _ = false

-- The numbers of JavaScript, of which the code uses these operations. `lit n d` is the literal n/d.
pub record Numbers : Type 1 where
  pub Num : Type 0
  pub le : Num → Num → Bool
  pub lt : Num → Num → Bool
  pub is_finite : Num → Bool
  pub add : Num → Num → Num
  pub div : Num → Num → Num
  pub lit : ℕ → ℕ → Num

pub record Details (Num : Type 0) : Type 0 where
  pub probe_failed : Bool  -- probeOk === false
  pub effective_level : Option MonitorLevel
  pub condition_healthy : Option Bool
  pub dedupe_key : Option Text  -- a non-empty text
  pub cpu_percent : Option Num  -- finiteNumber, as for the next four
  pub memory_percent : Option Num
  pub disk_percent : Option Num
  pub load5 : Option Num
  pub cpu_threads : Option Num
  pub failed_services : List Text  -- the texts of the array; none if it is no array
  pub waiting_lock_count : Num  -- Number(… ?? 0)
  pub max_connections : Num  -- Number(settings?.maxConnections ?? maxConnections ?? 0)
  pub connection_states : List Num  -- Number of each value of the object, {} if absent
  pub fingerprint : Option Text  -- a non-empty text
  pub fingerprint_count5m : Num  -- Number(… ?? 0)
  pub is_fatal : Bool  -- isFatal === true

pub record MonitorSample (Num : Type 0) : Type 0 where
  pub monitor : MonitorName
  pub level : MonitorLevel
  pub observed_at : Option ℕ  -- Date.parse, if finite
  pub details : Details Num
  pub error_code : Option Text

pub data Transition : Type 0 where
  opened changed recovered : Transition

pub record Evaluation : Type 0 where
  pub level : MonitorLevel
  pub transition : Option Transition
  pub dedupe_key : Text
  pub safe_summary : Text
  pub condition_healthy : Bool

abbrev level_or : Option MonitorLevel → MonitorLevel → MonitorLevel
level_or none level = level
level_or (some l) level = l

abbrev condition_or : Option Bool → Bool → Bool
condition_or none b = b
condition_or (some c) b = c

module _ {Num : Type 0} where
  abbrev pub is_healthy : MonitorSample Num → Bool
  is_healthy sample = is_healthy_level sample.level && not sample.details.probe_failed

  -- The negation, in the words of the code: `level !== 'healthy' || probeOk === false`.
  abbrev pub is_failed : MonitorSample Num → Bool
  is_failed sample = not (is_healthy_level sample.level) || sample.details.probe_failed

  abbrev pub effective_level : Option (MonitorSample Num) → MonitorLevel
  effective_level none = unknown
  effective_level (some sample) = level_or sample.details.effective_level sample.level

  abbrev pub stored_condition_healthy : MonitorSample Num → Bool
  stored_condition_healthy sample =
      condition_or sample.details.condition_healthy (is_healthy sample)
