-- ===== src/Monitor/Tests.antt =====
-- A liveness monitor that fails, becomes critical and recovers. Numbers are natural numbers here.
use nancy_man.Base.{
  ℕ, ◌+◌, ◌/◌, Text, codes, Bool, true, false, [], ◌∷◌, some, none, ◌≡◌, refl, leb, ltb,
}
use nancy_man.Monitor.Sample.{
  app_liveness, MonitorLevel, unknown, healthy, critical, warning, Numbers, MonitorSample, opened,
  recovered, stored_condition_healthy,
}
use nancy_man.Monitor.Window.{previous, trailing, sustained}
use nancy_man.Monitor.Resources.{Candidate}
use nancy_man.Monitor.Evaluate.{evaluate_monitor}
use nancy_man.Monitor.Transitions.{IsSound, evaluate_monitor-IsSound}
use nancy_man.Monitor.Recovery.{WasAlert, evaluate_monitor-recovered}

abbrev counting : Numbers
counting = record {
  Num = ℕ;
  le = leb;
  lt = ltb;
  is_finite = λ x. true;
  add = λ x y. x + y;
  div = λ x y. x / y;
  lit = λ n d. n / d;
}

abbrev no_order : Text → Text → Bool
no_order s t = false

abbrev sample : MonitorLevel → MonitorLevel → Bool → MonitorSample ℕ
sample level effective condition = record {
  monitor = app_liveness;
  level = level;
  observed_at = some 0;
  details = record {
    probe_failed = false;
    effective_level = some effective;
    condition_healthy = some condition;
    dedupe_key = none;
    cpu_percent = none;
    memory_percent = none;
    disk_percent = none;
    load5 = none;
    cpu_threads = none;
    failed_services = [];
    waiting_lock_count = 0;
    max_connections = 0;
    connection_states = [];
    fingerprint = none;
    fingerprint_count5m = 0;
    is_fatal = false;
  };
  error_code = none;
}

abbrev failed : MonitorSample ℕ
failed = sample critical unknown false

abbrev good : MonitorSample ℕ
good = sample healthy critical true

second_failure_opens :
    ((evaluate_monitor counting no_order (failed ∷ []) failed).level ≡ critical)
    × ((evaluate_monitor counting no_order (failed ∷ []) failed).transition ≡ some opened)
unfolding evaluate_monitor trailing sustained
second_failure_opens = (refl, refl)

second_success_recovers :
    (evaluate_monitor counting no_order (failed ∷ good ∷ []) good).transition ≡ some recovered
unfolding evaluate_monitor trailing sustained
second_success_recovers = refl

evaluate_monitor-IsSound_example :
    IsSound unknown (evaluate_monitor counting no_order (failed ∷ []) failed)
evaluate_monitor-IsSound_example = evaluate_monitor-IsSound counting no_order (failed ∷ []) failed

evaluate_monitor-recovered_example :
    WasAlert (failed ∷ good ∷ []) good
    × ((prev : MonitorSample ℕ) × (previous (failed ∷ good ∷ []) ≡ some prev)
        × (stored_condition_healthy prev ≡ true)
        × (stored_condition_healthy good ≡ true))
evaluate_monitor-recovered_example =
    evaluate_monitor-recovered counting no_order (failed ∷ good ∷ []) good second_success_recovers

abbrev cpu : Candidate
cpu = record { level = warning; reason = codes "cpu_warning"; priority = 2 }

abbrev disk : Candidate
disk = record { level = critical; reason = codes "disk_critical"; priority = 0 }
