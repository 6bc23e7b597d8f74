-- ===== src/Notifier/Tests.antt =====
-- A new critical issue six and twenty minutes after it was first seen.
use nancy_man.Base.{ℕ, Text, codes, [], ◌∷◌, none, some, ◌≡◌, refl, map, same}
use nancy_man.Notifier.Policy.{
  AlertIssue, critical, high, new, tick, plan_issue_alerts, plan_issue_alerts_tick, due, escalation,
  reminder,
}
use nancy_man.Notifier.Schedule.{AlertRule, zalo, email, schedule_issue_alerts, deliveries, matches}

abbrev no_minute : ℕ → Text
no_minute n = codes "t"

abbrev outage : AlertIssue
outage = record {
  id = codes "i1";
  severity = critical;
  status = new;
  source = codes "database";
  error_code = codes "DB_UNAVAILABLE";
  first_seen_at = 1000000;
  last_seen_at = 1000000;
  occurrence_count = 1;
}

reminds : map (λ a. a.kind) (plan_issue_alerts no_minute outage 1360000 tick) ≡ reminder ∷ []
unfolding plan_issue_alerts
reminds = refl

escalates : map (λ a. a.kind) (plan_issue_alerts no_minute outage 2200000 tick) ≡ escalation ∷ []
unfolding plan_issue_alerts
escalates = refl

plan_issue_alerts_tick_example :
    map (λ a. a.kind) (plan_issue_alerts no_minute outage 2200000 tick) ≡ due outage 2200000
plan_issue_alerts_tick_example = plan_issue_alerts_tick no_minute outage 2200000

abbrev any_source : AlertRule
any_source = record {
  id = codes "r1";
  minimum_severity = high;
  source = none;
  error_code = none;
  channel = zalo;
  recipient_reference = codes "team";
}

abbrev the_processor : AlertRule
the_processor = record {
  id = codes "r2";
  minimum_severity = high;
  source = some (codes "process");
  error_code = none;
  channel = email;
  recipient_reference = codes "owner";
}

schedules_one :
    map
      (λ d. d.rule_id)
      (schedule_issue_alerts no_minute outage tick 2200000 (any_source ∷ the_processor ∷ []))
    ≡ codes "r1" ∷ []
unfolding schedule_issue_alerts deliveries matches plan_issue_alerts same
schedules_one = refl
