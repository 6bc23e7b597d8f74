-- ===== src/Notifier/Schedule.antt =====
-- `scheduleIssueAlerts` (apps/notifier/src/outbox/scheduleAlerts.ts): the planned alerts, for every
-- rule that matches the issue.
use nancy_man.Base.{
  ℕ, ◌≤◌, Text, codes, Bool, true, List, [], ◌∷◌, ◌++◌, Option, some, none, ◌&&◌, ◌||◌, leb, same,
  is_empty, keep, map, length, length-map, length-append, arith,
}
use nancy_man.Notifier.Policy.{
  Severity, critical, high, medium, low, AlertIssue, DeliveryKind, IssueEvent, PlannedAlert,
  plan_issue_alerts, length-plan_issue_alerts,
}

abbrev pub severity_rank : Severity → ℕ
severity_rank critical = 4
severity_rank high = 3
severity_rank medium = 2
severity_rank low = 1

pub data Channel : Type 0 where
  zalo email : Channel

pub record AlertRule : Type 0 where
  pub id : Text
  pub minimum_severity : Severity
  pub source : Option Text
  pub error_code : Option Text
  pub channel : Channel
  pub recipient_reference : Text

pub record Delivery : Type 0 where
  pub rule_id : Text
  pub channel : Channel
  pub recipient_reference : Text
  pub kind : DeliveryKind
  pub deliver_at : ℕ
  pub dedup_key : Text

-- `!wanted || wanted === actual`.
abbrev pub is_wanted : Option Text → Text → Bool
is_wanted none actual = true
is_wanted (some wanted) actual = is_empty wanted || same wanted actual

unfoldable pub matches : AlertIssue → AlertRule → Bool
matches issue rule =
    leb (severity_rank rule.minimum_severity) (severity_rank issue.severity)
    && (is_wanted rule.source issue.source && is_wanted rule.error_code issue.error_code)

abbrev pub delivery : PlannedAlert → AlertRule → Delivery
delivery alert rule = record {
  rule_id = rule.id;
  channel = rule.channel;
  recipient_reference = rule.recipient_reference;
  kind = alert.kind;
  deliver_at = alert.deliver_at;
  dedup_key = alert.dedup_key ++ (codes ":" ++ rule.id);
}

-- The `flatMap` over the planned alerts.
unfoldable pub deliveries : AlertIssue → List AlertRule → List PlannedAlert → List Delivery
deliveries issue rules [] = []
deliveries issue rules (alert ∷ alerts) =
    map (delivery alert) (keep (matches issue) rules) ++ deliveries issue rules alerts

unfoldable pub schedule_issue_alerts :
    (ℕ → Text) → AlertIssue → IssueEvent → ℕ → List AlertRule → List Delivery
schedule_issue_alerts minute_key issue event occurred_at rules =
    deliveries issue rules (plan_issue_alerts minute_key issue occurred_at event)

length-keep {ℓ} : {A : Type ℓ} (p : A → Bool) (xs : List A) → length (keep p xs) ≤ length xs
length-keep p [] = omega arith
length-keep p (x ∷ xs) = ground (arith, length-keep p xs)

length-deliveries :
    (issue : AlertIssue) (rules : List AlertRule) (alerts : List PlannedAlert)
    → length alerts ≤ 1
    → length (deliveries issue rules alerts) ≤ length rules
unfolding deliveries
length-deliveries issue rules [] h = omega arith
length-deliveries issue rules (alert ∷ []) h = omega (
  arith,
  length-append (map (delivery alert) (keep (matches issue) rules)) [],
  length-map (delivery alert) (keep (matches issue) rules),
  length-keep (matches issue) rules,
)
length-deliveries issue rules (alert ∷ b ∷ alerts) h = absurd (omega arith)

-- An event of an issue schedules at most one delivery for each rule, so nothing where there are no
-- rules.
pub length-schedule_issue_alerts :
    (minute_key : ℕ → Text) (issue : AlertIssue) (event : IssueEvent) (occurred_at : ℕ)
    (rules : List AlertRule)
    → length (schedule_issue_alerts minute_key issue event occurred_at rules) ≤ length rules
unfolding schedule_issue_alerts
length-schedule_issue_alerts minute_key issue event occurred_at rules =
    length-deliveries issue rules (plan_issue_alerts minute_key issue occurred_at event)
      (length-plan_issue_alerts minute_key issue occurred_at event)
