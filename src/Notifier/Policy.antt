-- ===== src/Notifier/Policy.antt =====
-- `planIssueAlerts` (apps/notifier/src/policy/alertPolicy.ts). A date is the number of its
-- milliseconds from the earliest date; an issue that is first seen after `now` has no minute
-- elapsed. `minuteKey`, which prints a date up to its minute, is a parameter.
use nancy_man.Base.{
  ℕ, suc, ◌+◌, ◌-◌, ◌*◌, ◌/◌, ◌≤◌, Text, codes, Bool, true, false, List, [], ◌∷◌, ◌++◌, ◌≡◌, refl,
  leb, if◌then◌else◌, arith, map, Bool-cases, inl, inr, length,
}

pub data Severity : Type 0 where
  critical high medium low : Severity

pub data IssueStatus : Type 0 where
  new acknowledged investigating resolved ignored regressed : IssueStatus

pub data IssueEvent : Type 0 where
  created has_regressed has_resolved tick : IssueEvent

pub data DeliveryKind : Type 0 where
  new_alert digest reminder escalation resolved_alert regressed_alert : DeliveryKind

pub data RecipientTier : Type 0 where
  on_call owner : RecipientTier

pub record AlertIssue : Type 0 where
  pub id : Text
  pub severity : Severity
  pub status : IssueStatus
  pub source : Text
  pub error_code : Text
  pub first_seen_at : ℕ
  pub last_seen_at : ℕ
  pub occurrence_count : ℕ

pub record PlannedAlert : Type 0 where
  pub kind : DeliveryKind
  pub deliver_at : ℕ
  pub dedup_key : Text
  pub recipient_tier : RecipientTier

abbrev pub is_ignored : IssueStatus → Bool
is_ignored ignored = true
is_ignored _ = false

-- `issue.severity === 'critical' && issue.status === 'new'`.
abbrev pub is_new_critical : Severity → IssueStatus → Bool
is_new_critical critical new = true
is_new_critical critical acknowledged = false
is_new_critical critical investigating = false
is_new_critical critical resolved = false
is_new_critical critical ignored = false
is_new_critical critical regressed = false
is_new_critical high status = false
is_new_critical medium status = false
is_new_critical low status = false

abbrev pub elapsed_minutes : AlertIssue → ℕ → ℕ
elapsed_minutes issue now = (now - issue.first_seen_at) / 60000

abbrev pub alert : DeliveryKind → ℕ → Text → RecipientTier → List PlannedAlert
alert kind deliver_at dedup_key tier =
    record { kind = kind; deliver_at = deliver_at; dedup_key = dedup_key; recipient_tier = tier }
    ∷ []

module _ (minute_key : ℕ → Text) where
  -- The digest of an issue that is not critical, five minutes later.
  abbrev pub plan_digest : AlertIssue → ℕ → List PlannedAlert
  plan_digest issue now =
      let deliver_at = now + 5 * 60 * 1000 in
      alert digest deliver_at (issue.id ++ (codes ":digest:" ++ minute_key deliver_at)) on_call

  abbrev pub plan_created : AlertIssue → Severity → ℕ → List PlannedAlert
  plan_created issue critical now = alert new_alert now (issue.id ++ codes ":new") on_call
  plan_created issue high now = plan_digest issue now
  plan_created issue medium now = plan_digest issue now
  plan_created issue low now = plan_digest issue now

  abbrev pub plan_event : AlertIssue → ℕ → IssueEvent → List PlannedAlert
  plan_event issue now has_resolved =
      alert resolved_alert now (issue.id ++ (codes ":resolved:" ++ minute_key now)) on_call
  plan_event issue now has_regressed =
      alert regressed_alert now (issue.id ++ (codes ":regressed:" ++ minute_key now)) on_call
  plan_event issue now created = plan_created issue issue.severity now
  plan_event issue now tick =
      if is_new_critical issue.severity issue.status
      then (if leb 15 (elapsed_minutes issue now)
          then alert escalation now (issue.id ++ codes ":escalation:1") owner
          else if leb 5 (elapsed_minutes issue now)
          then alert reminder now (issue.id ++ codes ":reminder:1") on_call
          else [])
      else []

  unfoldable pub plan_issue_alerts : AlertIssue → ℕ → IssueEvent → List PlannedAlert
  plan_issue_alerts issue now event =
      if is_ignored issue.status then [] else plan_event issue now event

-- The kind that a tick asks for, by the milliseconds since a new critical issue was first seen.
abbrev pub due_at : Severity → IssueStatus → ℕ → ℕ → List DeliveryKind
due_at critical new first_seen_at now =
    if leb (first_seen_at + 900000) now
    then escalation ∷ []
    else if leb (first_seen_at + 300000) now
    then reminder ∷ []
    else []
due_at critical acknowledged first_seen_at now = []
due_at critical investigating first_seen_at now = []
due_at critical resolved first_seen_at now = []
due_at critical ignored first_seen_at now = []
due_at critical regressed first_seen_at now = []
due_at high status first_seen_at now = []
due_at medium status first_seen_at now = []
due_at low status first_seen_at now = []

abbrev pub due : AlertIssue → ℕ → List DeliveryKind
due issue now = due_at issue.severity issue.status issue.first_seen_at now

-- The same by one test.
due_at-eq :
    (severity : Severity) (status : IssueStatus) (first_seen_at now : ℕ)
    → due_at severity status first_seen_at now
      ≡ (if is_new_critical severity status then due_at critical new first_seen_at now else [])
due_at-eq critical new first_seen_at now = refl
due_at-eq critical acknowledged first_seen_at now = refl
due_at-eq critical investigating first_seen_at now = refl
due_at-eq critical resolved first_seen_at now = refl
due_at-eq critical ignored first_seen_at now = refl
due_at-eq critical regressed first_seen_at now = refl
due_at-eq high status first_seen_at now = refl
due_at-eq medium status first_seen_at now = refl
due_at-eq low status first_seen_at now = refl

new_critical-unignored :
    (severity : Severity) (status : IssueStatus)
    → is_new_critical severity status ≡ true
    → is_ignored status ≡ false
new_critical-unignored critical new h = refl
new_critical-unignored critical acknowledged h = refl
new_critical-unignored critical investigating h = refl
new_critical-unignored critical resolved h = refl
new_critical-unignored critical ignored h = absurd (ground arith)
new_critical-unignored critical regressed h = refl
new_critical-unignored high status h = absurd (ground arith)
new_critical-unignored medium status h = absurd (ground arith)
new_critical-unignored low status h = absurd (ground arith)

leb-minutes :
    (n first now : ℕ) → leb (suc n) ((now - first) / 60000) ≡ leb (first + suc n * 60000) now
leb-minutes n first now = ground arith

-- A tick escalates an issue that is critical and new from fifteen minutes after it was first seen,
-- counted in milliseconds, reminds of it from five minutes on, and asks for nothing else.
pub plan_issue_alerts_tick :
    (minute_key : ℕ → Text) (issue : AlertIssue) (now : ℕ)
    → map (λ a. a.kind) (plan_issue_alerts minute_key issue now tick) ≡ due issue now
unfolding plan_issue_alerts
plan_issue_alerts_tick minute_key issue now =
    let kinds = due_at-eq issue.severity issue.status issue.first_seen_at now in
    elim (Bool-cases (is_new_critical issue.severity issue.status)) [
      | inl new_critical ↦
          rw kinds (ground (arith, new_critical-unignored issue.severity issue.status new_critical))
      | inr other ↦ elim (Bool-cases (is_ignored issue.status)) [
        | inl hidden ↦ rw kinds (ground arith)
        | inr shown ↦ rw kinds (ground arith)
      ]
    ]

length-plan_created :
    (minute_key : ℕ → Text) (issue : AlertIssue) (severity : Severity) (now : ℕ)
    → length (plan_created minute_key issue severity now) ≡ 1
length-plan_created minute_key issue critical now = refl
length-plan_created minute_key issue high now = refl
length-plan_created minute_key issue medium now = refl
length-plan_created minute_key issue low now = refl

length-plan_event :
    (minute_key : ℕ → Text) (issue : AlertIssue) (now : ℕ) (event : IssueEvent)
    → length (plan_event minute_key issue now event) ≤ 1
length-plan_event minute_key issue now created =
    omega (arith, length-plan_created minute_key issue issue.severity now)
length-plan_event minute_key issue now has_regressed = omega arith
length-plan_event minute_key issue now has_resolved = omega arith
length-plan_event minute_key issue now tick = ground arith

-- An event plans at most one alert.
pub length-plan_issue_alerts :
    (minute_key : ℕ → Text) (issue : AlertIssue) (now : ℕ) (event : IssueEvent)
    → length (plan_issue_alerts minute_key issue now event) ≤ 1
unfolding plan_issue_alerts
length-plan_issue_alerts minute_key issue now event =
    let planned = length-plan_event minute_key issue now event in
    elim (Bool-cases (is_ignored issue.status)) [
      | inl hidden ↦ ground arith
      | inr shown ↦ ground (arith, planned)
    ]
