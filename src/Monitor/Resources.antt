-- ===== src/Monitor/Resources.antt =====
-- `evaluateResources` and `choose` (apps/web/src/server/collector/statusMachine.ts).
use nancy_man.Base.{
  ℕ, ◌*◌, Text, codes, Bool, true, false, List, [], ◌∷◌, ◌++◌, Option, some, none, ltb, leb, length,
  ◌&&◌, ◌||◌, if◌then◌else◌,
}
use nancy_man.Monitor.Sample.{
  MonitorLevel, warning, critical, Numbers, Details, MonitorSample, level_tag,
}
use nancy_man.Monitor.Window.{trailing, sustained}

pub record Candidate : Type 0 where
  pub level : MonitorLevel
  pub reason : Text
  pub priority : ℕ

-- The comparison of `choose`: critical first, then by priority.
abbrev pub goes_before : Candidate → Candidate → Bool
goes_before a b =
    ltb (level_tag b.level) (level_tag a.level)
    || (leb (level_tag b.level) (level_tag a.level) && ltb a.priority b.priority)

-- The first of the sorted items: a later item replaces an earlier one only if it goes before it.
unfoldable pub choose : List Candidate → Option Candidate
choose [] = none
choose (c ∷ cs) = elim (choose cs) [
  | none ↦ some c
  | some d ↦ if goes_before d c then some d else some c
]

abbrev pub minutes : ℕ → ℕ
minutes n = n * 60000

-- One `if … else if …`: the critical rule, else the warning rule.
abbrev pub candidates_of : Bool → Bool → Text → Text → ℕ → List Candidate
candidates_of true w critical_reason warning_reason priority =
    record { level = critical; reason = critical_reason; priority = priority } ∷ []
candidates_of false true critical_reason warning_reason priority =
    record { level = warning; reason = warning_reason; priority = priority } ∷ []
candidates_of false false critical_reason warning_reason priority = []

module _ (numbers : Numbers) where
  open numbers use {Num, le, lt, div, lit}

  -- `(x ?? -Infinity) >= n`.
  abbrev pub at_least : Option Num → ℕ → Bool
  at_least none n = false
  at_least (some x) n = le (lit n 1) x

  -- `x !== null && x < n`.
  abbrev pub below : Option Num → ℕ → Bool
  below none n = false
  below (some x) n = lt x (lit n 1)

  -- `load5 / cpuThreads`, if both are there and the threads are positive.
  abbrev pub load_ratio : Details Num → Option Num
  load_ratio d = ratio d.load5 d.cpu_threads
    where
      ratio : Option Num → Option Num → Option Num
      ratio (some load) (some threads) =
          if lt (lit 0 1) threads then some (div load threads) else none
      ratio _ _ = none

  abbrev pub ratio_at_least : Details Num → Num → Bool
  ratio_at_least d n = reaches (load_ratio d)
    where
      reaches : Option Num → Bool
      reaches none = false
      reaches (some r) = le n r

  unfoldable pub cpu_candidates : List (MonitorSample Num) → List Candidate
  cpu_candidates samples =
      candidates_of (sustained samples (λ s. at_least s.details.cpu_percent 95) (minutes 10))
        (sustained samples (λ s. at_least s.details.cpu_percent 85) (minutes 10))
        (codes "cpu_critical") (codes "cpu_warning") 2

  unfoldable pub memory_candidates : List (MonitorSample Num) → List Candidate
  memory_candidates samples =
      candidates_of (sustained samples (λ s. at_least s.details.memory_percent 95) (minutes 5))
        (sustained samples (λ s. at_least s.details.memory_percent 85) (minutes 10))
        (codes "memory_critical") (codes "memory_warning") 1

  unfoldable pub disk_candidates : List (MonitorSample Num) → List Candidate
  disk_candidates samples =
      candidates_of (leb 2 (length (trailing samples (λ s. at_least s.details.disk_percent 90))))
        (leb 2 (length (trailing samples (λ s. at_least s.details.disk_percent 80))))
        (codes "disk_critical") (codes "disk_warning") 0

  unfoldable pub load_candidates : List (MonitorSample Num) → List Candidate
  load_candidates samples =
      candidates_of (sustained samples (λ s. ratio_at_least s.details (lit 3 2)) (minutes 10))
        (sustained samples (λ s. ratio_at_least s.details (lit 1 1)) (minutes 10))
        (codes "load_critical") (codes "load_warning") 3

  abbrev ratio_below_one : Option Num → Bool
  ratio_below_one none = false
  ratio_below_one (some r) = lt r (lit 1 1)

  abbrev pub resources_healthy : Details Num → Bool
  resources_healthy d =
      below d.cpu_percent 85
      && (below d.memory_percent 85 && (below d.disk_percent 80 && ratio_below_one (load_ratio d)))

  unfoldable pub evaluate_resources :
      List (MonitorSample Num) → Details Num → Option Candidate × Bool
  unfolding choose cpu_candidates memory_candidates disk_candidates load_candidates
  evaluate_resources samples details = (
    choose (
        cpu_candidates samples
        ++ (memory_candidates samples ++ (disk_candidates samples ++ load_candidates samples))),
    resources_healthy details,
  )
