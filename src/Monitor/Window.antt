-- ===== src/Monitor/Window.antt =====
-- `trailing` and `sustained` (apps/web/src/server/collector/statusMachine.ts), and the last samples.
use nancy_man.Base.{
  ℕ, ◌+◌, ◌≤◌, Bool, true, false, List, [], ◌∷◌, ◌++◌, Option, some, none, ◌≡◌, refl, leb, ltb,
  length, last?, if◌then◌else◌, arith, Bool-cases, inl, inr, All,
}
use mathlib.Core.List.{reverse, reverse-append}
use nancy_man.Monitor.Sample.{MonitorSample}

abbrev pub lasts : Option ℕ → Option ℕ → ℕ → Bool
lasts (some first) (some last) milliseconds = leb (first + milliseconds) last
lasts _ _ _ = false

module _ {Num : Type 0} where
  -- The loop of `trailing`, from the newest sample backwards.
  unfoldable pub trailing_from :
      (MonitorSample Num → Bool)
      → List (MonitorSample Num)
      → List (MonitorSample Num)
      → List (MonitorSample Num)
  trailing_from predicate [] result = result
  trailing_from predicate (s ∷ ss) result =
      let rest = trailing_from predicate ss (s ∷ result) in if predicate s then rest else result

  unfoldable pub trailing :
      List (MonitorSample Num) → (MonitorSample Num → Bool) → List (MonitorSample Num)
  unfolding trailing_from
  trailing samples predicate = trailing_from predicate (reverse samples) []

  abbrev pub time_of : Option (MonitorSample Num) → Option ℕ
  time_of none = none
  time_of (some s) = s.observed_at

  abbrev pub head? : List (MonitorSample Num) → Option (MonitorSample Num)
  head? [] = none
  head? (s ∷ ss) = some s

  -- `last - first >= milliseconds`, over at least two samples.
  unfoldable pub sustained : List (MonitorSample Num) → (MonitorSample Num → Bool) → ℕ → Bool
  sustained samples predicate milliseconds =
      let matches = trailing samples predicate in
      if ltb (length matches) 2
      then false
      else lasts (time_of (head? matches)) (time_of (last? matches)) milliseconds

  -- `samples.at(-(n + 1))`.
  abbrev pub nth : ℕ → List (MonitorSample Num) → Option (MonitorSample Num)
  nth n [] = none
  nth ℕ.zero (s ∷ ss) = some s
  nth (ℕ.suc n) (s ∷ ss) = nth n ss

  abbrev pub before_last : List (MonitorSample Num) → ℕ → Option (MonitorSample Num)
  before_last samples n = nth n (reverse samples)

  trailing_from-All :
      (p : MonitorSample Num → Bool) (ss result : List (MonitorSample Num))
      → All (λ s. p s ≡ true) result
      → All (λ s. p s ≡ true) (trailing_from p ss result)
  unfolding trailing_from
  trailing_from-All p [] result h = h
  trailing_from-All p (s ∷ ss) result h = elim (Bool-cases (p s)) [
    | inl hit ↦ rw hit (trailing_from-All p ss (s ∷ result) (hit, h))
    | inr miss ↦ rw miss h
  ]

  trailing_from-length :
      (p : MonitorSample Num → Bool) (ss result : List (MonitorSample Num))
      → length (trailing_from p ss result) ≤ length ss + length result
  unfolding trailing_from
  trailing_from-length p [] result = omega arith
  trailing_from-length p (s ∷ ss) result = ground (arith, trailing_from-length p ss (s ∷ result))

  -- If the newest sample does not pass, nothing trails.
  pub trailing-miss :
      (history : List (MonitorSample Num)) (sample : MonitorSample Num)
      (p : MonitorSample Num → Bool)
      → p sample ≡ false
      → trailing (history ++ sample ∷ []) p ≡ []
  unfolding trailing
  trailing-miss history sample p h = rw (reverse-append history (sample ∷ [])) (ground arith)

  -- The newest sample of a history.
  abbrev pub previous : List (MonitorSample Num) → Option (MonitorSample Num)
  previous history = before_last history 0

  -- Two trailing samples are the newest and the one before it.
  pub trailing-two :
      (history : List (MonitorSample Num)) (sample : MonitorSample Num)
      (p : MonitorSample Num → Bool)
      → ltb (length (trailing (history ++ sample ∷ []) p)) 2 ≡ false
      → (prev : MonitorSample Num) × (previous history ≡ some prev)
        × (p prev ≡ true)
        × (p sample ≡ true)
  unfolding trailing
  trailing-two history sample p h =
      two_of (reverse history) (rw (reverse-append history (sample ∷ [])) at h)
    where
      two_of :
          (rest : List (MonitorSample Num))
          → ltb (length (trailing_from p (sample ∷ rest) [])) 2 ≡ false
          → (prev : MonitorSample Num) × (nth 0 rest ≡ some prev)
            × (p prev ≡ true)
            × (p sample ≡ true)
      two_of [] h = absurd (ground arith)
      two_of (r ∷ rs) h = (r, refl, ground arith, ground arith)
