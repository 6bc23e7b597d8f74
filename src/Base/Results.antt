-- ===== src/Base/Results.antt =====
-- Results: a thrown error is a value.
use mathlib.Core.Path.{◌≡◌, refl, ap}
use mathlib.Core.Logic.{◌⊎◌, inl, inr}
use native.Mathlib.Omega.{arith}
use mathlib.Core.Bool.{Bool, true, false}

pub data Result {ℓ κ} (E : Type κ) (A : Type ℓ) : Type (ℓ ⊔ κ) where
  ok : A → Result E A
  err : E → Result E A

infixl 5 ◌>>=◌ ◌>>◌
abbrev pub ◌>>=◌ : {E A B : Type 0} → Result E A → (A → Result E B) → Result E B
ok a >>= f = f a
err e >>= f = err e

abbrev pub ◌>>◌ : {E B : Type 0} → Result E (Unit {0}) → Result E B → Result E B
m >> k = m >>= λ _. k

-- `if (b) throw e`.
abbrev pub throw_if : {E : Type 0} → Bool → E → Result E (Unit {0})
throw_if true e = err e
throw_if false e = ok tt

pub throw_if-eq-ok : {E : Type 0} (b : Bool) (e : E) → throw_if b e ≡ ok tt → b ≡ false
throw_if-eq-ok true e h = cc
throw_if-eq-ok false e h = refl

pub Result-cases :
    {E A : Type 0} (m : Result E A) → ((a : A) × (m ≡ ok a)) ⊎ ((e : E) × (m ≡ err e))
Result-cases (ok a) = inl (a, refl)
Result-cases (err e) = inr (e, refl)

module _ {E A B : Type 0} (step : Result E A) (rest : A → Result E B) where
  -- A chain succeeds only if its first step does.
  pub >>=-eq-ok :
      {out : B} → (step >>= rest) ≡ ok out → (mid : A) × (step ≡ ok mid) × (rest mid ≡ ok out)
  >>=-eq-ok p = elim (Result-cases step) [
    | inl (mid, went) ↦ (mid, went, (rw (went, ◌>>=◌) at p))
    | inr (e, failed) ↦ absurd (ground arith)
  ]

pub ok-injective : {E A : Type 0} (a b : A) → ◌≡◌ {A = Result E A} (ok a) (ok b) → a ≡ b
ok-injective a b p = ap (λ r. elim r [ ok x ↦ x | err e ↦ a ]) p

pub throw_if-passes :
    {E A : Type 0} (b : Bool) (e : E) (rest : Result E A) (out : A)
    → (throw_if b e >> rest) ≡ ok out
    → (b ≡ false) × (rest ≡ ok out)
throw_if-passes true e rest out h = absurd (ground arith)
throw_if-passes false e rest out h = (refl, h)
