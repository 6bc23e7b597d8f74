-- ===== src/Apply/Journal/Keeps.antt =====
-- Steps that keep a condition on the machine of a run and on its events, whether they return or
-- throw (apps/config-agent/src/changes/applyCoordinator.ts).
use nancy_man.Base.{Bool, true, false, List, ◌∷◌, Option, ◌≡◌, sym, subst, Result}
use nancy_man.Apply.Machine.{Machine}
use nancy_man.Apply.Model.{
  ApplyEvent, ApplyCoordinatorErrorCode, Thrown, Call, Run, Step, pure, throw, refuse_if, when,
  call, modify,
}
use nancy_man.Apply.Meets.{Meets, pure-Meets, call-Meets, modify-Meets}
use nancy_man.Apply.Journal.{journal}

abbrev pub At : (Option Machine → List ApplyEvent → Type 0) → Run → Type 0
At P run = P run.machine (journal run.calls)

-- From a condition, a step returns in it and throws in another.
abbrev pub Keeps :
    (P X : Option Machine → List ApplyEvent → Type 0) → {A : Type 0} → Step A → Type 0
Keeps P X step = Meets (At P) (λ _. At P) (At X) step

abbrev pub Weakens : (P X : Option Machine → List ApplyEvent → Type 0) → Type 0
Weakens P X = (m : Option Machine) (events : List ApplyEvent) → P m events → X m events

module _ {P X : Option Machine → List ApplyEvent → Type 0} (weaken : Weakens P X) where
  pub pure-Keeps : {A : Type 0} (a : A) → Keeps P X (pure a)
  pure-Keeps a = pure-Meets a (λ run p. p)

  pub throw-Keeps : {A : Type 0} (e : Thrown) → Keeps P X (throw {A = A} e)
  unfolding throw
  throw-Keeps e = record { met = λ run p. weaken run.machine (journal run.calls) p }

  pub refuse_if-Keeps : (b : Bool) (code : ApplyCoordinatorErrorCode) → Keeps P X (refuse_if b code)
  unfolding refuse_if
  refuse_if-Keeps true code = throw-Keeps _
  refuse_if-Keeps false code = pure-Keeps _

  pub when-Keeps : (b : Bool) {step : Step (Unit {0})} → Keeps P X step → Keeps P X (when b step)
  unfolding when
  when-Keeps true s = s
  when-Keeps false s = pure-Keeps _

  -- A call that hands over no event.
  pub call-Keeps :
      {A : Type 0} (c : Call) (answer : List Call → Result Thrown A)
      → ((calls : List Call) → journal (c ∷ calls) ≡ journal calls)
      → Keeps P X (call c answer)
  call-Keeps c answer h =
      call-Meets c answer (λ run p. subst (λ es. P run.machine es) (sym (h run.calls)) p)
        (λ run p. weaken run.machine (journal run.calls) p)

  -- A change of the other variables.
  pub modify-Keeps :
      (f : Run → Run)
      → ((run : Run) → (f run).machine ≡ run.machine)
      → ((run : Run) → (f run).calls ≡ run.calls)
      → Keeps P X (modify f)
  modify-Keeps f machines calls = modify-Meets f (λ run p.
      subst (λ m. P m (journal (f run).calls)) (sym (machines run))
        (subst (λ cs. P run.machine (journal cs)) (sym (calls run)) p))
