-- ===== src/Apply/Meets.antt =====
-- What a step is shown to do from one condition on the variables to another, whether it returns or
-- throws, and the rules by which such facts go along a chain.
use nancy_man.Base.{List, [], ◌∷◌, Result, ok, err}
use nancy_man.Apply.Model.{
  Thrown, Call, Run, Step, continue_with, ◌>>=◌, pure, for_each, caught, attempt, call, modify,
}
use nancy_man.Apply.Plain.{IsPlain, Plainly}

-- Where a step ends: in `Q` when it returns, in `X` when it throws.
abbrev pub Ends :
    {A : Type 0} → (A → Run → Type 0) → (Run → Type 0) → Result Thrown A × Run → Type 0
Ends Q X (ok a, run) = Q a run
Ends Q X (err e, run) = X run

pub record Meets {A : Type 0} (P : Run → Type 0) (Q : A → Run → Type 0) (X : Run → Type 0)
    (step : Step A) : Type 0 where
  pub met : (run : Run) → P run → Ends Q X (step run)

abbrev pub IsKept : (Run → Type 0) → Type 0
IsKept P = (run run' : Run) → Plainly run run' → P run → P run'

continue_with-Ends :
    {A B : Type 0} {Q : A → Run → Type 0} {R : B → Run → Type 0} {X : Run → Type 0} (k : A → Step B)
    (r : Result Thrown A × Run)
    → Ends Q X r
    → ((a : A) → Meets (Q a) R X (k a))
    → Ends R X (continue_with k r)
continue_with-Ends k (ok a, run) q h = (h a).met run q
continue_with-Ends k (err e, run) q h = q

pub >>=-Meets :
    {A B : Type 0} {P X : Run → Type 0} {Q : A → Run → Type 0} {R : B → Run → Type 0}
    {step : Step A} {k : A → Step B}
    → Meets P Q X step
    → ((a : A) → Meets (Q a) R X (k a))
    → Meets P R X (step >>= k)
unfolding ◌>>=◌
>>=-Meets {step = step} {k = k} s h = record {
  met = λ run p. continue_with-Ends k (step run) (s.met run p) h;
}

caught-Ends :
    {A : Type 0} {Q : A → Run → Type 0} {X Y : Run → Type 0} (k : Thrown → Step A)
    (r : Result Thrown A × Run)
    → Ends Q X r
    → ((e : Thrown) → Meets X Q Y (k e))
    → Ends Q Y (caught k r)
caught-Ends k (ok a, run) q h = q
caught-Ends k (err e, run) q h = (h e).met run q

pub attempt-Meets :
    {A : Type 0} {P X Y : Run → Type 0} {Q : A → Run → Type 0} {step : Step A} {k : Thrown → Step A}
    → Meets P Q X step
    → ((e : Thrown) → Meets X Q Y (k e))
    → Meets P Q Y (attempt step k)
unfolding attempt
attempt-Meets {step = step} {k = k} s h = record {
  met = λ run p. caught-Ends k (step run) (s.met run p) h;
}

Ends-same :
    {A : Type 0} (P X : Run → Type 0) (r : Result Thrown A × Run)
    → P r.1
    → (P r.1 → X r.1)
    → Ends (λ _. P) X r
Ends-same P X (ok a, run) p h = p
Ends-same P X (err e, run) p h = h p

-- A plain step keeps what plain steps keep.
pub plain-Meets :
    {A : Type 0} {P X : Run → Type 0} {step : Step A}
    → IsKept P
    → ((run : Run) → P run → X run)
    → IsPlain step
    → Meets P (λ _. P) X step
plain-Meets {P = P} {X = X} {step = step} kept weaken s = record {
  met = λ run p.
      Ends-same P X (step run) (kept run (step run).1 (s.plainly run) p) (weaken (step run).1);
}

pub call-Meets :
    {A : Type 0} {P Q X : Run → Type 0} (c : Call) (answer : List Call → Result Thrown A)
    → ((run : Run) → P run → Q (record run { calls = c ∷ run.calls }))
    → ((run : Run) → Q run → X run)
    → Meets P (λ _. Q) X (call c answer)
unfolding call
call-Meets {Q = Q} {X = X} c answer h weaken = record {
  met = λ run p.
      Ends-same Q X (answer run.calls, record run { calls = c ∷ run.calls }) (h run p)
        (weaken (record run { calls = c ∷ run.calls }));
}

pub modify-Meets :
    {P Q X : Run → Type 0} (f : Run → Run)
    → ((run : Run) → P run → Q (f run))
    → Meets P (λ _. Q) X (modify f)
unfolding modify
modify-Meets f h = record { met = h }

pub pure-Meets :
    {A : Type 0} {P X : Run → Type 0} {Q : A → Run → Type 0} (a : A)
    → ((run : Run) → P run → Q a run)
    → Meets P Q X (pure a)
unfolding pure
pure-Meets a h = record { met = h }

pub for_each-Meets :
    {A : Type 0} {P X : Run → Type 0} {f : A → Step (Unit {0})} (xs : List A)
    → ((x : A) → Meets P (λ _. P) X (f x))
    → Meets P (λ _. P) X (for_each f xs)
unfolding for_each
for_each-Meets [] h = pure-Meets tt (λ run p. p)
for_each-Meets (x ∷ xs) h = >>=-Meets (h x) (λ _. for_each-Meets xs h)
