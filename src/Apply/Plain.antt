-- ===== src/Apply/Plain.antt =====
-- What the calls of a run show: writes, captured snapshots and restored ones. A plain step makes no
-- write and leaves the snapshot and the mark of the first write as they are, whether it returns or
-- throws; plain steps in sequence are plain.
use nancy_man.Base.{
  Bool, true, false, ◌&&◌, ◌||◌, not, List, [], ◌∷◌, ◌≡◌, refl, ap, ◌∙◌, arith, Result, ok, err,
  any, if◌then◌else◌,
}
use nancy_man.Apply.Model.{
  ApplyCoordinatorErrorCode, Thrown, Call, Run, Step, continue_with, ◌>>=◌, pure, throw, refuse_if,
  when, for_each, caught, attempt, call, modify, capture_snapshot, write_source, restore_snapshot,
}

abbrev pub is_write : Call → Bool
is_write (write_source w) = true
is_write _ = false

abbrev pub is_capture : Call → Bool
is_capture (capture_snapshot c r) = true
is_capture _ = false

abbrev pub is_restore : Call → Bool
is_restore (restore_snapshot c r s) = true
is_restore _ = false

-- Every write comes after a capture. The latest call stands first.
abbrev pub guarded : List Call → Bool
guarded [] = true
guarded (c ∷ calls) = (not (is_write c) || any is_capture calls) && guarded calls

pub record Plainly (run run' : Run) : Type 0 where
  pub writes : any is_write run'.calls ≡ any is_write run.calls
  pub guards : guarded run'.calls ≡ guarded run.calls
  pub started : run'.write_started ≡ run.write_started
  pub snapshots : run'.snapshot ≡ run.snapshot
  pub captures : any is_capture run.calls ≡ true → any is_capture run'.calls ≡ true
  pub restores : any is_restore run.calls ≡ true → any is_restore run'.calls ≡ true

pub Plainly-refl : (run : Run) → Plainly run run
Plainly-refl run = record {
  writes = refl;
  guards = refl;
  started = refl;
  snapshots = refl;
  captures = λ h. h;
  restores = λ h. h;
}

-- A change of the other variables.
Plainly-modify :
    (run run' : Run)
    → run'.calls ≡ run.calls
    → run'.write_started ≡ run.write_started
    → run'.snapshot ≡ run.snapshot
    → Plainly run run'
Plainly-modify run run' calls started snapshots = record {
  writes = ap (any is_write) calls;
  guards = ap guarded calls;
  started = started;
  snapshots = snapshots;
  captures = λ h. ap (any is_capture) calls ∙ h;
  restores = λ h. ap (any is_restore) calls ∙ h;
}

pub Plainly-trans : (a b c : Run) → Plainly a b → Plainly b c → Plainly a c
Plainly-trans a b c p q = record {
  writes = q.writes ∙ p.writes;
  guards = q.guards ∙ p.guards;
  started = q.started ∙ p.started;
  snapshots = q.snapshots ∙ p.snapshots;
  captures = λ h. q.captures (p.captures h);
  restores = λ h. q.restores (p.restores h);
}

pub record IsPlain {A : Type 0} (step : Step A) : Type 0 where
  pub plainly : (run : Run) → Plainly run (step run).1

continue_with-Plainly :
    {A B : Type 0} (k : A → Step B) (first : Run) (r : Result Thrown A × Run)
    → ((a : A) → IsPlain (k a))
    → Plainly first r.1
    → Plainly first (continue_with k r).1
continue_with-Plainly k first (ok a, run) h p =
    Plainly-trans first run (k a run).1 p ((h a).plainly run)
continue_with-Plainly k first (err e, run) h p = p

caught-Plainly :
    {A : Type 0} (k : Thrown → Step A) (first : Run) (r : Result Thrown A × Run)
    → ((e : Thrown) → IsPlain (k e))
    → Plainly first r.1
    → Plainly first (caught k r).1
caught-Plainly k first (ok a, run) h p = p
caught-Plainly k first (err e, run) h p = Plainly-trans first run (k e run).1 p ((h e).plainly run)

pub >>=-IsPlain :
    {A B : Type 0} {step : Step A} {k : A → Step B}
    → IsPlain step
    → ((a : A) → IsPlain (k a))
    → IsPlain (step >>= k)
unfolding ◌>>=◌
>>=-IsPlain {step = step} {k = k} s h = record {
  plainly = λ run. continue_with-Plainly k run (step run) h (s.plainly run);
}

pub attempt-IsPlain :
    {A : Type 0} {step : Step A} {k : Thrown → Step A}
    → IsPlain step
    → ((e : Thrown) → IsPlain (k e))
    → IsPlain (attempt step k)
unfolding attempt
attempt-IsPlain {step = step} {k = k} s h = record {
  plainly = λ run. caught-Plainly k run (step run) h (s.plainly run);
}

pub pure-IsPlain : {A : Type 0} (a : A) → IsPlain (pure a)
unfolding pure
pure-IsPlain a = record { plainly = Plainly-refl }

pub throw-IsPlain : {A : Type 0} (e : Thrown) → IsPlain (throw {A = A} e)
unfolding throw
throw-IsPlain e = record { plainly = Plainly-refl }

pub refuse_if-IsPlain : (b : Bool) (code : ApplyCoordinatorErrorCode) → IsPlain (refuse_if b code)
unfolding refuse_if
refuse_if-IsPlain true code = throw-IsPlain _
refuse_if-IsPlain false code = pure-IsPlain _

pub when-IsPlain : (b : Bool) {step : Step (Unit {0})} → IsPlain step → IsPlain (when b step)
unfolding when
when-IsPlain true s = s
when-IsPlain false s = pure-IsPlain _

pub if-IsPlain :
    {A : Type 0} (b : Bool) {s t : Step A} → IsPlain s → IsPlain t → IsPlain (if b then s else t)
if-IsPlain true s t = s
if-IsPlain false s t = t

pub for_each-IsPlain :
    {A : Type 0} {f : A → Step (Unit {0})} (xs : List A)
    → ((x : A) → IsPlain (f x))
    → IsPlain (for_each f xs)
unfolding for_each
for_each-IsPlain [] h = pure-IsPlain _
for_each-IsPlain (x ∷ xs) h = >>=-IsPlain (h x) (λ _. for_each-IsPlain xs h)

-- A call that is no write.
pub call-IsPlain :
    {A : Type 0} (c : Call) (answer : List Call → Result Thrown A)
    → is_write c ≡ false
    → IsPlain (call c answer)
unfolding call
call-IsPlain c answer h = record {
  plainly = λ run. record {
    writes = ground (arith, h);
    guards = ground (arith, h);
    started = refl;
    snapshots = refl;
    captures = λ p. ground (arith, p);
    restores = λ p. ground (arith, p);
  };
}

-- A change of the other variables.
pub modify-IsPlain :
    (f : Run → Run)
    → ((run : Run) → (f run).calls ≡ run.calls)
    → ((run : Run) → (f run).write_started ≡ run.write_started)
    → ((run : Run) → (f run).snapshot ≡ run.snapshot)
    → IsPlain (modify f)
unfolding modify
modify-IsPlain f calls started snapshots = record {
  plainly = λ run. Plainly-modify run (f run) (calls run) (started run) (snapshots run);
}
