-- ===== src/Apply/Coordinator.antt =====
-- `createApplyCoordinator` (apps/config-agent/src/changes/applyCoordinator.ts): the state that the
-- runs share, and `apply`, which answers a run that has completed from its results. Calls come one
-- after the other here: a call that finds its run under way shares the promise of that run, which
-- `runs` holds only for that time.
use nancy_man.Base.{
  Text, List, [], ◌∷◌, Option, some, none, ◌≡◌, refl, Result, ok, err, same, same_refl,
  if◌then◌else◌, arith, ok-injective, ap, ◌∙◌,
}
use nancy_man.Apply.Model.{Thrown, Call, Dependencies, ApplyInput, ApplyCoordinatorResult, Run}
use nancy_man.Apply.Steps.{perform_apply}

pub record Coordinator : Type 0 where
  pub active_applications : List Text
  pub results : List (Text × ApplyCoordinatorResult)

-- `results.get`.
abbrev pub result_of : Text → List (Text × ApplyCoordinatorResult) → Option ApplyCoordinatorResult
result_of run_id [] = none
result_of run_id (r ∷ rs) = if same r.0 run_id then some r.1 else result_of run_id rs

-- What a call of `apply` gives: the answer, the state after it, and the calls that it made.
pub record Applied : Type 0 where
  pub answer : Result Thrown ApplyCoordinatorResult
  pub coordinator : Coordinator
  pub calls : List Call

abbrev pub settle : Text → Coordinator → Result Thrown ApplyCoordinatorResult → Run → Applied
settle run_id coordinator (ok completed) run = record {
  answer = ok completed;
  coordinator = record {
    active_applications = run.active;
    results = (run_id, completed) ∷ coordinator.results;
  };
  calls = run.calls;
}
settle run_id coordinator (err e) run = record {
  answer = err e;
  coordinator = record coordinator { active_applications = run.active };
  calls = run.calls;
}

abbrev pub apply_unless :
    Dependencies → ApplyInput → Coordinator → Option ApplyCoordinatorResult → Applied
apply_unless deps input coordinator (some prior) = record {
  answer = ok prior;
  coordinator = coordinator;
  calls = [];
}
apply_unless deps input coordinator none =
    let performed = perform_apply deps input coordinator.active_applications in
    settle input.run_id coordinator performed.0 performed.1

unfoldable pub apply : Dependencies → ApplyInput → Coordinator → Applied
apply deps input coordinator =
    apply_unless deps input coordinator (result_of input.run_id coordinator.results)

apply-prior :
    (deps : Dependencies) (input : ApplyInput) (coordinator : Coordinator)
    (prior : ApplyCoordinatorResult)
    → result_of input.run_id coordinator.results ≡ some prior
    → apply deps input coordinator
      ≡ record { answer = ok prior; coordinator = coordinator; calls = [] }
unfolding apply
apply-prior deps input coordinator prior h = ap (apply_unless deps input coordinator) h

settle-result_of :
    (run_id : Text) (coordinator : Coordinator) (answer : Result Thrown ApplyCoordinatorResult)
    (run : Run) (result : ApplyCoordinatorResult)
    → (settle run_id coordinator answer run).answer ≡ ok result
    → result_of run_id (settle run_id coordinator answer run).coordinator.results ≡ some result
settle-result_of run_id coordinator (ok completed) run result h =
    ground (arith, same_refl run_id, ok-injective completed result h)
settle-result_of run_id coordinator (err e) run result h = absurd (ground arith)

apply_unless-result_of :
    (deps : Dependencies) (input : ApplyInput) (coordinator : Coordinator)
    (prior : Option ApplyCoordinatorResult) (result : ApplyCoordinatorResult)
    → result_of input.run_id coordinator.results ≡ prior
    → (apply_unless deps input coordinator prior).answer ≡ ok result
    → result_of input.run_id (apply_unless deps input coordinator prior).coordinator.results
      ≡ some result
apply_unless-result_of deps input coordinator (some prior) result p h =
    p ∙ ap some (ok-injective prior result h)
apply_unless-result_of deps input coordinator none result p h =
    let performed = perform_apply deps input coordinator.active_applications in
    settle-result_of input.run_id coordinator performed.0 performed.1 result h

-- A run that returned a result, applied again with the same run id, with whatever dependencies,
-- change and digest, returns that result, makes no call and changes nothing.
pub apply_again :
    (deps deps' : Dependencies) (input input' : ApplyInput) (coordinator : Coordinator)
    (result : ApplyCoordinatorResult)
    → (apply deps input coordinator).answer ≡ ok result
    → input'.run_id ≡ input.run_id
    → apply deps' input' (apply deps input coordinator).coordinator ≡ record {
      answer = ok result;
      coordinator = (apply deps input coordinator).coordinator;
      calls = [];
    }
unfolding apply
apply_again deps deps' input input' coordinator result returned same_run =
    apply-prior deps' input' (apply deps input coordinator).coordinator result (
      ap (λ r. result_of r (apply deps input coordinator).coordinator.results) same_run
      ∙ apply_unless-result_of deps input coordinator (result_of input.run_id coordinator.results)
          result refl returned)
