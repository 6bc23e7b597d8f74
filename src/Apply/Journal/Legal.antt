-- ===== src/Apply/Journal/Legal.antt =====
-- The events of a run of the coordinator (apps/config-agent/src/changes/applyCoordinator.ts) step
-- through the table of legal transitions of apps/api/src/modules/variables/changeStateMachine.ts.
use nancy_man.Apply.Machine.{Machine}
use nancy_man.Apply.Model.{Step, Dependencies, ApplyInput}
use nancy_man.Apply.Meets.{Meets}
use nancy_man.Apply.Journal.Keeps.{Keeps}
use nancy_man.Apply.Journal.Emit.{J}

module _ (deps : Dependencies) (input : ApplyInput) where
  abbrev K : {A : Type 0} → Step A → Type 0
  K step = Keeps (J deps input) (J deps input) step
