-- ===== src/Apply/Model.antt =====
-- What a run of the coordinator works on (apps/config-agent/src/changes/applyCoordinator.ts): the
-- staged change, the calls that it makes and the answers that it gets, its variables, and the
-- chaining of steps that may throw. The variables keep their values when a step throws.
use nancy_man.Base.{ℕ, Text, Bool, true, false, List, [], ◌∷◌, Option, none, Result, ok, err}
use nancy_man.Apply.Machine.{Machine, MachineError, ApplyState}

pub data StagedOperation : Type 0 where
  set delete : StagedOperation

pub data Requirement : Type 0 where
  required optional : Requirement

pub record StagedChangeItem : Type 0 where
  pub source_id : Text
  pub name : Text
  pub duplicate_ordinal : ℕ
  pub operation : StagedOperation
  pub requirement : Requirement
  pub value : Option Text
  pub source_fingerprint : Text

pub record StagedChangePayload : Type 0 where
  pub change_id : Text
  pub app_id : Text
  pub catalog_version : Text
  pub manifest_version : Text
  pub change_digest : Text
  pub expires_at : Text
  pub source_ids : List Text
  pub action_ids : List Text
  pub check_ids : List Text
  pub items : List StagedChangeItem

pub record SnapshotSource : Type 0 where
  pub source_id : Text
  pub bytes : Text
  pub uid : ℕ
  pub gid : ℕ
  pub mode : ℕ

abbrev pub SnapshotPayload : Type 0
SnapshotPayload = List SnapshotSource

pub data ReasonCode : Type 0 where
  apply_started snapshot_recorded sources_written actions_started : ReasonCode
  health_checks_started health_checks_passed rollback_not_required : ReasonCode
  no_write_to_roll_back rollback_started rollback_health_passed rollback_failed_code : ReasonCode

pub record ApplyEvent : Type 0 where
  pub change_id : Text
  pub run_id : Text
  pub state : ApplyState
  pub sequence : ℕ
  pub reason_code : ReasonCode

pub record AtomicWriteOperation : Type 0 where
  pub name : Text
  pub duplicate_ordinal : ℕ
  pub operation : StagedOperation
  pub requirement : Requirement
  pub value : Option Text

-- The argument of `writeSource`.
pub record SourceWrite : Type 0 where
  pub source_id : Text
  pub expected_source_fingerprint : Text
  pub operations : List AtomicWriteOperation

pub data ApplyCoordinatorErrorCode : Type 0 where
  staged_change_not_found change_digest_mismatch staged_change_expired : ApplyCoordinatorErrorCode
  apply_already_running apply_precondition_failed : ApplyCoordinatorErrorCode
  config_source_changed apply_failed : ApplyCoordinatorErrorCode

-- What is thrown: an error of the coordinator or of the machine, an error of a dependency with the
-- code CONFIG_SOURCE_CHANGED, or another one.
pub data Thrown : Type 0 where
  coordinator_error : ApplyCoordinatorErrorCode → Thrown
  machine_error : MachineError → Thrown
  source_changed other_error : Thrown

abbrev pub error_code : Thrown → ApplyCoordinatorErrorCode
error_code (coordinator_error code) = code
error_code source_changed = config_source_changed
error_code (machine_error e) = apply_failed
error_code other_error = apply_failed

-- A lock that a run holds, by what it was acquired for.
pub data Lock : Type 0 where
  application source action : Text → Lock

-- The calls of the dependencies.
pub data Call : Type 0 where
  read_staged : Text → Call
  acquire release : Lock → Call
  capture_snapshot : StagedChangePayload → Text → Call
  persist_snapshot create_snapshot : Text → StagedChangePayload → SnapshotPayload → Call
  write_source : SourceWrite → Call
  run_action rollback_action : Text → Text → Call
  run_health rollback_health : Text → List Text → Call
  restore_snapshot : StagedChangePayload → Text → SnapshotPayload → Call
  persist_event : ApplyEvent → Call
  mark_rollback_failed : Text → Call
  on_rollback_failed : Text → Text → Text → ReasonCode → Call

-- The dependencies: which of the optional ones are given, and what each call answers or throws,
-- which may depend on every call of the run before it, the latest first. `has_expired` stands for
-- `Date.parse(expiresAt) <= now().getTime()`.
pub record Dependencies : Type 0 where
  pub persists_snapshots : Bool
  pub stores_snapshots : Bool
  pub locks_applications : Bool
  pub locks_sources : Bool
  pub locks_actions : Bool
  pub rolls_actions_back : Bool
  pub checks_rollback_health : Bool
  pub reports_failed_rollbacks : Bool
  pub has_expired : List Call → Text → Bool
  pub staged : List Call → Text → Result Thrown (Option StagedChangePayload)
  pub captured : List Call → Result Thrown SnapshotPayload
  pub passed : List Call → Call → Result Thrown Bool
  pub done : List Call → Call → Result Thrown (Unit {0})

pub record ApplyInput : Type 0 where
  pub change_id : Text
  pub run_id : Text
  pub change_digest : Text

pub data Outcome : Type 0 where
  was_completed was_rolled_back rollback_has_failed : Outcome

pub record ApplyCoordinatorResult : Type 0 where
  pub change_id : Text
  pub run_id : Text
  pub state : ApplyState
  pub outcome : Outcome

-- The variables of `performApply`, with the calls that it has made and the applications that are
-- marked active. The latest call and the latest lock stand first.
pub record Run : Type 0 where
  pub active : List Text
  pub calls : List Call
  pub snapshot : Option SnapshotPayload
  pub write_started : Bool
  pub machine : Option Machine
  pub change : Option StagedChangePayload
  pub releases : List Lock

abbrev pub begun : List Text → Run
begun active = record {
  active = active;
  calls = [];
  snapshot = none;
  write_started = false;
  machine = none;
  change = none;
  releases = [];
}

-- A step reads and changes the variables, and returns or throws.
abbrev pub Step : Type 0 → Type 0
Step A = Run → Result Thrown A × Run

abbrev pub continue_with :
    {A B : Type 0} → (A → Step B) → Result Thrown A × Run → Result Thrown B × Run
continue_with k (ok a, run) = k a run
continue_with k (err e, run) = (err e, run)

infixl 5 ◌>>=◌ ◌>>◌
unfoldable pub ◌>>=◌ : {A B : Type 0} → Step A → (A → Step B) → Step B
(step >>= k) run = continue_with k (step run)

abbrev pub ◌>>◌ : {A B : Type 0} → Step A → Step B → Step B
step >> k = step >>= λ _. k

unfoldable pub pure : {A : Type 0} → A → Step A
pure a run = (ok a, run)

unfoldable pub throw : {A : Type 0} → Thrown → Step A
throw e run = (err e, run)

-- `if (b) throw new ApplyCoordinatorError(code)`.
unfoldable pub refuse_if : Bool → ApplyCoordinatorErrorCode → Step (Unit {0})
refuse_if true code = throw (coordinator_error code)
refuse_if false code = pure tt

-- `if (b) step`.
unfoldable pub when : Bool → Step (Unit {0}) → Step (Unit {0})
when true step = step
when false step = pure tt

unfoldable pub for_each : {A : Type 0} → (A → Step (Unit {0})) → List A → Step (Unit {0})
for_each f [] = pure tt
for_each f (x ∷ xs) = f x >> for_each f xs

abbrev pub caught : {A : Type 0} → (Thrown → Step A) → Result Thrown A × Run → Result Thrown A × Run
caught handle (ok a, run) = (ok a, run)
caught handle (err e, run) = handle e run

-- `try { step } catch (e) { handle e }`.
unfoldable pub attempt : {A : Type 0} → Step A → (Thrown → Step A) → Step A
attempt step handle run = caught handle (step run)

-- A call, recorded whether it answers or throws.
unfoldable pub call : {A : Type 0} → Call → (List Call → Result Thrown A) → Step A
call c answer run = (answer run.calls, record run { calls = c ∷ run.calls })

unfoldable pub modify : (Run → Run) → Step (Unit {0})
modify f run = (ok tt, f run)
