-- ===== src/Apply/Tests.antt =====
-- A change of one item, whose health checks fail, and the theorems at it.
use nancy_man.Base.{
  List, map, codes, true, false, [], ◌∷◌, some, ◌≡◌, refl, ◌⊎◌, ok, any, member, same,
}
use nancy_man.Explorer.Identifier.{decimal}
use nancy_man.Apply.Machine.{
  applying, snapshotted, written, action_running, health_checking, rolling_back, rolled_back,
  create_apply_state_machine, moved, transition, move, transition_lem, transition_retry, IsMove,
  IsReplayed,
}
use nancy_man.Apply.Model.{
  SourceWrite, StagedChangePayload, Dependencies, ApplyInput, ApplyCoordinatorResult,
  was_rolled_back, set, required, ◌>>=◌, pure, throw, refuse_if, when, for_each, attempt, call,
  modify,
}
use nancy_man.Apply.Steps.{
  perform_apply, open_run, take_snapshot, write_sources, finish_run, try_apply, restore, roll_back,
  recover, release_all, close_run, emit,
}
use nancy_man.Apply.Writes.{source_operations, add_items, add_item}
use nancy_man.Apply.Plain.{guarded, is_write, is_restore}
use nancy_man.Apply.Rollback.{
  perform_apply-guarded, perform_apply_restores, perform_apply_deactivates,
}
use nancy_man.Apply.Grouping.{operations_for, operations_in, source_operations-operations_for}
use nancy_man.Apply.Journal.{journal}
use nancy_man.Apply.Coordinator.{Coordinator, apply, apply_again}

abbrev one_item : StagedChangePayload
one_item = record {
  change_id = codes "c1";
  app_id = codes "app";
  catalog_version = codes "1";
  manifest_version = codes "1";
  change_digest = codes "d";
  expires_at = codes "later";
  source_ids = codes "env" ∷ [];
  action_ids = codes "reload" ∷ [];
  check_ids = codes "http" ∷ [];
  items =
      record {
        source_id = codes "env";
        name = codes "PORT";
        duplicate_ordinal = 0;
        operation = set;
        requirement = required;
        value = some (codes "80");
        source_fingerprint = codes "f";
      }
      ∷ [];
}

abbrev unhealthy : Dependencies
unhealthy = record {
  persists_snapshots = true;
  stores_snapshots = false;
  locks_applications = true;
  locks_sources = true;
  locks_actions = false;
  rolls_actions_back = true;
  checks_rollback_health = false;
  reports_failed_rollbacks = true;
  has_expired = λ calls expires_at. false;
  staged = λ calls change_id. ok (some one_item);
  captured = λ calls. ok [];
  passed = λ calls c. ok false;
  done = λ calls c. ok tt;
}

abbrev first_run : ApplyInput
first_run = record { change_id = codes "c1"; run_id = codes "r1"; change_digest = codes "d" }

abbrev went_back : ApplyCoordinatorResult
went_back = record {
  change_id = codes "c1";
  run_id = codes "r1";
  state = rolled_back;
  outcome = was_rolled_back;
}

perform_apply-guarded_example : guarded (perform_apply unhealthy first_run []).1.calls ≡ true
perform_apply-guarded_example = perform_apply-guarded unhealthy first_run []

perform_apply_runs : (perform_apply unhealthy first_run []).0 ≡ ok went_back
unfolding perform_apply close_run release_all try_apply open_run take_snapshot write_sources
    finish_run recover roll_back restore emit source_operations add_items add_item transition move
    ◌>>=◌ pure throw refuse_if when for_each attempt call modify decimal same member
perform_apply_runs = refl

perform_apply_writes : any is_write (perform_apply unhealthy first_run []).1.calls ≡ true
unfolding perform_apply close_run release_all try_apply open_run take_snapshot write_sources
    finish_run recover roll_back restore emit source_operations add_items add_item transition move
    ◌>>=◌ pure throw refuse_if when for_each attempt call modify decimal same member
perform_apply_writes = refl

perform_apply_restores_example :
    any is_restore (perform_apply unhealthy first_run []).1.calls ≡ true
perform_apply_restores_example =
    perform_apply_restores unhealthy first_run [] went_back perform_apply_runs refl
      perform_apply_writes

-- Another run of the application is under way, and its mark is cleared.
refused_change : (perform_apply unhealthy first_run (codes "app" ∷ [])).1.change ≡ some one_item
unfolding perform_apply close_run release_all try_apply open_run take_snapshot write_sources
    finish_run recover roll_back restore emit source_operations add_items add_item transition move
    ◌>>=◌ pure throw refuse_if when for_each attempt call modify decimal same member
refused_change = refl

perform_apply_deactivates_example :
    member (codes "app") (perform_apply unhealthy first_run (codes "app" ∷ [])).1.active ≡ false
perform_apply_deactivates_example =
    perform_apply_deactivates unhealthy first_run (codes "app" ∷ []) one_item refused_change

abbrev env_write : List SourceWrite
env_write =
    record {
      source_id = codes "env";
      expected_source_fingerprint = codes "f";
      operations =
          record {
            name = codes "PORT";
            duplicate_ordinal = 0;
            operation = set;
            requirement = required;
            value = some (codes "80");
          }
          ∷ [];
    }
    ∷ []

source_operations_runs : source_operations one_item ≡ ok env_write
unfolding source_operations add_items add_item
source_operations_runs = refl

source_operations-operations_for_example :
    operations_for (codes "env") env_write ≡ operations_in (codes "env") one_item.items
source_operations-operations_for_example =
    source_operations-operations_for (codes "env") one_item env_write source_operations_runs

abbrev idle : Coordinator
idle = record { active_applications = []; results = [] }

apply_runs : (apply unhealthy first_run idle).answer ≡ ok went_back
unfolding apply perform_apply close_run release_all try_apply open_run take_snapshot write_sources
    finish_run recover roll_back restore emit source_operations add_items add_item transition move
    ◌>>=◌ pure throw refuse_if when for_each attempt call modify decimal same member
apply_runs = refl

apply_again_example :
    apply unhealthy first_run (apply unhealthy first_run idle).coordinator ≡ record {
      answer = ok went_back;
      coordinator = (apply unhealthy first_run idle).coordinator;
      calls = [];
    }
apply_again_example =
    apply_again unhealthy unhealthy first_run first_run idle went_back apply_runs refl

transition_runs :
    transition (create_apply_state_machine applying) snapshotted (codes "e")
    ≡ ok (moved (create_apply_state_machine applying) snapshotted (codes "e"))
unfolding transition move
transition_runs = refl

transition_lem_example :
    IsMove
      (create_apply_state_machine applying)
      snapshotted
      (codes "e")
      (moved (create_apply_state_machine applying) snapshotted (codes "e"))
    ⊎ IsReplayed
        (create_apply_state_machine applying)
        snapshotted
        (codes "e")
        (moved (create_apply_state_machine applying) snapshotted (codes "e"))
transition_lem_example =
    transition_lem (create_apply_state_machine applying)
      (moved (create_apply_state_machine applying) snapshotted (codes "e")) snapshotted (codes "e")
      transition_runs

transition_retry_example :
    transition
      (moved (create_apply_state_machine applying) snapshotted (codes "e"))
      snapshotted
      (codes "e")
    ≡ ok (moved (create_apply_state_machine applying) snapshotted (codes "e"))
transition_retry_example =
    transition_retry (create_apply_state_machine applying)
      (moved (create_apply_state_machine applying) snapshotted (codes "e")) snapshotted (codes "e")
      transition_runs

-- From `APPLYING` to `ROLLED_BACK`.
seven_events :
    map (λ e. e.state) (journal (perform_apply unhealthy first_run []).1.calls)
    ≡ rolled_back ∷ rolling_back ∷ health_checking ∷ action_running ∷ written ∷ snapshotted
      ∷ applying ∷ []
unfolding perform_apply close_run release_all try_apply open_run take_snapshot write_sources
    finish_run recover roll_back restore emit source_operations add_items add_item transition move
    ◌>>=◌ pure throw refuse_if when for_each attempt call modify decimal same member
seven_events = refl
