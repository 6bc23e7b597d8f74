-- ===== src/Change/Tests.antt =====
-- A change from its draft to the point where it is saved, and the theorems at it.
use nancy_man.Base.{
  ℕ, Text, codes, Bool, true, List, [], ◌∷◌, some, none, ◌≡◌, refl, ◌⊎◌, ok, arith, any, same,
  member, ◌++◌, is_uuid,
}
use nancy_man.Change.State.{
  ChangeState, ChangeTransitionEvent, ChangeStateSnapshot, includes, same_state, draft, validating,
  ready, saved, expired, applying, snapshotted, written, action_running, health_checking, completed,
}
use nancy_man.Change.Checked.{validate_snapshot, check_events, check_event}
use nancy_man.Change.Transition.{
  TransitionInput, transition_change, advance, replay, same_event, advanced,
}
use nancy_man.Change.Transition.Effects.{
  IsReplay, IsAdvance, transition_change_effect, transition_change-terminal,
}
use nancy_man.Change.Transition.Validity.{transition_change-valid, transition_change_retry}
use nancy_man.Change.History.{IsWalk, validate_snapshot-IsWalk, completed_milestones}
use nancy_man.Change.Supersede.{SupersedeInput, create_superseding_draft}
use nancy_man.Change.Supersede.Effects.{
  CanSupersede, IsFreshDraft, create_superseding_draft-IsFreshDraft,
}

abbrev uuid : Text → Text
uuid tail = codes "00000000-0000-4000-8000-0000000000" ++ tail

abbrev event : Text → ChangeState → ChangeState → ℕ → ChangeTransitionEvent
event tail from to n = record {
  transition_id = uuid tail;
  event_id = uuid tail;
  from = from;
  to = to;
  sequence = n;
  actor_user_id = codes "u1";
  occurred_at = codes "2026-01-01T00:00:00Z";
}

abbrev first_event : ChangeTransitionEvent
first_event = event (codes "01") draft validating 1

abbrev checked_out : ChangeStateSnapshot
checked_out = record {
  change_id = codes "c1";
  application_id = codes "app";
  state = ready;
  version = 2;
  events = first_event ∷ event (codes "02") validating ready 2 ∷ [];
  supersedes_change_id = none;
  actor_user_id = none;
}

abbrev any_date : Text → Bool
any_date t = true

abbrev save : TransitionInput
save = record {
  snapshot = checked_out;
  to = saved;
  expected_version = 2;
  transition_id = uuid (codes "03");
  event_id = uuid (codes "03");
  actor_user_id = codes "u1";
  occurred_at = codes "2026-01-01T00:00:01Z";
}

checked_out_valid : validate_snapshot checked_out ≡ ok tt
unfolding validate_snapshot check_events check_event includes same member
checked_out_valid = refl

save_runs : transition_change any_date save ≡ ok (advanced save)
unfolding transition_change advance validate_snapshot check_events check_event includes same member
    is_uuid
save_runs = refl

transition_change_effect_example :
    IsReplay any_date save (advanced save) ⊎ IsAdvance any_date save (advanced save)
transition_change_effect_example = transition_change_effect any_date save save_runs

transition_change-valid_example : validate_snapshot (advanced save) ≡ ok tt
transition_change-valid_example = transition_change-valid any_date save save_runs (omega arith)

transition_change_retry_example :
    transition_change any_date (record save { snapshot = advanced save }) ≡ ok (advanced save)
transition_change_retry_example = transition_change_retry any_date save save_runs (omega arith)

-- A change that has expired, and the same request sent again.
abbrev ended : ChangeStateSnapshot
ended = record checked_out {
  state = expired;
  version = 3;
  events =
      first_event ∷ event (codes "02") validating ready 2 ∷ event (codes "03") ready expired 3 ∷ [];
}

abbrev expire : TransitionInput
expire = record save { snapshot = ended; to = expired; occurred_at = codes "2026-01-01T00:00:00Z" }

expire_runs : transition_change any_date expire ≡ ok ended
unfolding transition_change replay same_event validate_snapshot check_events check_event includes
    same member is_uuid same_state
expire_runs = refl

transition_change-terminal_example : ended ≡ ended
unfolding includes
transition_change-terminal_example = transition_change-terminal any_date expire refl expire_runs

validate_snapshot-IsWalk_example : IsWalk draft checked_out.events ready
validate_snapshot-IsWalk_example =
    validate_snapshot-IsWalk checked_out first_event (event (codes "02") validating ready 2 ∷ [])
      checked_out_valid refl

abbrev later_events : List ChangeTransitionEvent
later_events =
    event (codes "02") validating ready 2
    ∷ event (codes "03") ready saved 3
    ∷ event (codes "04") saved applying 4
    ∷ event (codes "05") applying snapshotted 5
    ∷ event (codes "06") snapshotted written 6
    ∷ event (codes "07") written action_running 7
    ∷ event (codes "08") action_running health_checking 8
    ∷ event (codes "09") health_checking completed 9
    ∷ []

abbrev done : ChangeStateSnapshot
done = record checked_out { state = completed; version = 9; events = first_event ∷ later_events }

done_valid : validate_snapshot done ≡ ok tt
unfolding validate_snapshot check_events check_event includes same member
done_valid = refl

completed_milestones_example :
    any (λ e. same_state e.to snapshotted) (first_event ∷ later_events) ≡ true
completed_milestones_example =
    completed_milestones done first_event later_events snapshotted done_valid refl refl refl refl
      (λ e. cc)

abbrev retake : SupersedeInput
retake = record {
  change_id = uuid (codes "0a");
  source = checked_out;
  application_id = codes "app";
  actor_user_id = codes "u2";
}

abbrev retaken : ChangeStateSnapshot
retaken = record {
  change_id = uuid (codes "0a");
  application_id = codes "app";
  state = draft;
  version = 0;
  events = [];
  supersedes_change_id = some (codes "c1");
  actor_user_id = some (codes "u2");
}

retake_runs : create_superseding_draft retake ≡ ok retaken
unfolding create_superseding_draft same is_uuid includes
retake_runs = refl

create_superseding_draft-IsFreshDraft_example : CanSupersede retake × IsFreshDraft retake retaken
create_superseding_draft-IsFreshDraft_example =
    create_superseding_draft-IsFreshDraft retake retake_runs
