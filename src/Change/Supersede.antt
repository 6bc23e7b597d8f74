-- ===== src/Change/Supersede.antt =====
-- `createSupersedingDraft` (apps/api/src/modules/variables/changeStateMachine.ts).
pub mod Effects
use nancy_man.Base.{Text, [], ◌∷◌, some, not, Result, ok, ◌>>◌, throw_if, same, is_empty, is_uuid}
use nancy_man.Change.State.{
  ChangeStateSnapshot, ChangeError, includes, draft, invalid, ready, saved, id_invalid,
  supersedes_self, application_mismatch, supersedes_state_invalid, application_invalid,
  actor_invalid,
}

pub record SupersedeInput : Type 0 where
  pub change_id : Text
  pub source : ChangeStateSnapshot
  pub application_id : Text
  pub actor_user_id : Text

-- The draft that is returned.
abbrev pub superseding_draft : SupersedeInput → ChangeStateSnapshot
superseding_draft input = record {
  change_id = input.change_id;
  application_id = input.application_id;
  state = draft;
  version = 0;
  events = [];
  supersedes_change_id = some input.source.change_id;
  actor_user_id = some input.actor_user_id;
}

unfoldable pub create_superseding_draft : SupersedeInput → Result ChangeError ChangeStateSnapshot
create_superseding_draft input = do
  throw_if (not (is_uuid input.change_id)) id_invalid
  throw_if (same input.change_id input.source.change_id) supersedes_self
  throw_if (not (same input.application_id input.source.application_id)) application_mismatch
  throw_if (not (includes (invalid ∷ ready ∷ saved ∷ []) input.source.state))
      supersedes_state_invalid
  throw_if (is_empty input.source.application_id) application_invalid
  throw_if (is_empty input.actor_user_id) actor_invalid
  ok (superseding_draft input)
