-- ===== src/Change/Supersede/Effects.antt =====
-- What a superseding draft is (apps/api/src/modules/variables/changeStateMachine.ts).
use nancy_man.Base.{true, false, [], ◌∷◌, some, ◌≡◌, ◌≢◌, ok, arith, same_iff, is_empty, is_uuid}
use nancy_man.Change.State.{
  ChangeStateSnapshot, includes, draft, invalid, ready, saved, includes-change_states,
}
use nancy_man.Change.Checked.{validate_snapshot, check_events}
use nancy_man.Change.Supersede.{SupersedeInput, superseding_draft, create_superseding_draft}

-- What the code asks of a source to be superseded.
pub record CanSupersede (input : SupersedeInput) : Type 0 where
  pub well_named : is_uuid input.change_id ≡ true
  pub other : input.change_id ≢ input.source.change_id
  pub same_application : input.application_id ≡ input.source.application_id
  pub still_open : includes (invalid ∷ ready ∷ saved ∷ []) input.source.state ≡ true
  pub has_application : is_empty input.source.application_id ≡ false
  pub has_actor : is_empty input.actor_user_id ≡ false

-- A fresh draft of the same application, which names its source and has no history.
pub record IsFreshDraft (input : SupersedeInput) (result : ChangeStateSnapshot) : Type 0 where
  pub named : result.change_id ≡ input.change_id
  pub state : result.state ≡ draft
  pub version : result.version ≡ 0
  pub events : result.events ≡ []
  pub application : result.application_id ≡ input.source.application_id
  pub supersedes : result.supersedes_change_id ≡ some input.source.change_id
  pub valid : validate_snapshot result ≡ ok tt

module _ (input : SupersedeInput) where
  -- A superseding draft is made only where the source may be superseded; it is a valid new draft of
  -- the source's application under another id.
  pub create_superseding_draft-IsFreshDraft :
      {result : ChangeStateSnapshot}
      → create_superseding_draft input ≡ ok result
      → CanSupersede input × IsFreshDraft input result
  unfolding create_superseding_draft validate_snapshot check_events
  create_superseding_draft-IsFreshDraft h = ground (
    arith,
    same_iff input.change_id input.source.change_id,
    same_iff input.application_id input.source.application_id,
    includes-change_states draft,
  )

  -- Whenever the source may be superseded, the draft is made.
  pub create_superseding_draft_total :
      CanSupersede input → create_superseding_draft input ≡ ok (superseding_draft input)
  unfolding create_superseding_draft
  create_superseding_draft_total c = ground (
    arith,
    same_iff input.change_id input.source.change_id,
    same_iff input.application_id input.source.application_id,
  )
