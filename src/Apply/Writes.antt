-- ===== src/Apply/Writes.antt =====
-- `sourceOperations` (apps/config-agent/src/changes/applyCoordinator.ts): what is written to each
-- source.
use nancy_man.Base.{List, [], ◌∷◌, ◌++◌, Result, ok, err, same, if◌then◌else◌}
use nancy_man.Apply.Model.{
  StagedChangeItem, StagedChangePayload, AtomicWriteOperation, SourceWrite, Thrown,
  config_source_changed, coordinator_error,
}

-- The items by source, each source where it first occurs.
abbrev pub operation_of : StagedChangeItem → AtomicWriteOperation
operation_of item = record {
  name = item.name;
  duplicate_ordinal = item.duplicate_ordinal;
  operation = item.operation;
  requirement = item.requirement;
  value = item.value;
}

-- One round of the loop. The groups are the map, in its order of insertion.
unfoldable pub add_item : List SourceWrite → StagedChangeItem → Result Thrown (List SourceWrite)
add_item [] item = ok (
    record {
      source_id = item.source_id;
      expected_source_fingerprint = item.source_fingerprint;
      operations = operation_of item ∷ [];
    }
    ∷ [])
add_item (group ∷ groups) item =
    let rest = add_item groups item in
    if same group.source_id item.source_id
    then (if same group.expected_source_fingerprint item.source_fingerprint
        then ok (record group { operations = group.operations ++ operation_of item ∷ [] } ∷ groups)
        else err (coordinator_error config_source_changed))
    else elim rest [ ok rest' ↦ ok (group ∷ rest') | err e ↦ err e ]

unfoldable pub add_items :
    List SourceWrite → List StagedChangeItem → Result Thrown (List SourceWrite)
add_items groups [] = ok groups
add_items groups (item ∷ items) = elim (add_item groups item) [
  | ok groups' ↦ add_items groups' items
  | err e ↦ err e
]

unfoldable pub source_operations : StagedChangePayload → Result Thrown (List SourceWrite)
source_operations change = add_items [] change.items
