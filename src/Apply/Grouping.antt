-- ===== src/Apply/Grouping.antt =====
-- `sourceOperations` (apps/config-agent/src/changes/applyCoordinator.ts) against the items read
-- source by source.
use nancy_man.Base.{
  Text, true, false, List, [], ◌∷◌, ◌++◌, ◌≡◌, sym, ap, ◌∙◌, ok, same, eq_of_same, keep, map,
  if◌then◌else◌, arith, Bool-cases, inl, inr, ok-injective, Result-cases, append_assoc, append-nil,
  subst,
}
use nancy_man.Apply.Model.{StagedChangeItem, StagedChangePayload, AtomicWriteOperation, SourceWrite}
use nancy_man.Apply.Writes.{operation_of, add_item, add_items, source_operations}

-- The operations that the list of writes has for a source.
abbrev pub operations_for : Text → List SourceWrite → List AtomicWriteOperation
operations_for s [] = []
operations_for s (group ∷ groups) =
    if same group.source_id s then group.operations else operations_for s groups

-- The operations of the items of one source, in the order of the items.
abbrev pub operations_in : Text → List StagedChangeItem → List AtomicWriteOperation
operations_in s items = map operation_of (keep (λ i. same i.source_id s) items)

operations_in-here :
    (s : Text) (item : StagedChangeItem)
    → same item.source_id s ≡ true
    → operations_in s (item ∷ []) ≡ operation_of item ∷ []
operations_in-here s item h = rw h

operations_in-elsewhere :
    (s : Text) (item : StagedChangeItem)
    → same item.source_id s ≡ false
    → operations_in s (item ∷ []) ≡ []
operations_in-elsewhere s item h = rw h

-- The group of a source, where it stands in the list, and where it does not.
operations_for-here :
    (s : Text) (group : SourceWrite) (groups : List SourceWrite)
    → same group.source_id s ≡ true
    → operations_for s (group ∷ groups) ≡ group.operations
operations_for-here s group groups h = rw h

operations_for-elsewhere :
    (s : Text) (group : SourceWrite) (groups : List SourceWrite)
    → same group.source_id s ≡ false
    → operations_for s (group ∷ groups) ≡ operations_for s groups
operations_for-elsewhere s group groups h = rw h

abbrev new_group : StagedChangeItem → SourceWrite
new_group item = record {
  source_id = item.source_id;
  expected_source_fingerprint = item.source_fingerprint;
  operations = operation_of item ∷ [];
}

abbrev extended : SourceWrite → StagedChangeItem → SourceWrite
extended group item = record group { operations = group.operations ++ operation_of item ∷ [] }

operations_for-new_group :
    (s : Text) (item : StagedChangeItem)
    → operations_for s (new_group item ∷ []) ≡ operations_in s (item ∷ [])
operations_for-new_group s item = elim (Bool-cases (same item.source_id s)) [
  | inl here ↦ operations_for-here s (new_group item) [] here ∙ sym (operations_in-here s item here)
  | inr elsewhere ↦
      operations_for-elsewhere s (new_group item) [] elsewhere
      ∙ sym (operations_in-elsewhere s item elsewhere)
]

operations_for-extended :
    (s : Text) (group : SourceWrite) (groups : List SourceWrite) (item : StagedChangeItem)
    → same group.source_id item.source_id ≡ true
    → operations_for s (extended group item ∷ groups)
      ≡ operations_for s (group ∷ groups) ++ operations_in s (item ∷ [])
operations_for-extended s group groups item hit =
    let moved = ap (λ q. same q s) (eq_of_same group.source_id item.source_id hit) in
    elim (Bool-cases (same group.source_id s)) [
      | inl here ↦
          operations_for-here s (extended group item) groups here
          ∙ sym (
              ap (λ q. q ++ operations_in s (item ∷ [])) (operations_for-here s group groups here)
              ∙ ap (λ q. group.operations ++ q) (operations_in-here s item (sym moved ∙ here)))
      | inr elsewhere ↦
          operations_for-elsewhere s (extended group item) groups elsewhere
          ∙ sym (
              ap (λ q. q ++ operations_in s (item ∷ []))
                (operations_for-elsewhere s group groups elsewhere)
              ∙ ap (λ q. operations_for s groups ++ q)
                  (operations_in-elsewhere s item (sym moved ∙ elsewhere))
              ∙ append-nil (operations_for s groups))
    ]

-- The source of a group that is not the group of the item.
other_source :
    (s : Text) (group : SourceWrite) (item : StagedChangeItem)
    → same group.source_id item.source_id ≡ false
    → same group.source_id s ≡ true
    → same item.source_id s ≡ false
other_source s group item miss here = elim (Bool-cases (same item.source_id s)) [
  | inl same_too ↦
      let moved = ap (λ q. same group.source_id q) (eq_of_same item.source_id s same_too) in
      same_too ∙ sym here ∙ sym moved ∙ miss
  | inr apart ↦ apart
]

operations_for-passed :
    (s : Text) (group : SourceWrite) (groups rest : List SourceWrite) (item : StagedChangeItem)
    → same group.source_id item.source_id ≡ false
    → operations_for s rest ≡ operations_for s groups ++ operations_in s (item ∷ [])
    → operations_for s (group ∷ rest)
      ≡ operations_for s (group ∷ groups) ++ operations_in s (item ∷ [])
operations_for-passed s group groups rest item miss step =
    elim (Bool-cases (same group.source_id s)) [
      | inl here ↦
          operations_for-here s group rest here
          ∙ sym (
              ap (λ q. q ++ operations_in s (item ∷ [])) (operations_for-here s group groups here)
              ∙ ap (λ q. group.operations ++ q)
                  (operations_in-elsewhere s item (other_source s group item miss here))
              ∙ append-nil group.operations)
      | inr elsewhere ↦
          operations_for-elsewhere s group rest elsewhere
          ∙ step
          ∙ sym (
              ap (λ q. q ++ operations_in s (item ∷ []))
                (operations_for-elsewhere s group groups elsewhere))
    ]

-- One round adds the operation of its item to the source of the item and to no other.
add_item-operations_for :
    (s : Text) (groups groups' : List SourceWrite) (item : StagedChangeItem)
    → add_item groups item ≡ ok groups'
    → operations_for s groups' ≡ operations_for s groups ++ operations_in s (item ∷ [])
unfolding add_item
add_item-operations_for s [] groups' item h =
    subst (λ q. operations_for s q ≡ operations_in s (item ∷ []))
      (ok-injective (new_group item ∷ []) groups' h) (operations_for-new_group s item)
add_item-operations_for s (group ∷ groups) groups' item h =
    elim (Bool-cases (same group.source_id item.source_id)) [
      | inl hit ↦
          elim (Bool-cases (same group.expected_source_fingerprint item.source_fingerprint)) [
            | inl current ↦
                subst
                  (λ q.
                    operations_for s q
                    ≡ operations_for s (group ∷ groups) ++ operations_in s (item ∷ []))
                  (ok-injective (extended group item ∷ groups) groups' (rw (hit, current) at h))
                  (operations_for-extended s group groups item hit)
            | inr changed ↦ absurd (ground arith)
          ]
      | inr miss ↦ elim (Result-cases (add_item groups item)) [
        | inl (rest, went) ↦
            subst
              (λ q.
                operations_for s q
                ≡ operations_for s (group ∷ groups) ++ operations_in s (item ∷ []))
              (ok-injective (group ∷ rest) groups' (rw (miss, went) at h))
              (operations_for-passed s group groups rest item miss
                (add_item-operations_for s groups rest item went))
        | inr (e, failed) ↦ absurd (ground arith)
      ]
    ]

operations_in-cons :
    (s : Text) (item : StagedChangeItem) (items : List StagedChangeItem)
    → operations_in s (item ∷ items) ≡ operations_in s (item ∷ []) ++ operations_in s items
operations_in-cons s item items = elim (Bool-cases (same item.source_id s)) [
  | inl here ↦ (rw here)
  | inr elsewhere ↦ (rw elsewhere)
]

add_items-operations_for :
    (s : Text) (groups groups' : List SourceWrite) (items : List StagedChangeItem)
    → add_items groups items ≡ ok groups'
    → operations_for s groups' ≡ operations_for s groups ++ operations_in s items
unfolding add_items
add_items-operations_for s groups groups' [] h =
    ap (operations_for s) (sym (ok-injective groups groups' h))
    ∙ sym (append-nil (operations_for s groups))
add_items-operations_for s groups groups' (item ∷ items) h =
    elim (Result-cases (add_item groups item)) [
      | inl (next, went) ↦
          add_items-operations_for s next groups' items (rw (went, add_items) at h)
          ∙ ap (λ q. q ++ operations_in s items) (add_item-operations_for s groups next item went)
          ∙ append_assoc (operations_for s groups) (operations_in s (item ∷ []))
              (operations_in s items)
          ∙ ap (λ q. operations_for s groups ++ q) (sym (operations_in-cons s item items))
      | inr (e, failed) ↦ absurd (ground arith)
    ]

-- When the writes of a change are made up, the operations for a source are those of the items of
-- the change for that source, in their order, and a source that no item names has none.
pub source_operations-operations_for :
    (s : Text) (change : StagedChangePayload) (groups : List SourceWrite)
    → source_operations change ≡ ok groups
    → operations_for s groups ≡ operations_in s change.items
unfolding source_operations
source_operations-operations_for s change groups h =
    add_items-operations_for s [] groups change.items h
