-- ===== src/Security/Classify.antt =====
-- `classifyColumn` (packages/security/src/database/columnPolicy.ts). `toLowerCase` is a parameter.
use nancy_man.Base.{
  Text, Bool, true, false, List, [], ◌∷◌, ◌++◌, map, ◌≡◌, same_iff, same_refl, any, member, All,
  arith, if◌then◌else◌,
}
use nancy_man.Security.Search.{includes_text}
use nancy_man.Security.Words.{
  blocked_tokens, has_token, has_token_lem, is_blocked_name, is_pii_name,
}
use nancy_man.Security.Tables.{
  ExactColumnTarget, exact_blocked_overrides, exact_pii_overrides, exact_public_overrides,
  full_name,
}
use nancy_man.Explorer.Columns.{Classification, public, internal, pii, blocked}

any-member :
    (p : Text → Bool) (t : Text) (ts : List Text)
    → member t ts ≡ true
    → p t ≡ true
    → any p ts ≡ true
unfolding member
any-member p t [] m h = cc
any-member p t (s ∷ ss) m h = ground (arith, same_iff s t, any-member p t ss)

module _ (to_lower_case : Text → Text) where
  pub make_key : ExactColumnTarget → Text
  make_key target = to_lower_case (full_name target)

  abbrev key_set : List ExactColumnTarget → List Text
  key_set targets = map make_key targets

  unfoldable pub classify_column : ExactColumnTarget → Classification
  unfolding make_key
  classify_column input =
      let key = make_key input in
      let col = to_lower_case input.column in
      if member key (key_set exact_blocked_overrides)
      then blocked
      else if is_blocked_name col (to_lower_case input.relation)
      then blocked
      else if member key (key_set exact_pii_overrides)
      then pii
      else if is_pii_name col
      then pii
      else if member key (key_set exact_public_overrides)
      then public
      else internal

  -- A column whose name holds a secret word, between underscores or at an end of the name and in
  -- any case, is blocked on every target, schema and relation.
  pub classify_column-blocked :
      (input : ExactColumnTarget) (token : Text)
      → member token blocked_tokens ≡ true
      → includes_text
          (b'_' ∷ (token ++ b'_' ∷ []))
          (b'_' ∷ (to_lower_case input.column ++ b'_' ∷ []))
        ≡ true
      → classify_column input ≡ blocked
  unfolding classify_column is_blocked_name
  classify_column-blocked input token listed word =
      let col = to_lower_case input.column in
      let hit =
        any-member (has_token col) token blocked_tokens listed
          (rw (has_token_lem col token) word) in
      ground arith

  member-map :
      (targets : List ExactColumnTarget)
      → All (λ t. member (make_key t) (key_set targets) ≡ true) targets
  unfolding member
  member-map [] = tt
  member-map (t ∷ ts) = (rw (same_refl (make_key t)), weaken t ts ts (member-map ts))
    where
      weaken :
          (s : ExactColumnTarget) (all some : List ExactColumnTarget)
          → All (λ t. member (make_key t) (key_set all) ≡ true) some
          → All (λ t. member (make_key t) (key_set (s ∷ all)) ≡ true) some
      weaken s all [] h = tt
      weaken s all (t ∷ ts) (p, h) = (ground arith, weaken s all ts h)

  blocked_of_key :
      (t : ExactColumnTarget)
      → member (make_key t) (key_set exact_blocked_overrides) ≡ true
      → classify_column t ≡ blocked
  unfolding classify_column
  blocked_of_key t h = rw h

  -- Every column of the list of exact overrides is blocked, whatever the case table does.
  pub classify_column-overrides : All (λ t. classify_column t ≡ blocked) exact_blocked_overrides
  classify_column-overrides =
      blocked_all exact_blocked_overrides (member-map exact_blocked_overrides)
    where
      blocked_all :
          (ts : List ExactColumnTarget)
          → All (λ t. member (make_key t) (key_set exact_blocked_overrides) ≡ true) ts
          → All (λ t. classify_column t ≡ blocked) ts
      blocked_all [] h = tt
      blocked_all (t ∷ ts) (p, h) = (blocked_of_key t p, blocked_all ts h)

  -- A column is internal only if no rule names it: its key is in no list of overrides, and its name
  -- holds neither a secret nor a personal word.
  pub classify_column-internal :
      (input : ExactColumnTarget)
      → classify_column input ≡ internal
      → (member (make_key input) (key_set exact_blocked_overrides) ≡ false)
        × (any (has_token (to_lower_case input.column)) blocked_tokens ≡ false)
        × (is_pii_name (to_lower_case input.column) ≡ false)
  unfolding classify_column is_blocked_name
  classify_column-internal input h = ground arith
