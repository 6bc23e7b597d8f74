-- ===== src/Security/Tests.antt =====
-- The column policy at some columns and values.
use nancy_man.Base.{
  Text, codes, false, some, none, ◌≡◌, refl, any, All, member, between, map, if◌then◌else◌, ◌+◌,
  same,
}
use nancy_man.Explorer.Columns.{blocked, pii, internal}
use nancy_man.Security.Search.{includes_text, starts_with, ends_with}
use nancy_man.Security.Words.{
  has_token, has_token_lem, blocked_tokens, is_pii_name, is_blocked_name,
}
use nancy_man.Security.Tables.{ExactColumnTarget, exact_blocked_overrides}
use nancy_man.Security.Classify.{
  make_key, classify_column, classify_column-blocked, classify_column-overrides,
  classify_column-internal,
}
use nancy_man.Security.Mask.{
  ShowsLittle, hidden, trim, trim_start, trim_end, split, mask_pii_value,
  mask_pii_value-ShowsLittle,
}

-- `toLowerCase` on ASCII.
abbrev lower : Text → Text
lower = map (λ c. if between b'A' b'Z' c then c + 32 else c)

abbrev column_of : Text → ExactColumnTarget
column_of name = record {
  target_id = codes "ops";
  schema = codes "public";
  relation = codes "notes";
  column = name;
}

has_token_lem_example :
    has_token (codes "api_token_id") (codes "token")
    ≡ includes_text (codes "_token_") (codes "_api_token_id_")
has_token_lem_example = has_token_lem (codes "api_token_id") (codes "token")

classify_column-blocked_example : classify_column lower (column_of (codes "API_Token")) ≡ blocked
unfolding member includes_text starts_with same
classify_column-blocked_example =
    classify_column-blocked lower (column_of (codes "API_Token")) (codes "token") refl refl

classify_column-overrides_example :
    All (λ t. classify_column lower t ≡ blocked) exact_blocked_overrides
classify_column-overrides_example = classify_column-overrides lower

runs :
    (classify_column lower (column_of (codes "Email_Hash")) ≡ pii)
    × (classify_column lower (column_of (codes "created_at")) ≡ internal)
unfolding classify_column is_blocked_name is_pii_name has_token includes_text starts_with ends_with
    same member
runs = (refl, refl)

classify_column-internal_example :
    (member
        (make_key lower (column_of (codes "created_at")))
        (map (make_key lower) exact_blocked_overrides)
      ≡ false)
    × (any (has_token (lower (codes "created_at"))) blocked_tokens ≡ false)
    × (is_pii_name (lower (codes "created_at")) ≡ false)
classify_column-internal_example =
    classify_column-internal lower (column_of (codes "created_at")) runs.1

mask_pii_value-ShowsLittle_example :
    ShowsLittle (trim (codes " ann@x.org ")) (mask_pii_value none (some (codes " ann@x.org ")))
mask_pii_value-ShowsLittle_example = mask_pii_value-ShowsLittle none (codes " ann@x.org ")

masks :
    (mask_pii_value none (some (codes " ann@x.org ")) ≡ codes "a***@x.org")
    × (mask_pii_value none (some (codes "+84 912 345 678")) ≡ codes "******5678")
    × (mask_pii_value none (some (codes "Ann")) ≡ hidden)
unfolding mask_pii_value trim_start trim_end split same
masks = (refl, refl, refl)
