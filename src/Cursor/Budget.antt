-- ===== src/Cursor/Budget.antt =====
-- `estimateRowRefPlaintextBytes` (apps/sql-worker/src/explorer/cursorCodec.ts): the bytes of the
-- plaintext of a row reference, counted before anything is serialized. A bound that the source
-- lets fall below 0 stops at 0 here, which no text and no value fits into either.
pub mod Pieces
pub mod Counts
pub mod Agree
pub mod Exact
use nancy_man.Base.{
  ℕ, suc, ◌+◌, ◌-◌, ◌*◌, ◌/◌, Text, codes, Bool, true, false, List, [], ◌∷◌, Option, some, none,
  ltb, leb, length, if◌then◌else◌,
}
use nancy_man.Explorer.Identifier.{decimal}
use nancy_man.Cursor.Json.{json_string_byte_length, utf8_length, quote_json, bounded}

-- A value of `keys`, by what the code asks of it: a number with the text that `JSON.stringify`
-- writes for it, a date with its ISO text where it has one.
pub data Claim : Type 0 where
  null other : Claim
  boolean : Bool → Claim
  number text : Text → Claim
  date : Option Text → Claim
  binary : List ℕ → Claim

pub record RowRefData : Type 0 where
  pub target_id : Text
  pub schema : Text
  pub relation : Text
  pub checksum : Text
  pub issued_at : ℕ
  pub expires_at : ℕ
  pub keys : List (Text × Claim)

abbrev pub binary_tag : Text
binary_tag = codes "$databaseExplorerBinaryV1"

abbrev pub date_tag : Text
date_tag = codes "$databaseExplorerDateV1"

abbrev pub max_cursor_bytes : ℕ
max_cursor_bytes = 4096

-- Of `[ENVELOPE_VERSION, 'row-ref', '0'.repeat(16), '', '0'.repeat(22)].join('.')`.
abbrev pub row_ref_overhead_bytes : ℕ
row_ref_overhead_bytes = 51

abbrev pub preflight_bytes : ℕ
preflight_bytes = (max_cursor_bytes - row_ref_overhead_bytes) * 3 / 4 - 16

abbrev pub plus : ℕ → Option ℕ → Option ℕ
plus n none = none
plus n (some k) = some (n + k)

-- `Buffer.byteLength(JSON.stringify(tag))`.
abbrev pub tag_bytes : Text → ℕ
tag_bytes tag = utf8_length (quote_json tag)

unfoldable pub json_value_byte_length : Claim → ℕ → Option ℕ
json_value_byte_length null maximum_bytes = bounded 4 maximum_bytes
json_value_byte_length (boolean value) maximum_bytes =
    bounded (if value then 4 else 5) maximum_bytes
json_value_byte_length (number value) maximum_bytes = bounded (utf8_length value) maximum_bytes
json_value_byte_length (text value) maximum_bytes = json_string_byte_length value maximum_bytes
json_value_byte_length (date none) maximum_bytes = none
json_value_byte_length (date (some iso)) maximum_bytes =
    plus (2 + tag_bytes date_tag + 1)
      (json_string_byte_length iso (maximum_bytes - tag_bytes date_tag - 3))
json_value_byte_length (binary bytes) maximum_bytes =
    bounded (2 + tag_bytes binary_tag + 1 + 2 + (length bytes + 2) / 3 * 4) maximum_bytes
json_value_byte_length other maximum_bytes = none

-- The loop of `jsonObjectByteLength`; `separator` is 0 in the first round and 1 in the others.
unfoldable pub count_properties : List (Text × ℕ) → ℕ → ℕ → ℕ → Option ℕ
count_properties [] separator bytes maximum_bytes = some bytes
count_properties (property ∷ properties) separator bytes maximum_bytes =
    if ltb maximum_bytes (bytes + separator)
    then none
    else elim (json_string_byte_length property.0 (maximum_bytes - bytes - separator - 1)) [
      | none ↦ none
      | some key_bytes ↦
          if ltb maximum_bytes (bytes + (separator + key_bytes + 1 + property.1))
          then none
          else count_properties properties 1 (bytes + (separator + key_bytes + 1 + property.1))
              maximum_bytes
    ]

unfoldable pub json_object_byte_length : List (Text × ℕ) → ℕ → Option ℕ
unfolding count_properties
json_object_byte_length properties maximum_bytes = count_properties properties 0 2 maximum_bytes

-- The loop over the keys.
unfoldable pub count_keys : List (Text × Claim) → ℕ → ℕ → ℕ → Option ℕ
count_keys [] separator bytes budget = some bytes
count_keys (key ∷ keys) separator bytes budget =
    elim (json_string_byte_length key.0 (budget - bytes - separator - 2)) [
      | none ↦ none
      | some column_bytes ↦
          elim (json_value_byte_length key.1 (budget - bytes - separator - column_bytes - 2)) [
            | none ↦ none
            | some claim_bytes ↦
                if ltb budget (bytes + (separator + column_bytes + 1 + claim_bytes))
                then none
                else count_keys keys 1 (bytes + (separator + column_bytes + 1 + claim_bytes)) budget
          ]
    ]

-- `?? budget + 1`.
abbrev pub or_over : Option ℕ → ℕ → ℕ
or_over none budget = budget + 1
or_over (some bytes) budget = bytes

abbrev pub string_or_over : Text → ℕ → ℕ
string_or_over value budget = or_over (json_string_byte_length value budget) budget

abbrev pub number_or_over : ℕ → ℕ → ℕ
number_or_over n budget = or_over (json_value_byte_length (number (decimal n)) budget) budget

abbrev pub fixed_properties : RowRefData → ℕ → ℕ → List (Text × ℕ)
fixed_properties row_ref budget keys_bytes =
    (codes "version", 1)
    ∷ (codes "targetId", string_or_over row_ref.target_id budget)
    ∷ (codes "schema", string_or_over row_ref.schema budget)
    ∷ (codes "relation", string_or_over row_ref.relation budget)
    ∷ (codes "checksum", string_or_over row_ref.checksum budget)
    ∷ (codes "issuedAt", number_or_over row_ref.issued_at budget)
    ∷ (codes "expiresAt", number_or_over row_ref.expires_at budget)
    ∷ (codes "keys", keys_bytes)
    ∷ []

abbrev pub with_keys : RowRefData → ℕ → Option ℕ → Option ℕ
with_keys row_ref budget none = none
with_keys row_ref budget (some keys_bytes) =
    json_object_byte_length (fixed_properties row_ref budget keys_bytes) budget

unfoldable pub estimate_row_ref_plaintext_bytes : RowRefData → ℕ → Option ℕ
unfolding count_keys json_object_byte_length
estimate_row_ref_plaintext_bytes row_ref budget =
    with_keys row_ref budget (count_keys row_ref.keys 0 2 budget)
