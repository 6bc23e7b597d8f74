-- ===== src/Cursor/Tests.antt =====
-- A text with an emoji, a quote and a lone surrogate, and a row reference with two keys.
use nancy_man.Base.{
  All, true, none, same, ok, ◌<◌, ℕ, zero, suc, ap, ◌∙◌, ◌+◌, ◌*◌, ◌/◌, Text, codes, List, [], ◌∷◌,
  some, ◌≡◌, refl, length, arith,
}
use nancy_man.Explorer.Identifier.{decimal, digits_from}
use nancy_man.Cursor.Json.{
  json_string_byte_length, utf8_length, quote_json, bounded, escape, escape_unit, is_pair,
  is_surrogate_pair, count_units, unit_bytes,
}
use nancy_man.Cursor.Json.Length.{json_string_byte_length_lem, spent}
use nancy_man.Cursor.Budget.{
  number, text, RowRefData, estimate_row_ref_plaintext_bytes, preflight_bytes,
  json_object_byte_length, count_keys, count_properties, json_value_byte_length,
}
use nancy_man.Cursor.Budget.Pieces.{quoted, quoted-spent, row_ref_json}
use nancy_man.Cursor.Budget.Exact.{estimate_row_ref_plaintext_bytes_lem}
use nancy_man.Cursor.Value.{
  Value, string, object, no_fields, field_then, field, validate_context, is_database_target_id,
}
use nancy_man.Cursor.Codec.{Crypto, row_ref, seal, sealed}
use nancy_man.Cursor.Codec.Preflight.{SizeLaws, estimate_row_ref_plaintext_bytes-seal}

-- `"`, a pair, a lone surrogate and `A`.
abbrev mixed : Text
mixed = 0x22 ∷ 0xd83d ∷ 0xde00 ∷ 0xdc00 ∷ b'A' ∷ []

mixed_bytes : utf8_length (quote_json mixed) ≡ 15
unfolding utf8_length quote_json escape escape_unit is_pair is_surrogate_pair
mixed_bytes = refl

counts_mixed : json_string_byte_length mixed 15 ≡ some 15
unfolding json_string_byte_length count_units unit_bytes is_pair is_surrogate_pair
counts_mixed = refl

json_string_byte_length_lem_example :
    json_string_byte_length mixed 14 ≡ bounded (utf8_length (quote_json mixed)) 14
json_string_byte_length_lem_example = json_string_byte_length_lem mixed 14

abbrev two_keys : RowRefData
two_keys = record {
  target_id = codes "ops";
  schema = codes "public";
  relation = codes "events";
  checksum = codes "abc";
  issued_at = 1000;
  expires_at = 2000;
  keys = (codes "id", number (codes "7")) ∷ (codes "name", text mixed) ∷ [];
}

-- A text as long as the Base64 text of the bytes, of the letter `A`.
letters : ℕ → Text
letters zero = []
letters (suc n) = b'A' ∷ letters n

letters-spent : (n : ℕ) → spent (letters n) ≡ n
unfolding letters spent unit_bytes is_pair is_surrogate_pair
letters-spent zero = refl
letters-spent (suc zero) = refl
letters-spent (suc (suc n)) = omega (arith, letters-spent (suc n))

abbrev as_letters : List ℕ → Text
as_letters bytes = letters ((length bytes + 2) / 3 * 4)

letters-length : (bytes : List ℕ) → quoted (as_letters bytes) ≡ 2 + (length bytes + 2) / 3 * 4
letters-length bytes =
    quoted-spent (as_letters bytes) ∙ ap (λ n. 2 + n) (letters-spent ((length bytes + 2) / 3 * 4))

estimate_row_ref_plaintext_bytes_lem_example :
    estimate_row_ref_plaintext_bytes two_keys preflight_bytes
    ≡ bounded (utf8_length (row_ref_json as_letters two_keys)) preflight_bytes
estimate_row_ref_plaintext_bytes_lem_example =
    estimate_row_ref_plaintext_bytes_lem as_letters letters-length two_keys preflight_bytes
      (omega arith) (((omega arith, tt), omega arith), (tt, tt))

estimates_two_keys : estimate_row_ref_plaintext_bytes two_keys preflight_bytes ≡ some 157
unfolding estimate_row_ref_plaintext_bytes json_object_byte_length count_keys count_properties
    json_value_byte_length json_string_byte_length count_units unit_bytes is_pair is_surrogate_pair
    utf8_length decimal digits_from
estimates_two_keys = refl

letters-small : (n : ℕ) → All (λ c. c < 0x80) (letters n)
unfolding letters
letters-small zero = tt
letters-small (suc n) = (omega arith, letters-small n)

length-letters : (n : ℕ) → length (letters n) ≡ n
unfolding letters
length-letters zero = refl
length-letters (suc n) = ap suc (length-letters n)

-- The text of two keys for every value, no key for the cipher, and a cipher that keeps the length only.
abbrev sizes_only : Crypto
sizes_only = record {
  stringify = λ v. some (row_ref_json as_letters two_keys);
  parse = λ s. none;
  derive = λ key kind. some [];
  encrypt = λ key nonce aad plaintext. (letters (utf8_length plaintext), letters 16);
  decrypt = λ key nonce aad ciphertext tag. none;
  base64url = λ bytes. letters ((length bytes * 4 + 2) / 3);
  from_base64url = λ s. [];
}

sizes_only-SizeLaws : SizeLaws sizes_only
sizes_only-SizeLaws = record {
  letters = λ bytes. letters-small ((length bytes * 4 + 2) / 3);
  letters_length = λ bytes. length-letters ((length bytes * 4 + 2) / 3);
  ciphertext_length = λ key nonce aad plaintext. length-letters (utf8_length plaintext);
  tag_length = λ key nonce aad plaintext. length-letters 16;
}

abbrev users_context : Value
users_context = object (
    field_then (codes "targetId") (string (codes "ops")) (
      field_then (codes "schema") (string (codes "s")) (
        field_then (codes "relation") (string (codes "r"))
          (field_then (codes "checksum") (string (codes "c")) no_fields))))

users_context-valid : validate_context users_context ≡ true
unfolding validate_context is_database_target_id utf8_length is_surrogate_pair same field
users_context-valid = refl

estimate_row_ref_plaintext_bytes-seal_example :
    seal sizes_only row_ref users_context (codes "master") (letters 12)
    ≡ ok
        (sealed sizes_only row_ref users_context (letters 12) [] (row_ref_json as_letters two_keys))
estimate_row_ref_plaintext_bytes-seal_example =
    estimate_row_ref_plaintext_bytes-seal as_letters letters-length two_keys 157
      (((omega arith, tt), omega arith), (tt, tt)) estimates_two_keys sizes_only sizes_only-SizeLaws
      users_context (codes "master") (letters 12) [] (length-letters 12) users_context-valid refl
      refl
