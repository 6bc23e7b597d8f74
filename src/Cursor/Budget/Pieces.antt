-- ===== src/Cursor/Budget/Pieces.antt =====
-- The texts that `JSON.stringify` writes for the parts of the payload of a row reference
-- (apps/sql-worker/src/explorer/cursorCodec.ts), each with the bytes it takes.
use nancy_man.Base.{
  ℕ, zero, suc, ◌+◌, ◌≤◌, ◌<◌, Text, codes, true, false, List, [], ◌∷◌, ◌++◌, some, none, ◌≡◌, refl,
  ap, length, arith, All,
}
use nancy_man.Explorer.Identifier.{decimal}
use nancy_man.Cursor.Json.{utf8_length, quote_json, escape, is_surrogate_pair}
use nancy_man.Cursor.Json.Length.{ascii, utf8_length-escape, spent}
use nancy_man.Cursor.Budget.{
  Claim, null, other, boolean, number, text, date, binary, RowRefData, binary_tag, date_tag,
}

-- The bytes of a text as a JSON string.
abbrev pub quoted : Text → ℕ
quoted value = utf8_length (quote_json value)

-- The texts below are followed by a rest. A JSON string:
abbrev string_onto : Text → Text → Text
string_onto value rest = b'"' ∷ escape value (b'"' ∷ rest)

pub utf8_length-nil : utf8_length [] ≡ 0
unfolding utf8_length
utf8_length-nil = refl

-- A text that is written before a rest takes so many bytes.
abbrev pub Piece : ℕ → (Text → Text) → Type 0
Piece n onto = (rest : Text) → utf8_length (onto rest) ≡ n + utf8_length rest

pub quoted-spent : (value : Text) → quoted value ≡ 2 + spent value
unfolding quote_json
quoted-spent value = omega (
  arith,
  ascii b'"' (escape value (b'"' ∷ [])) (omega arith),
  utf8_length-escape value (b'"' ∷ []),
  ascii b'"' [] (omega arith),
  utf8_length-nil,
)

pub string_onto-Piece : (value : Text) → Piece (quoted value) (string_onto value)
string_onto-Piece value rest = omega (
  arith,
  quoted-spent value,
  ascii b'"' (escape value (b'"' ∷ rest)) (omega arith),
  utf8_length-escape value (b'"' ∷ rest),
  ascii b'"' rest (omega arith),
)

pub ascii-Piece :
    (value : Text) → All (λ c. c < 0x80) value → Piece (utf8_length value) (λ rest. value ++ rest)
ascii-Piece [] h rest = omega (arith, utf8_length-nil)
ascii-Piece (c ∷ value) h rest =
    omega (arith, ascii c (value ++ rest) h.0, ascii c value h.0, ascii-Piece value h.1 rest)

pub word-Piece :
    (value : Text) (n : ℕ)
    → All (λ c. c < 0x80) value
    → utf8_length value ≡ n
    → Piece n (λ rest. value ++ rest)
word-Piece value n h e rest = omega (arith, ascii-Piece value h rest)

pub null_bytes : utf8_length (codes "null") ≡ 4
unfolding utf8_length is_surrogate_pair
null_bytes = refl

pub true_bytes : utf8_length (codes "true") ≡ 4
unfolding utf8_length is_surrogate_pair
true_bytes = refl

pub false_bytes : utf8_length (codes "false") ≡ 5
unfolding utf8_length is_surrogate_pair
false_bytes = refl

-- `{"tag":"value"}`.
abbrev tagged_onto : Text → Text → Text → Text
tagged_onto tag value rest = b'{' ∷ string_onto tag (b':' ∷ string_onto value (b'}' ∷ rest))

pub tagged_onto-Piece :
    (tag value : Text) → Piece (2 + quoted tag + 1 + quoted value) (tagged_onto tag value)
tagged_onto-Piece tag value rest = omega (
  arith,
  ascii b'{' (string_onto tag (b':' ∷ string_onto value (b'}' ∷ rest))) (omega arith),
  string_onto-Piece tag (b':' ∷ string_onto value (b'}' ∷ rest)),
  ascii b':' (string_onto value (b'}' ∷ rest)) (omega arith),
  string_onto-Piece value (b'}' ∷ rest),
  ascii b'}' rest (omega arith),
)

abbrev comma : ℕ → Text → Text
comma zero rest = rest
comma (suc n) rest = b',' ∷ rest

comma-Piece : (separator : ℕ) → separator ≤ 1 → Piece separator (comma separator)
comma-Piece zero h rest = omega arith
comma-Piece (suc n) h rest = omega (arith, ascii b',' rest (omega arith))

-- The value that `rowRefPayloadForEncryption` makes of a claim.
abbrev pub claim_onto : (List ℕ → Text) → Claim → Text → Text
claim_onto base64 null rest = codes "null" ++ rest
claim_onto base64 (boolean true) rest = codes "true" ++ rest
claim_onto base64 (boolean false) rest = codes "false" ++ rest
claim_onto base64 (number value) rest = value ++ rest
claim_onto base64 (text value) rest = string_onto value rest
claim_onto base64 (date none) rest = rest
claim_onto base64 (date (some iso)) rest = tagged_onto date_tag iso rest
claim_onto base64 (binary bytes) rest = tagged_onto binary_tag (base64 bytes) rest
claim_onto base64 other rest = rest

-- Claims with a JSON text: of a number, ASCII and not empty.
abbrev pub IsClaim : Claim → Type 0
IsClaim null = Unit
IsClaim (boolean value) = Unit
IsClaim (number value) = All (λ c. c < 0x80) value × (0 < length value)
IsClaim (text value) = Unit
IsClaim (date none) = ⊥
IsClaim (date (some iso)) = Unit
IsClaim (binary bytes) = Unit
IsClaim other = ⊥

-- The members of an object: names, and what writes the values.
abbrev pub members_onto : ℕ → List (Text × (Text → Text)) → Text → Text
members_onto separator [] rest = rest
members_onto separator (member ∷ members) rest =
    comma separator (string_onto member.0 (b':' ∷ member.1 (members_onto 1 members rest)))

abbrev pub members_size : ℕ → List (Text × ℕ) → ℕ
members_size separator [] = 0
members_size separator (property ∷ properties) =
    separator + quoted property.0 + 1 + property.1 + members_size 1 properties

-- Members and the sizes of their values.
abbrev pub Sized : List (Text × (Text → Text)) → List (Text × ℕ) → Type 0
Sized [] [] = Unit
Sized [] (property ∷ properties) = ⊥
Sized (member ∷ members) [] = ⊥
Sized (member ∷ members) (property ∷ properties) =
    (member.0 ≡ property.0) × Piece property.1 member.1 × Sized members properties

pub members_onto-Piece :
    (members : List (Text × (Text → Text))) (properties : List (Text × ℕ)) (separator : ℕ)
    → separator ≤ 1
    → Sized members properties
    → Piece (members_size separator properties) (members_onto separator members)
members_onto-Piece [] [] separator h sized rest = omega arith
members_onto-Piece [] (property ∷ properties) separator h sized rest = absurd sized
members_onto-Piece (member ∷ members) [] separator h sized rest = absurd sized
members_onto-Piece (member ∷ members) (property ∷ properties) separator h sized rest =
    let others = members_onto 1 members rest in
    omega (
      arith,
      comma-Piece separator h (string_onto member.0 (b':' ∷ member.1 others)),
      string_onto-Piece member.0 (b':' ∷ member.1 others),
      ascii b':' (member.1 others) (omega arith),
      sized.1 others,
      members_onto-Piece members properties 1 (omega arith) sized.2 rest,
      ap quoted sized.0,
    )

unfoldable pub keys_members :
    (base64 : List ℕ → Text) → List (Text × Claim) → List (Text × (Text → Text))
keys_members base64 [] = []
keys_members base64 (key ∷ keys) = (key.0, claim_onto base64 key.1) ∷ keys_members base64 keys

-- The object of the keys, and the whole payload, with its members in the order of the estimate. The
-- order in which `JSON.stringify` writes them changes nothing about the length.
abbrev pub keys_onto : (List ℕ → Text) → List (Text × Claim) → Text → Text
keys_onto base64 keys rest = b'{' ∷ members_onto 0 (keys_members base64 keys) (b'}' ∷ rest)

abbrev pub row_ref_members : (List ℕ → Text) → RowRefData → List (Text × (Text → Text))
row_ref_members base64 row_ref =
    (codes "version", λ rest. b'1' ∷ rest)
    ∷ (codes "targetId", string_onto row_ref.target_id)
    ∷ (codes "schema", string_onto row_ref.schema)
    ∷ (codes "relation", string_onto row_ref.relation)
    ∷ (codes "checksum", string_onto row_ref.checksum)
    ∷ (codes "issuedAt", λ rest. decimal row_ref.issued_at ++ rest)
    ∷ (codes "expiresAt", λ rest. decimal row_ref.expires_at ++ rest)
    ∷ (codes "keys", keys_onto base64 row_ref.keys)
    ∷ []

unfoldable pub row_ref_json : (List ℕ → Text) → RowRefData → Text
unfolding keys_members
row_ref_json base64 row_ref = b'{' ∷ members_onto 0 (row_ref_members base64 row_ref) (b'}' ∷ [])
