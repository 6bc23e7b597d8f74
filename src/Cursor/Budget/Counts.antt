-- ===== src/Cursor/Budget/Counts.antt =====
-- The loops that count the bytes of a row reference
-- (apps/sql-worker/src/explorer/cursorCodec.ts), each with the count it makes.
use nancy_man.Base.{
  ℕ, ◌+◌, ◌-◌, ◌*◌, ◌/◌, ◌≤◌, ◌<◌, Text, true, false, List, [], ◌∷◌, Option, some, none, ◌≡◌, refl,
  sym, ap, ◌∙◌, ltb, leb, length, if◌then◌else◌, arith, Bool-cases, inl, inr, All, subst,
}
use nancy_man.Cursor.Json.{utf8_length, bounded}
use nancy_man.Cursor.Json.Length.{json_string_byte_length_lem, ascii, within-same}
use nancy_man.Cursor.Budget.{
  Claim, null, other, boolean, number, text, date, binary, binary_tag, date_tag, plus,
  json_value_byte_length, count_properties, count_keys,
}
use nancy_man.Cursor.Budget.Pieces.{quoted, quoted-spent, IsClaim, members_size}

abbrev pub claim_size : Claim → ℕ
claim_size null = 4
claim_size (boolean value) = if value then 4 else 5
claim_size (number value) = utf8_length value
claim_size (text value) = quoted value
claim_size (date none) = 0
claim_size (date (some iso)) = 2 + quoted date_tag + 1 + quoted iso
claim_size (binary bytes) = 2 + quoted binary_tag + 1 + (2 + (length bytes + 2) / 3 * 4)
claim_size other = 0

plus-bounded :
    (n k maximum_bytes : ℕ)
    → 2 ≤ k
    → plus (2 + n + 1) (bounded k (maximum_bytes - n - 3)) ≡ bounded (2 + n + 1 + k) maximum_bytes
plus-bounded n k maximum_bytes h = elim (Bool-cases (leb k (maximum_bytes - n - 3))) [
  | inl fits ↦ ground arith
  | inr over ↦ ground arith
]

json_value_byte_length-claim_size :
    (c : Claim) (maximum_bytes : ℕ)
    → IsClaim c
    → json_value_byte_length c maximum_bytes ≡ bounded (claim_size c) maximum_bytes
unfolding json_value_byte_length
json_value_byte_length-claim_size null maximum_bytes h = refl
json_value_byte_length-claim_size (boolean value) maximum_bytes h = refl
json_value_byte_length-claim_size (number value) maximum_bytes h = refl
json_value_byte_length-claim_size (text value) maximum_bytes h =
    json_string_byte_length_lem value maximum_bytes
json_value_byte_length-claim_size (date none) maximum_bytes h = absurd h
json_value_byte_length-claim_size (date (some iso)) maximum_bytes h =
    ap (plus (2 + quoted date_tag + 1))
      (json_string_byte_length_lem iso (maximum_bytes - quoted date_tag - 3))
    ∙ plus-bounded (quoted date_tag) (quoted iso) maximum_bytes (omega (arith, quoted-spent iso))
json_value_byte_length-claim_size (binary bytes) maximum_bytes h =
    ap (λ n. bounded n maximum_bytes) (omega arith)
json_value_byte_length-claim_size other maximum_bytes h = absurd h

utf8_length_pos :
    (value : Text) → All (λ c. c < 0x80) value → 0 < length value → 1 ≤ utf8_length value
utf8_length_pos [] h pos = absurd (omega arith)
utf8_length_pos (c ∷ value) h pos = omega (arith, ascii c value h.0)

claim_size_pos : (c : Claim) → IsClaim c → 1 ≤ claim_size c
claim_size_pos null h = omega arith
claim_size_pos (boolean true) h = omega arith
claim_size_pos (boolean false) h = omega arith
claim_size_pos (number value) h = utf8_length_pos value h.0 h.1
claim_size_pos (text value) h = omega (arith, quoted-spent value)
claim_size_pos (date none) h = absurd h
claim_size_pos (date (some iso)) h = omega arith
claim_size_pos (binary bytes) h = omega arith
claim_size_pos other h = absurd h

pub bounded-over : (n maximum_bytes : ℕ) → maximum_bytes < n → bounded n maximum_bytes ≡ none
bounded-over n maximum_bytes h = ground arith

bounded-fits : (n maximum_bytes : ℕ) → n ≤ maximum_bytes → bounded n maximum_bytes ≡ some n
bounded-fits n maximum_bytes h = ground arith

-- The loop of `jsonObjectByteLength` counts exactly the members, up to the bound.
pub count_properties-members_size :
    (properties : List (Text × ℕ)) (separator bytes maximum_bytes : ℕ)
    → bytes ≤ maximum_bytes
    → count_properties properties separator bytes maximum_bytes
      ≡ bounded (bytes + members_size separator properties) maximum_bytes
unfolding count_properties
count_properties-members_size [] separator bytes maximum_bytes h = ground arith
count_properties-members_size (property ∷ properties) separator bytes maximum_bytes h =
    let room = maximum_bytes - bytes - separator - 1 in
    let key = json_string_byte_length_lem property.0 room in
    let next = bytes + (separator + quoted property.0 + 1 + property.1) in
    let total = bytes + members_size separator (property ∷ properties) in
    elim (Bool-cases (ltb maximum_bytes (bytes + separator))) [
      | inl over ↦ rw over (sym (bounded-over total maximum_bytes (ground arith)))
      | inr room_left ↦ elim (Bool-cases (leb (quoted property.0) room)) [
        | inl fits ↦
            let found = key ∙ bounded-fits (quoted property.0) room (ground arith) in
            rw (room_left, found)
              (within-same next total maximum_bytes
                (count_properties properties 1 next maximum_bytes) (members_size 1 properties)
                (omega arith)
                (λ within_bound.
                  count_properties-members_size properties 1 next maximum_bytes within_bound
                  ∙ ap (λ n. bounded n maximum_bytes) (omega arith)))
        | inr long ↦
            let missing = key ∙ bounded-over (quoted property.0) room (ground arith) in
            rw (room_left, missing) (sym (bounded-over total maximum_bytes (ground arith)))
      ]
    ]

-- What the loop over the keys may answer: the count, within the budget, or nothing, and then the
-- count reaches the budget.
abbrev pub CountsKeys : Option ℕ → ℕ → ℕ → Type 0
CountsKeys none total budget = budget ≤ total
CountsKeys (some counted) total budget = (counted ≡ total) × (total ≤ budget)

abbrev pub keys_size : ℕ → List (Text × Claim) → ℕ
keys_size separator [] = 0
keys_size separator (key ∷ keys) =
    separator + quoted key.0 + 1 + claim_size key.1 + keys_size 1 keys

pub count_keys-CountsKeys :
    (keys : List (Text × Claim)) (separator bytes budget : ℕ)
    → All (λ key. IsClaim key.1) keys
    → bytes ≤ budget
    → CountsKeys (count_keys keys separator bytes budget) (bytes + keys_size separator keys) budget
unfolding count_keys
count_keys-CountsKeys [] separator bytes budget valid h = (omega arith, omega arith)
count_keys-CountsKeys (key ∷ keys) separator bytes budget valid h =
    let column_room = budget - bytes - separator - 2 in
    let column = json_string_byte_length_lem key.0 column_room in
    let claim_room = budget - bytes - separator - quoted key.0 - 2 in
    let claim = json_value_byte_length-claim_size key.1 claim_room valid.0 in
    let next = bytes + (separator + quoted key.0 + 1 + claim_size key.1) in
    let counted = count_keys (key ∷ keys) separator bytes budget in
    let total = bytes + keys_size separator (key ∷ keys) in
    let some_size = claim_size_pos key.1 valid.0 in
    let some_name : 2 ≤ quoted key.0 = omega (arith, quoted-spent key.0) in
    elim (Bool-cases (leb (quoted key.0) column_room)) [
      | inl fits ↦
          let found = column ∙ bounded-fits (quoted key.0) column_room (ground arith) in
          elim (Bool-cases (leb (claim_size key.1) claim_room)) [
            | inl claim_fits ↦
                let claim_found =
                  claim ∙ bounded-fits (claim_size key.1) claim_room (ground arith) in
                let inside : ltb budget next ≡ false = ground arith in
                let more = count_keys-CountsKeys keys 1 next budget valid.1 (ground arith) in
                let goes : counted ≡ count_keys keys 1 next budget =
                  rw (found, claim_found, inside, count_keys) in
                subst (λ r. CountsKeys r total budget) (sym goes)
                  (subst (λ n. CountsKeys (count_keys keys 1 next budget) n budget) (omega arith)
                    more)
            | inr claim_long ↦
                let claim_missing =
                  claim ∙ bounded-over (claim_size key.1) claim_room (ground arith) in
                let stops : counted ≡ none = rw (found, claim_missing, count_keys) in
                subst (λ r. CountsKeys r total budget) (sym stops) (ground arith)
          ]
      | inr long ↦
          let missing = column ∙ bounded-over (quoted key.0) column_room (ground arith) in
          let stops : counted ≡ none = rw (missing, count_keys) in
          subst (λ r. CountsKeys r total budget) (sym stops) (ground arith)
    ]
