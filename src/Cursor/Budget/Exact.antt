-- ===== src/Cursor/Budget/Exact.antt =====
-- The estimate of a row reference (apps/sql-worker/src/explorer/cursorCodec.ts) against the text
-- that `JSON.stringify` writes for its payload.
use nancy_man.Base.{
  ℕ, ◌+◌, ◌*◌, ◌/◌, ◌≤◌, ◌<◌, Text, codes, true, false, List, [], ◌∷◌, ◌++◌, some, none, ◌≡◌, refl,
  sym, ap, ◌∙◌, length, arith, inl, inr, All, Option-cases, subst,
}
use nancy_man.Explorer.Identifier.{decimal, IsDigit, decimal-IsDigit}
use nancy_man.Cursor.Json.{utf8_length, bounded}
use nancy_man.Cursor.Json.Length.{ascii}
use nancy_man.Cursor.Budget.{
  Claim, null, other, boolean, number, text, date, binary, RowRefData, binary_tag, date_tag,
  json_object_byte_length, count_keys, fixed_properties, with_keys,
  estimate_row_ref_plaintext_bytes,
}
use nancy_man.Cursor.Budget.Pieces.{
  quoted, utf8_length-nil, Piece, string_onto-Piece, ascii-Piece, word-Piece, null_bytes,
  true_bytes, false_bytes, tagged_onto-Piece, claim_onto, IsClaim, members_onto, members_size,
  Sized, members_onto-Piece, keys_members, keys_onto, row_ref_members, row_ref_json,
}
use nancy_man.Cursor.Budget.Counts.{
  CountsKeys, count_properties-members_size, claim_size, bounded-over, keys_size,
  count_keys-CountsKeys,
}
use nancy_man.Cursor.Budget.Agree.{
  AgreeAll, members_size-Agree, bounded-Agree, string-Agree, number-Agree,
}

keys_properties : List (Text × Claim) → List (Text × ℕ)
keys_properties [] = []
keys_properties (key ∷ keys) = (key.0, claim_size key.1) ∷ keys_properties keys

keys_size-members_size :
    (keys : List (Text × Claim)) (separator : ℕ)
    → members_size separator (keys_properties keys) ≡ keys_size separator keys
unfolding keys_properties
keys_size-members_size [] separator = refl
keys_size-members_size (key ∷ keys) separator = omega (arith, keys_size-members_size keys 1)

-- The members with their true sizes.
abbrev true_properties : RowRefData → List (Text × ℕ)
true_properties row_ref =
    (codes "version", 1)
    ∷ (codes "targetId", quoted row_ref.target_id)
    ∷ (codes "schema", quoted row_ref.schema)
    ∷ (codes "relation", quoted row_ref.relation)
    ∷ (codes "checksum", quoted row_ref.checksum)
    ∷ (codes "issuedAt", utf8_length (decimal row_ref.issued_at))
    ∷ (codes "expiresAt", utf8_length (decimal row_ref.expires_at))
    ∷ (codes "keys", 2 + keys_size 0 row_ref.keys)
    ∷ []

digits-ascii : (value : Text) → All IsDigit value → All (λ c. c < 0x80) value
digits-ascii [] h = tt
digits-ascii (c ∷ value) h = (omega arith, digits-ascii value h.1)

decimal-Piece : (n : ℕ) → Piece (utf8_length (decimal n)) (λ rest. decimal n ++ rest)
decimal-Piece n = ascii-Piece (decimal n) (digits-ascii (decimal n) (decimal-IsDigit n))

module _ (base64 : List ℕ → Text)
    (base64_length : (bytes : List ℕ)
      → quoted (base64 bytes) ≡ 2 + (length bytes + 2) / 3 * 4) where
  claim_onto-Piece : (c : Claim) → IsClaim c → Piece (claim_size c) (claim_onto base64 c)
  claim_onto-Piece null h rest = word-Piece (codes "null") 4 (omega arith) null_bytes rest
  claim_onto-Piece (boolean true) h rest = word-Piece (codes "true") 4 (omega arith) true_bytes rest
  claim_onto-Piece (boolean false) h rest =
      word-Piece (codes "false") 5 (omega arith) false_bytes rest
  claim_onto-Piece (number value) h rest = ascii-Piece value h.0 rest
  claim_onto-Piece (text value) h rest = string_onto-Piece value rest
  claim_onto-Piece (date none) h rest = absurd h
  claim_onto-Piece (date (some iso)) h rest = tagged_onto-Piece date_tag iso rest
  claim_onto-Piece (binary bytes) h rest =
      omega (arith, tagged_onto-Piece binary_tag (base64 bytes) rest, base64_length bytes)
  claim_onto-Piece other h rest = absurd h

  keys_members-Sized :
      (keys : List (Text × Claim))
      → All (λ key. IsClaim key.1) keys
      → Sized (keys_members base64 keys) (keys_properties keys)
  unfolding keys_members keys_properties
  keys_members-Sized [] h = tt
  keys_members-Sized (key ∷ keys) h =
      (refl, claim_onto-Piece key.1 h.0, keys_members-Sized keys h.1)

  keys_onto-Piece :
      (keys : List (Text × Claim))
      → All (λ key. IsClaim key.1) keys
      → Piece (2 + keys_size 0 keys) (keys_onto base64 keys)
  keys_onto-Piece keys h rest = omega (
    arith,
    ascii b'{' (members_onto 0 (keys_members base64 keys) (b'}' ∷ rest)) (omega arith),
    members_onto-Piece (keys_members base64 keys) (keys_properties keys) 0 (omega arith)
        (keys_members-Sized keys h) (b'}' ∷ rest),
    keys_size-members_size keys 0,
    ascii b'}' rest (omega arith),
  )

  row_ref_json-size :
      (row_ref : RowRefData)
      → All (λ key. IsClaim key.1) row_ref.keys
      → utf8_length (row_ref_json base64 row_ref) ≡ 2 + members_size 0 (true_properties row_ref)
  unfolding row_ref_json
  row_ref_json-size row_ref h =
      let sized : Sized (row_ref_members base64 row_ref) (true_properties row_ref) = (
        refl,
        λ rest. ascii b'1' rest (omega arith),
        (
          refl,
          string_onto-Piece row_ref.target_id,
          (
            refl,
            string_onto-Piece row_ref.schema,
            (
              refl,
              string_onto-Piece row_ref.relation,
              (
                refl,
                string_onto-Piece row_ref.checksum,
                (
                  refl,
                  decimal-Piece row_ref.issued_at,
                  (
                    refl,
                    decimal-Piece row_ref.expires_at,
                    (refl, keys_onto-Piece row_ref.keys h, tt),
                  ),
                ),
              ),
            ),
          ),
        ),
      ) in
      omega (
        arith,
        ascii b'{' (members_onto 0 (row_ref_members base64 row_ref) (b'}' ∷ [])) (omega arith),
        members_onto-Piece (row_ref_members base64 row_ref) (true_properties row_ref) 0
            (omega arith) sized (b'}' ∷ []),
        ascii b'}' [] (omega arith),
        utf8_length-nil,
      )

  fixed_properties-AgreeAll :
      (row_ref : RowRefData) (budget : ℕ)
      → AgreeAll budget
          (fixed_properties row_ref budget (2 + keys_size 0 row_ref.keys))
          (true_properties row_ref)
  fixed_properties-AgreeAll row_ref budget = (
    refl,
    inl refl,
    (
      refl,
      string-Agree row_ref.target_id budget,
      (
        refl,
        string-Agree row_ref.schema budget,
        (
          refl,
          string-Agree row_ref.relation budget,
          (
            refl,
            string-Agree row_ref.checksum budget,
            (
              refl,
              number-Agree row_ref.issued_at budget,
              (refl, number-Agree row_ref.expires_at budget, (refl, inl refl, tt)),
            ),
          ),
        ),
      ),
    ),
  )

  -- Where a budget has room for the braces and the keys are claims with a JSON text, the estimate is
  -- the number of bytes of the payload that `JSON.stringify` writes, where that is within the budget,
  -- and nothing where it is not.
  pub estimate_row_ref_plaintext_bytes_lem :
      (row_ref : RowRefData) (budget : ℕ)
      → 2 ≤ budget
      → All (λ key. IsClaim key.1) row_ref.keys
      → estimate_row_ref_plaintext_bytes row_ref budget
        ≡ bounded (utf8_length (row_ref_json base64 row_ref)) budget
  unfolding estimate_row_ref_plaintext_bytes json_object_byte_length
  estimate_row_ref_plaintext_bytes_lem row_ref budget room valid =
      let counted = count_keys row_ref.keys 0 2 budget in
      let keys_bytes = 2 + keys_size 0 row_ref.keys in
      let size = utf8_length (row_ref_json base64 row_ref) in
      let counts : CountsKeys counted keys_bytes budget =
        count_keys-CountsKeys row_ref.keys 0 2 budget valid room in
      let written : size ≡ 2 + members_size 0 (true_properties row_ref) =
        row_ref_json-size row_ref valid in
      elim (Option-cases counted) [
        | inl nothing ↦
            let reached : budget ≤ keys_bytes =
              subst (λ r. CountsKeys r keys_bytes budget) nothing counts in
            rw (nothing, count_keys) (sym (bounded-over size budget (omega arith)))
        | inr found ↦
            let exact : (found.0 ≡ keys_bytes) × (keys_bytes ≤ budget) =
              subst (λ r. CountsKeys r keys_bytes budget) found.1 counts in
            let estimated = fixed_properties row_ref budget keys_bytes in
            let agree = fixed_properties-AgreeAll row_ref budget in
            ap (with_keys row_ref budget) (found.1 ∙ ap some exact.0)
            ∙ count_properties-members_size (fixed_properties row_ref budget keys_bytes) 0 2 budget
                room
            ∙ bounded-Agree budget (members_size 0 estimated)
                (members_size 0 (true_properties row_ref))
                (members_size-Agree budget 0 estimated (true_properties row_ref) agree)
            ∙ ap (λ n. bounded n budget) (sym written)
      ]
