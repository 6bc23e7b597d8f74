-- ===== src/Cursor/Codec/Preflight.antt =====
-- The estimate of a row reference against the test of its size in `seal`
-- (apps/sql-worker/src/explorer/cursorCodec.ts).
use nancy_man.Base.{
  ℕ, ◌+◌, ◌*◌, ◌/◌, ◌≤◌, ◌<◌, Text, codes, true, false, List, [], ◌∷◌, ◌++◌, some, ◌≡◌, refl, sym,
  ◌∙◌, leb, ltb, length, length-append, All, All-append, arith, Bool-cases, inl, inr, ok, is_empty,
}
use nancy_man.Cursor.Json.{utf8_length, bounded}
use nancy_man.Cursor.Json.Length.{ascii}
use nancy_man.Cursor.Budget.{
  RowRefData, preflight_bytes, estimate_row_ref_plaintext_bytes, max_cursor_bytes,
}
use nancy_man.Cursor.Budget.Pieces.{IsClaim, quoted, row_ref_json, utf8_length-nil}
use nancy_man.Cursor.Budget.Exact.{estimate_row_ref_plaintext_bytes_lem}
use nancy_man.Cursor.Value.{Value, validate_context}
use nancy_man.Cursor.Codec.{
  Crypto, row_ref, kind_name, envelope_version, join, context_aad, is_oversize, sealed, seal,
}

bounded-some : (n k maximum_bytes : ℕ) → bounded n maximum_bytes ≡ some k → n ≤ maximum_bytes
bounded-some n k maximum_bytes h = elim (Bool-cases (leb n maximum_bytes)) [
  | inl fits ↦ ground (arith, fits)
  | inr over ↦ absurd (ground (arith, h, over))
]

is_oversize-small :
    (plaintext : Text)
    → utf8_length plaintext ≤ preflight_bytes
    → is_oversize row_ref plaintext ≡ false
is_oversize-small plaintext h = ground (arith, h)

-- What the size of a token rests on: base64url gives ASCII text, four characters for three bytes and
-- no padding, and AES-256-GCM gives as many bytes as the plaintext has in UTF-8, and a tag of 16.
pub record SizeLaws (crypto : Crypto) : Type 0 where
  pub letters : (bytes : List ℕ) → All (λ c. c < 0x80) (crypto.base64url bytes)
  pub letters_length :
      (bytes : List ℕ) → length (crypto.base64url bytes) ≡ (length bytes * 4 + 2) / 3
  pub ciphertext_length :
      (key nonce : List ℕ) (aad plaintext : Text)
      → length (crypto.encrypt key nonce aad plaintext).0 ≡ utf8_length plaintext
  pub tag_length :
      (key nonce : List ℕ) (aad plaintext : Text)
      → length (crypto.encrypt key nonce aad plaintext).1 ≡ 16

ascii_length : (s : Text) → All (λ c. c < 0x80) s → utf8_length s ≡ length s
ascii_length [] h = utf8_length-nil
ascii_length (c ∷ s) (small, h) = omega (arith, ascii c s small, ascii_length s h)

-- A token of the three parts behind the version and the kind.
abbrev token_of : Text → Text → Text → Text
token_of nonce ciphertext tag =
    join (envelope_version ∷ kind_name row_ref ∷ nonce ∷ ciphertext ∷ tag ∷ [])

token-small :
    (nonce ciphertext tag : Text)
    → All (λ c. c < 0x80) nonce
    → All (λ c. c < 0x80) ciphertext
    → All (λ c. c < 0x80) tag
    → utf8_length (token_of nonce ciphertext tag)
      ≡ 13 + length nonce + length ciphertext + length tag
token-small nonce ciphertext tag n c t =
    let P : ℕ → Type 0 = λ k. k < 0x80 in
    let tail = All-append P ciphertext (b'.' ∷ tag) c (omega arith, t) in
    let body = All-append P nonce (b'.' ∷ (ciphertext ++ b'.' ∷ tag)) n (omega arith, tail) in
    let front = All-append P (codes "v2.row-ref.") _ first_letters body in
    omega (
      arith,
      ascii_length (token_of nonce ciphertext tag) front,
      length-append nonce (b'.' ∷ (ciphertext ++ b'.' ∷ tag)),
      length-append ciphertext (b'.' ∷ tag),
    )
  where
    first_letters : All (λ c. c < 0x80) (codes "v2.row-ref.")
    first_letters = (
      omega arith,
      (
        omega arith,
        (
          omega arith,
          (
            omega arith,
            (
              omega arith,
              (
                omega arith,
                (omega arith, (omega arith, (omega arith, (omega arith, (omega arith, tt))))),
              ),
            ),
          ),
        ),
      ),
    )

row_ref_json-full :
    (base64 : List ℕ → Text) (reference : RowRefData)
    → is_empty (row_ref_json base64 reference) ≡ false
unfolding row_ref_json
row_ref_json-full base64 reference = refl

sealed-small :
    (crypto : Crypto)
    → SizeLaws crypto
    → (value : Value) (nonce derived : List ℕ) (plaintext : Text) → length nonce ≡ 12
    → utf8_length plaintext ≤ preflight_bytes
    → ltb max_cursor_bytes (utf8_length (sealed crypto row_ref value nonce derived plaintext))
      ≡ false
sealed-small crypto laws value nonce derived plaintext twelve few =
    let aad = context_aad row_ref value in
    let encrypted = crypto.encrypt derived nonce aad plaintext in
    let total =
      token-small (crypto.base64url nonce) (crypto.base64url encrypted.0)
        (crypto.base64url encrypted.1) (laws.letters nonce) (laws.letters encrypted.0)
        (laws.letters encrypted.1) in
    let size = utf8_length (sealed crypto row_ref value nonce derived plaintext) in
    let bound : size ≤ max_cursor_bytes = omega (
      arith,
      total,
      few,
      twelve,
      laws.letters_length nonce,
      laws.letters_length encrypted.0,
      laws.letters_length encrypted.1,
      laws.ciphertext_length derived nonce aad plaintext,
      laws.tag_length derived nonce aad plaintext,
    ) in
    ground (arith, bound)

-- `seal` does not refuse a row reference for its size if the estimate lets its JSON text through: on a
-- value with a valid context and this text, with a nonce of 12 bytes and a master key from which a
-- key is derived, it gives the sealed token. The claims of the reference have a JSON text, and Base64
-- takes four characters for three bytes.
pub estimate_row_ref_plaintext_bytes-seal :
    (base64 : List ℕ → Text)
    → ((bytes : List ℕ) → quoted (base64 bytes) ≡ 2 + (length bytes + 2) / 3 * 4)
    → (reference : RowRefData) (estimated : ℕ) → All (λ key. IsClaim key.1) reference.keys
    → estimate_row_ref_plaintext_bytes reference preflight_bytes ≡ some estimated
    → (crypto : Crypto) → SizeLaws crypto
    → (value : Value) (key : Text) (nonce derived : List ℕ) → length nonce ≡ 12
    → validate_context value ≡ true
    → crypto.stringify value ≡ some (row_ref_json base64 reference)
    → crypto.derive key row_ref ≡ some derived
    → seal crypto row_ref value key nonce
      ≡ ok (sealed crypto row_ref value nonce derived (row_ref_json base64 reference))
unfolding seal
estimate_row_ref_plaintext_bytes-seal base64 base64_length reference estimated valid h crypto laws
      value key nonce derived twelve context text derives =
    let plaintext = row_ref_json base64 reference in
    let exact =
      estimate_row_ref_plaintext_bytes_lem base64 base64_length reference preflight_bytes
        (omega arith) valid in
    let few = bounded-some (utf8_length plaintext) estimated preflight_bytes (sym exact ∙ h) in
    let first = is_oversize-small plaintext few in
    let second = sealed-small crypto laws value nonce derived plaintext twelve few in
    rw (context, text, row_ref_json-full base64 reference, first, derives, second) refl
