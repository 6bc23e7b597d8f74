-- ===== src/Cursor/Codec/RoundTrip.antt =====
-- A cursor that `encodeCursor` seals is the one that `decodeCursor` opens
-- (apps/sql-worker/src/explorer/cursorCodec.ts), with what the code relies on of the libraries.
use nancy_man.Base.{
  ℕ, Text, true, false, List, [], ◌∷◌, Option, some, none, ◌≡◌, sym, ap, ◌∙◌, not, ltb, arith, ok,
  >>=-eq-ok, throw_if-passes, ok-injective, eq_of_same, same_refl, is_empty, length, ◌==◌,
}
use nancy_man.Cursor.Json.{utf8_length}
use nancy_man.Cursor.Budget.{max_cursor_bytes}
use nancy_man.Cursor.Value.{Value, validate_context, validate_cursor}
use nancy_man.Cursor.Codec.{
  Crypto, TokenKind, cursor, cursor_invalid, kind_name, envelope_version, or_invalid, context_aad,
  is_oversize, sealed, seal, is_altered, has_bad_parts, open_parts, open_token, encode_cursor,
  contexts_match, is_alive, is_too_large, accept, decode_cursor,
}
use nancy_man.Cursor.Codec.Granted.{contexts_match_texts}
use nancy_man.Cursor.Codec.Parts.{IsDotless, split-five, version-IsDotless, cursor-IsDotless}

-- AES-256-GCM gives back what it was given, with a ciphertext for every plaintext that is not empty
-- and a tag of 16 bytes; base64url is read back, has no dot, and is empty for no bytes only.
pub record CryptoLaws (crypto : Crypto) : Type 0 where
  pub opens :
      (key nonce : List ℕ) (aad plaintext : Text)
      → crypto.decrypt key nonce aad
          (crypto.encrypt key nonce aad plaintext).0
          (crypto.encrypt key nonce aad plaintext).1
        ≡ some plaintext
  pub tag_length :
      (key nonce : List ℕ) (aad plaintext : Text)
      → length (crypto.encrypt key nonce aad plaintext).1 ≡ 16
  pub fills :
      (key nonce : List ℕ) (aad plaintext : Text)
      → is_empty plaintext ≡ false
      → (length (crypto.encrypt key nonce aad plaintext).0 == 0) ≡ false
  pub reads_back : (bytes : List ℕ) → crypto.from_base64url (crypto.base64url bytes) ≡ bytes
  pub dotless : (bytes : List ℕ) → IsDotless (crypto.base64url bytes)
  pub empties : (bytes : List ℕ) → is_empty (crypto.base64url bytes) ≡ (length bytes == 0)

context_aad-match :
    (kind : TokenKind) (value expected : Value)
    → contexts_match value expected ≡ true
    → context_aad kind value ≡ context_aad kind expected
context_aad-match kind value expected h =
    let texts = contexts_match_texts value expected h in
    rw (
      eq_of_same _ _ texts.0,
      eq_of_same _ _ texts.1,
      eq_of_same _ _ texts.2,
      eq_of_same _ _ texts.3,
    )

or_invalid-eq-ok : {A : Type 0} (o : Option A) (a : A) → or_invalid o ≡ ok a → o ≡ some a
or_invalid-eq-ok none a h = absurd (ground arith)
or_invalid-eq-ok (some b) a h = ap some (ok-injective b a h)

module _ (crypto : Crypto) (laws : CryptoLaws crypto) where
  is_altered-base64url : (bytes : List ℕ) → is_altered crypto (crypto.base64url bytes) ≡ false
  is_altered-base64url bytes = rw (laws.reads_back bytes, same_refl (crypto.base64url bytes))

  has_bad_parts-base64url :
      (nonce ciphertext tag : List ℕ)
      → length nonce ≡ 12
      → (length ciphertext == 0) ≡ false
      → length tag ≡ 16
      → has_bad_parts crypto
          (crypto.base64url nonce)
          (crypto.base64url ciphertext)
          (crypto.base64url tag)
        ≡ false
  has_bad_parts-base64url nonce ciphertext tag n c t = rw (
    laws.reads_back nonce,
    laws.reads_back ciphertext,
    laws.reads_back tag,
    n,
    c,
    t,
    same_refl (crypto.base64url nonce),
    same_refl (crypto.base64url ciphertext),
    same_refl (crypto.base64url tag),
  )

  -- The parts of a sealed cursor open under the context that they were sealed with.
  open_parts-sealed :
      (key plaintext : Text) (derived nonce : List ℕ) (expected value : Value)
      → length nonce ≡ 12
      → is_empty plaintext ≡ false
      → crypto.derive key cursor ≡ some derived
      → crypto.parse plaintext ≡ some value
      → open_parts crypto cursor key expected (
          envelope_version
          ∷ kind_name cursor
          ∷ crypto.base64url nonce
          ∷ crypto.base64url
              (crypto.encrypt derived nonce (context_aad cursor expected) plaintext).0
          ∷ crypto.base64url
              (crypto.encrypt derived nonce (context_aad cursor expected) plaintext).1
          ∷ [])
        ≡ ok value
  unfolding open_parts
  open_parts-sealed key plaintext derived nonce expected value size filled derives parsed =
      let aad = context_aad cursor expected in
      let encrypted = crypto.encrypt derived nonce aad plaintext in
      let some_bytes : (length encrypted.0 == 0) ≡ false =
        laws.fills derived nonce aad plaintext filled in
      let tag_bytes = laws.tag_length derived nonce aad plaintext in
      let nonce_filled : is_empty (crypto.base64url nonce) ≡ false =
        laws.empties nonce ∙ ap (λ n. n == 0) size in
      let ciphertext_filled : is_empty (crypto.base64url encrypted.0) ≡ false =
        laws.empties encrypted.0 ∙ some_bytes in
      let tag_filled : is_empty (crypto.base64url encrypted.1) ≡ false =
        laws.empties encrypted.1 ∙ ap (λ n. n == 0) tag_bytes in
      let sound = has_bad_parts-base64url nonce encrypted.0 encrypted.1 size some_bytes tag_bytes in
      rw (
        same_refl envelope_version,
        same_refl (kind_name cursor),
        nonce_filled,
        ciphertext_filled,
        tag_filled,
        sound,
        derives,
        laws.reads_back nonce,
        laws.reads_back encrypted.0,
        laws.reads_back encrypted.1,
        laws.opens derived nonce aad plaintext,
        parsed,
      )

  -- A sealed cursor opens under a matching context.
  open_token-sealed :
      (key plaintext : Text) (derived nonce : List ℕ) (expected value : Value)
      → length nonce ≡ 12
      → is_empty plaintext ≡ false
      → crypto.derive key cursor ≡ some derived
      → crypto.parse plaintext ≡ some value
      → validate_context expected ≡ true
      → ltb max_cursor_bytes (utf8_length (sealed crypto cursor expected nonce derived plaintext))
        ≡ false
      → open_token crypto cursor
          (sealed crypto cursor expected nonce derived plaintext)
          key
          expected
        ≡ ok value
  unfolding open_token
  open_token-sealed key plaintext derived nonce expected value size filled derives parsed valid
        fits =
      let encrypted = crypto.encrypt derived nonce (context_aad cursor expected) plaintext in
      let parts =
        split-five envelope_version (kind_name cursor) (crypto.base64url nonce)
          (crypto.base64url encrypted.0) (crypto.base64url encrypted.1)
          (
            version-IsDotless,
            (
              cursor-IsDotless,
              (laws.dotless nonce, (laws.dotless encrypted.0, (laws.dotless encrypted.1, tt))),
            ),
          ) in
      rw (fits, valid)
        (ap (open_parts crypto cursor key expected) parts
          ∙ open_parts-sealed key plaintext derived nonce expected value size filled derives parsed)

  -- What a call of `seal` that returns has gone through.
  record IsSealed (value : Value) (key : Text) (nonce : List ℕ) (token : Text) : Type 0 where
    plaintext : Text
    derived : List ℕ
    said : crypto.stringify value ≡ some plaintext
    filled : is_empty plaintext ≡ false
    derives : crypto.derive key cursor ≡ some derived
    fits :
        ltb max_cursor_bytes (utf8_length (sealed crypto cursor value nonce derived plaintext))
        ≡ false
    seals : sealed crypto cursor value nonce derived plaintext ≡ token

  seal-IsSealed :
      (value : Value) (key : Text) (nonce : List ℕ) (token : Text)
      → seal crypto cursor value key nonce ≡ ok token
      → IsSealed value key nonce token
  unfolding seal
  seal-IsSealed value key nonce token h0 =
      let (_, h1) = throw_if-passes (not (validate_context value)) cursor_invalid _ token h0 in
      let (plaintext, said, h2) = >>=-eq-ok (or_invalid (crypto.stringify value)) _ h1 in
      let (filled, h3) = throw_if-passes (is_empty plaintext) cursor_invalid _ token h2 in
      let (_, h4) = throw_if-passes (is_oversize cursor plaintext) cursor_invalid _ token h3 in
      let (derived, derives, h5) = >>=-eq-ok (or_invalid (crypto.derive key cursor)) _ h4 in
      let written = sealed crypto cursor value nonce derived plaintext in
      let (fits, h6) =
        throw_if-passes (ltb max_cursor_bytes (utf8_length written)) cursor_invalid (ok written)
          token h5 in
      record {
        plaintext = plaintext;
        derived = derived;
        said = or_invalid-eq-ok _ _ said;
        filled = filled;
        derives = or_invalid-eq-ok _ _ derives;
        fits = fits;
        seals = ok-injective written token h6;
      }

  sealed-match :
      (nonce derived : List ℕ) (plaintext : Text) (value expected : Value)
      → contexts_match value expected ≡ true
      → sealed crypto cursor value nonce derived plaintext
        ≡ sealed crypto cursor expected nonce derived plaintext
  sealed-match nonce derived plaintext value expected matches =
      rw (context_aad-match cursor value expected matches)

  -- A cursor that `encodeCursor` returns a token for is what `decodeCursor` returns for the token,
  -- with the same key, before it expires, under a context with the same four texts, where its offset
  -- is not too large and `JSON.parse` reads back its JSON text. The laws are those of AES-256-GCM and
  -- of base64url.
  pub decode_cursor-encode_cursor :
      (key token : Text) (nonce : List ℕ) (value expected : Value) (now : ℕ)
      → length nonce ≡ 12
      → ((plaintext : Text)
          → crypto.stringify value ≡ some plaintext
          → crypto.parse plaintext ≡ some value)
      → validate_context expected ≡ true
      → contexts_match value expected ≡ true
      → is_alive value now ≡ true
      → is_too_large value ≡ false
      → encode_cursor crypto value key nonce ≡ ok token
      → decode_cursor crypto token key expected now ≡ ok value
  unfolding encode_cursor decode_cursor accept
  decode_cursor-encode_cursor key token nonce value expected now size reads context matches alive
        small encoded =
      let (valid, sealing) =
        throw_if-passes (not (validate_cursor value)) cursor_invalid _ token encoded in
      let s = seal-IsSealed value key nonce token sealing in
      let same_token = sealed-match nonce s.derived s.plaintext value expected matches in
      let fits = ap (λ t. ltb max_cursor_bytes (utf8_length t)) (sym same_token) ∙ s.fits in
      let opened : open_token crypto cursor token key expected ≡ ok value =
        ap (λ t. open_token crypto cursor t key expected) (sym s.seals ∙ same_token)
        ∙ open_token-sealed key s.plaintext s.derived nonce expected value size s.filled s.derives
            (reads s.plaintext s.said) context fits in
      rw (opened, valid, alive, matches, small)
