-- ===== src/Cursor/Codec.antt =====
-- The sealed tokens of the explorer (apps/sql-worker/src/explorer/cursorCodec.ts): cursors are
-- validated, written as JSON, encrypted with the context as additional data, and joined with dots.
-- Every error but the one of a page that is too large is DATABASE_CURSOR_INVALID.
pub mod Granted
pub mod Parts
pub mod RoundTrip
pub mod Preflight
mod Tests
use nancy_man.Base.{
  ℕ, zero, suc, ◌+◌, ◌*◌, ◌/◌, ◌%◌, Text, codes, Bool, true, false, List, [], ◌∷◌, ◌++◌, Option,
  some, none, ltb, leb, ◌&&◌, ◌||◌, not, ◌==◌, same, is_empty, length, if◌then◌else◌, Result, ok,
  err, ◌>>=◌, ◌>>◌, throw_if,
}
use nancy_man.Cursor.Json.{utf8_length, quote_json}
use nancy_man.Cursor.Budget.{max_cursor_bytes}
use nancy_man.Cursor.Value.{
  Value, whole, get, text_of, validate_context, validate_times, validate_cursor, times_fit,
  above_least, expires_at, has_kind,
}

pub data CodecError : Type 0 where
  cursor_invalid page_too_large : CodecError

pub data TokenKind : Type 0 where
  cursor row_ref : TokenKind

abbrev pub kind_name : TokenKind → Text
kind_name cursor = codes "cursor"
kind_name row_ref = codes "row-ref"

abbrev pub envelope_version : Text
envelope_version = codes "v2"

-- What the code calls: JSON of a value (nothing where it throws or gives none), the key derived for a
-- kind from a master key (nothing where that is refused), AES-256-GCM, and the alphabet of base64url.
pub record Crypto : Type 0 where
  pub stringify : Value → Option Text
  pub parse : Text → Option Value
  pub derive : Text → TokenKind → Option (List ℕ)
  pub encrypt : List ℕ → List ℕ → Text → Text → List ℕ × List ℕ
  pub decrypt : List ℕ → List ℕ → Text → List ℕ → List ℕ → Option Text
  pub base64url : List ℕ → Text
  pub from_base64url : Text → List ℕ

-- `[...].join('.')` and `split('.')`.
abbrev pub join : List Text → Text
join [] = []
join (p ∷ []) = p
join (p ∷ q ∷ ps) = p ++ (b'.' ∷ join (q ∷ ps))

abbrev pub onto_first : ℕ → List Text → List Text
onto_first c [] = (c ∷ []) ∷ []
onto_first c (p ∷ ps) = (c ∷ p) ∷ ps

unfoldable pub split : Text → List Text
split [] = [] ∷ []
split (c ∷ s) = let rest = split s in if c == b'.' then [] ∷ rest else onto_first c rest

abbrev pub or_invalid : {A : Type 0} → Option A → Result CodecError A
or_invalid none = err cursor_invalid
or_invalid (some a) = ok a

abbrev pub comma_list : List Text → Text
comma_list [] = []
comma_list (p ∷ []) = quote_json p
comma_list (p ∷ q ∷ ps) = quote_json p ++ (b',' ∷ comma_list (q ∷ ps))

-- `JSON.stringify` of the array of the six texts.
abbrev pub context_aad : TokenKind → Value → Text
context_aad kind context =
    b'['
    ∷ (comma_list (
          envelope_version
          ∷ kind_name kind
          ∷ text_of (get (codes "targetId") context)
          ∷ text_of (get (codes "schema") context)
          ∷ text_of (get (codes "relation") context)
          ∷ text_of (get (codes "checksum") context)
          ∷ [])
        ++ (b']' ∷ []))

abbrev pub ciphertext_text_bytes : ℕ → ℕ
ciphertext_text_bytes n = n / 3 * 4 + (if n % 3 == 0 then 0 else n % 3 + 1)

-- Of the version, the kind, sixteen and twenty-two zeros, and four dots.
abbrev pub token_overhead_bytes : TokenKind → ℕ
token_overhead_bytes kind = length envelope_version + length (kind_name kind) + 16 + 22 + 4

abbrev pub is_oversize : TokenKind → Text → Bool
is_oversize kind plaintext =
    ltb max_cursor_bytes (token_overhead_bytes kind + ciphertext_text_bytes (utf8_length plaintext))

module _ (crypto : Crypto) where
  abbrev pub sealed : TokenKind → Value → List ℕ → List ℕ → Text → Text
  sealed kind value nonce key plaintext =
      let encrypted = crypto.encrypt key nonce (context_aad kind value) plaintext in
      join (
        envelope_version
        ∷ kind_name kind
        ∷ crypto.base64url nonce
        ∷ crypto.base64url encrypted.0
        ∷ crypto.base64url encrypted.1
        ∷ [])

  abbrev pub fitting : Text → Result CodecError Text
  fitting token = do throw_if (ltb max_cursor_bytes (utf8_length token)) cursor_invalid; ok token

  -- With the nonce that `randomBytes` gives. A refused master key is found after the first test of
  -- the size.
  unfoldable pub seal : TokenKind → Value → Text → List ℕ → Result CodecError Text
  seal kind value key nonce = do
    throw_if (not (validate_context value)) cursor_invalid
    plaintext ← or_invalid (crypto.stringify value)
    throw_if (is_empty plaintext) cursor_invalid
    throw_if (is_oversize kind plaintext) cursor_invalid
    derived ← or_invalid (crypto.derive key kind)
    fitting (sealed kind value nonce derived plaintext)

  -- `bytes.toString('base64url') !== part`, and the test of the length.
  abbrev pub is_altered : Text → Bool
  is_altered part = not (same (crypto.base64url (crypto.from_base64url part)) part)

  abbrev pub has_bad_parts : Text → Text → Text → Bool
  has_bad_parts nonce ciphertext tag =
      not (length (crypto.from_base64url nonce) == 12)
      || length (crypto.from_base64url ciphertext) == 0
      || not (length (crypto.from_base64url tag) == 16)
      || is_altered nonce
      || is_altered ciphertext
      || is_altered tag

  unfoldable pub open_parts : TokenKind → Text → Value → List Text → Result CodecError Value
  open_parts kind key expected (version ∷ name ∷ nonce ∷ ciphertext ∷ tag ∷ []) = do
    throw_if
        (not (same version envelope_version)
          || not (same name (kind_name kind))
          || is_empty nonce
          || is_empty ciphertext
          || is_empty tag)
        cursor_invalid
    throw_if (has_bad_parts nonce ciphertext tag) cursor_invalid
    derived ← or_invalid (crypto.derive key kind)
    plaintext ← or_invalid (
        crypto.decrypt derived (crypto.from_base64url nonce) (context_aad kind expected)
          (crypto.from_base64url ciphertext) (crypto.from_base64url tag))
    or_invalid (crypto.parse plaintext)
  open_parts kind key expected _ = err cursor_invalid

  unfoldable pub open_token : TokenKind → Text → Text → Value → Result CodecError Value
  open_token kind token key expected = do
    throw_if
        (is_empty token
          || ltb max_cursor_bytes (utf8_length token)
          || not (validate_context expected))
        cursor_invalid
    open_parts kind key expected (split token)

  unfoldable pub encode_cursor : Value → Text → List ℕ → Result CodecError Text
  encode_cursor value key nonce = do
    throw_if (not (validate_cursor value)) cursor_invalid
    seal cursor value key nonce

-- `assertContextMatches`, of two valid contexts.
abbrev pub has_same : Text → Value → Value → Bool
has_same name value expected = same (text_of (get name value)) (text_of (get name expected))

unfoldable pub contexts_match : Value → Value → Bool
contexts_match value expected =
    has_same (codes "targetId") value expected
    && has_same (codes "schema") value expected
    && has_same (codes "relation") value expected
    && has_same (codes "checksum") value expected

abbrev pub expires_after : Option ℕ → ℕ → Bool
expires_after none now = false
expires_after (some expires) now = ltb (above_least now) expires

-- `assertNotExpired`.
unfoldable pub is_alive : Value → ℕ → Bool
is_alive value now = validate_times value && expires_after (expires_at value) now

abbrev pub is_beyond : Value → Bool
is_beyond (whole n) = ltb 10000 n
is_beyond _ = false

unfoldable pub is_too_large : Value → Bool
is_too_large value = has_kind (codes "offset") value && is_beyond (get (codes "offset") value)

-- What follows `open`.
unfoldable pub accept : Value → Value → ℕ → Result CodecError Value
accept value expected now = do
  throw_if (not (validate_cursor value)) cursor_invalid
  throw_if (not (is_alive value now)) cursor_invalid
  throw_if (not (contexts_match value expected)) cursor_invalid
  throw_if (is_too_large value) page_too_large
  ok value

unfoldable pub decode_cursor : Crypto → Text → Text → Value → ℕ → Result CodecError Value
decode_cursor crypto token key expected now =
    open_token crypto cursor token key expected >>= λ value. accept value expected now
