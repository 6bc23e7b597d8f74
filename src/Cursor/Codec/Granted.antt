-- ===== src/Cursor/Codec/Granted.antt =====
-- What `decodeCursor` promises of a cursor that it returns
-- (apps/sql-worker/src/explorer/cursorCodec.ts).
use nancy_man.Base.{
  ℕ, ◌+◌, ◌≤◌, ◌<◌, Text, codes, Bool, true, false, Option, some, none, ◌≡◌, refl, subst, not, ◌&&◌,
  arith, ok, >>=-eq-ok, throw_if-passes, ok-injective, eq_of_same,
}
use nancy_man.Cursor.Value.{
  Value, whole, get, text_of, validate_cursor, validate_times, times_fit, above_least, issued_at,
  expires_at, cursor_expiry_ms, has_kind,
}
use nancy_man.Cursor.Codec.{
  Crypto, cursor, cursor_invalid, page_too_large, open_token, contexts_match, has_same, is_alive,
  expires_after, is_too_large, is_beyond, decode_cursor, accept,
}

-- A cursor that is valid at a time, for a context.
pub record IsGranted (value expected : Value) (now : ℕ) : Type 0 where
  pub valid : validate_cursor value ≡ true
  pub target : text_of (get (codes "targetId") value) ≡ text_of (get (codes "targetId") expected)
  pub schema : text_of (get (codes "schema") value) ≡ text_of (get (codes "schema") expected)
  pub relation : text_of (get (codes "relation") value) ≡ text_of (get (codes "relation") expected)
  pub checksum : text_of (get (codes "checksum") value) ≡ text_of (get (codes "checksum") expected)
  pub lifetime :
      (issued : ℕ) × (expires : ℕ) × (issued_at value ≡ some issued)
      × (expires_at value ≡ some expires)
      × (above_least now < expires)
      × (expires ≤ issued + cursor_expiry_ms)
  pub page :
      (offset : ℕ)
      → has_kind (codes "offset") value ≡ true
      → get (codes "offset") value ≡ whole offset
      → offset ≤ 10000

lifetime_of :
    (issued expires : Option ℕ) (now : ℕ)
    → (times_fit issued expires && expires_after expires now) ≡ true
    → (i : ℕ) × (e : ℕ) × (issued ≡ some i)
      × (expires ≡ some e)
      × (above_least now < e)
      × (e ≤ i + cursor_expiry_ms)
lifetime_of none expires now h = absurd (ground arith)
lifetime_of (some issued) none now h = absurd (ground arith)
lifetime_of (some issued) (some expires) now h =
    (issued, expires, refl, refl, ground arith, ground arith)

page_of :
    (value : Value) (offset : ℕ)
    → is_too_large value ≡ false
    → has_kind (codes "offset") value ≡ true
    → get (codes "offset") value ≡ whole offset
    → offset ≤ 10000
unfolding is_too_large
page_of value offset h kind e =
    let small : is_beyond (whole offset) ≡ false =
      subst (λ v. is_beyond v ≡ false) e (ground (arith, h, kind)) in
    ground (arith, small)

all_four :
    (a b c d : Bool) → (a && b && c && d) ≡ true → (a ≡ true) × (b ≡ true) × (c ≡ true) × (d ≡ true)
all_four a b c d h = (ground arith, ground arith, ground arith, ground arith)

pub contexts_match_texts :
    (value expected : Value)
    → contexts_match value expected ≡ true
    → (has_same (codes "targetId") value expected ≡ true)
      × (has_same (codes "schema") value expected ≡ true)
      × (has_same (codes "relation") value expected ≡ true)
      × (has_same (codes "checksum") value expected ≡ true)
unfolding contexts_match
contexts_match_texts value expected h = all_four _ _ _ _ h

IsGranted-checks :
    (value expected : Value) (now : ℕ)
    → validate_cursor value ≡ true
    → is_alive value now ≡ true
    → contexts_match value expected ≡ true
    → is_too_large value ≡ false
    → IsGranted value expected now
unfolding is_alive validate_times
IsGranted-checks value expected now valid alive matches small =
    let texts = contexts_match_texts value expected matches in
    record {
      valid = valid;
      target = eq_of_same _ _ texts.0;
      schema = eq_of_same _ _ texts.1;
      relation = eq_of_same _ _ texts.2;
      checksum = eq_of_same _ _ texts.3;
      lifetime = lifetime_of (issued_at value) (expires_at value) now alive;
      page = λ offset kind e. page_of value offset small kind e;
    }

holds_where_not : (b : Bool) → not b ≡ false → b ≡ true
holds_where_not b h = ground arith

accept-IsGranted :
    (value value' expected : Value) (now : ℕ)
    → accept value expected now ≡ ok value'
    → IsGranted value' expected now
unfolding accept
accept-IsGranted value value' expected now h =
    let (valid, h1) = throw_if-passes (not (validate_cursor value)) cursor_invalid _ value' h in
    let (alive, h2) = throw_if-passes (not (is_alive value now)) cursor_invalid _ value' h1 in
    let (matches, h3) =
      throw_if-passes (not (contexts_match value expected)) cursor_invalid _ value' h2 in
    let (small, h4) = throw_if-passes (is_too_large value) page_too_large (ok value) value' h3 in
    subst (λ v. IsGranted v expected now) (ok-injective value value' h4)
      (IsGranted-checks value expected now (holds_where_not _ valid) (holds_where_not _ alive)
        (holds_where_not _ matches) small)

-- A cursor that `decodeCursor` returns is valid, of the expected target, schema, relation and
-- checksum, not expired and not issued for more than five minutes, and its offset is 10000 at most.
pub decode_cursor_lem :
    (crypto : Crypto) (token key : Text) (expected value : Value) (now : ℕ)
    → decode_cursor crypto token key expected now ≡ ok value
    → IsGranted value expected now
unfolding decode_cursor
decode_cursor_lem crypto token key expected value now h =
    let (opened, went, rest) =
      >>=-eq-ok (open_token crypto cursor token key expected) (λ v. accept v expected now) h in
    accept-IsGranted opened value expected now rest
