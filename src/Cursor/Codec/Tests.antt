-- ===== src/Cursor/Codec/Tests.antt =====
-- A cursor at page offset 50, with stand-ins for the libraries: a cipher that changes nothing, and an
-- alphabet that leaves the dot out.
use nancy_man.Base.{
  ℕ, ◌+◌, ◌-◌, Text, codes, true, false, List, [], ◌∷◌, ◌++◌, some, ◌≡◌, refl, ok, err, ltb, ◌==◌,
  arith, is_empty, length, if◌then◌else◌, Bool-cases, inl, inr, same,
}
use nancy_man.Cursor.Json.{utf8_length, quote_json, is_pair, is_surrogate_pair}
use nancy_man.Cursor.Value.{
  Value, null, whole, string, object, no_fields, field_then, field, validate_context,
  validate_cursor, validate_times, validate_sort, every_key, is_database_target_id,
}
use nancy_man.Cursor.Codec.{
  Crypto, encode_cursor, decode_cursor, seal, split, open_token, open_parts, accept, contexts_match,
  is_alive, is_too_large, page_too_large, cursor_invalid,
}
use nancy_man.Cursor.Codec.Granted.{IsGranted, decode_cursor_lem}
use nancy_man.Cursor.Codec.Parts.{IsDotless}
use nancy_man.Cursor.Codec.RoundTrip.{CryptoLaws, decode_cursor-encode_cursor}

abbrev page_cursor : ℕ → Value
page_cursor offset = object (
    field_then (codes "targetId") (string (codes "ops")) (
      field_then (codes "schema") (string (codes "s")) (
        field_then (codes "relation") (string (codes "r")) (
          field_then (codes "checksum") (string (codes "c")) (
            field_then (codes "version") (whole 1) (
              field_then (codes "kind") (string (codes "offset")) (
                field_then (codes "issuedAt") (whole 1000) (
                  field_then (codes "expiresAt") (whole 301000) (
                    field_then (codes "offset") (whole offset) (
                      field_then (codes "sort") null
                        (field_then (codes "nullOrder") (string (codes "last")) no_fields)))))))))))

-- An alphabet without the dot.
skip_dot : List ℕ → Text
skip_dot [] = []
skip_dot (n ∷ bytes) = (if ltb n 46 then n else n + 1) ∷ skip_dot bytes

unskip_dot : Text → List ℕ
unskip_dot [] = []
unskip_dot (c ∷ s) = (if ltb c 46 then c else c - 1) ∷ unskip_dot s

unskip_dot-skip_dot : (bytes : List ℕ) → unskip_dot (skip_dot bytes) ≡ bytes
unfolding skip_dot unskip_dot
unskip_dot-skip_dot [] = refl
unskip_dot-skip_dot (n ∷ bytes) = elim (Bool-cases (ltb n 46)) [
  | inl below ↦ rw (below, below, unskip_dot-skip_dot bytes)
  | inr above ↦
      let up : ltb (n + 1) 46 ≡ false = ground arith in
      let back : n + 1 - 1 ≡ n = omega arith in rw (above, up, back, unskip_dot-skip_dot bytes)
]

skip_dot-IsDotless : (bytes : List ℕ) → IsDotless (skip_dot bytes)
unfolding skip_dot
skip_dot-IsDotless [] = tt
skip_dot-IsDotless (n ∷ bytes) = (ground arith, skip_dot-IsDotless bytes)

skip_dot-empty : (bytes : List ℕ) → is_empty (skip_dot bytes) ≡ (length bytes == 0)
unfolding skip_dot
skip_dot-empty [] = refl
skip_dot-empty (n ∷ bytes) = ground arith

abbrev sixteen : List ℕ
sixteen = 0 ∷ 0 ∷ 0 ∷ 0 ∷ 0 ∷ 0 ∷ 0 ∷ 0 ∷ 0 ∷ 0 ∷ 0 ∷ 0 ∷ 0 ∷ 0 ∷ 0 ∷ 0 ∷ []

abbrev twelve : List ℕ
twelve = 1 ∷ 2 ∷ 3 ∷ 4 ∷ 5 ∷ 6 ∷ 7 ∷ 8 ∷ 9 ∷ 10 ∷ 11 ∷ 12 ∷ []

-- It writes every value as `{}`, and reads one value.
abbrev plain : Crypto
plain = record {
  stringify = λ v. some (codes "{}");
  parse = λ s. some (page_cursor 50);
  derive = λ key kind. some [];
  encrypt = λ key nonce aad plaintext. (plaintext, sixteen);
  decrypt = λ key nonce aad ciphertext tag. some ciphertext;
  base64url = skip_dot;
  from_base64url = unskip_dot;
}

fills_plain : (p : Text) → is_empty p ≡ false → (length p == 0) ≡ false
fills_plain [] h = cc
fills_plain (c ∷ p) h = ground arith

plain-CryptoLaws : CryptoLaws plain
plain-CryptoLaws = record {
  opens = λ key nonce aad plaintext. refl;
  tag_length = λ key nonce aad plaintext. refl;
  fills = λ key nonce aad plaintext h. fills_plain plaintext h;
  reads_back = unskip_dot-skip_dot;
  dotless = skip_dot-IsDotless;
  empties = skip_dot-empty;
}

abbrev page_token : Text
page_token = codes "v2.cursor." ++ (twelve ++ (b'.' ∷ 124 ∷ 126 ∷ b'.' ∷ sixteen))

encodes_page : encode_cursor plain (page_cursor 50) [] twelve ≡ ok page_token
unfolding encode_cursor seal skip_dot utf8_length is_pair is_surrogate_pair quote_json
    validate_cursor validate_context validate_times validate_sort every_key is_database_target_id
    field same
encodes_page = refl

page_context : validate_context (page_cursor 50) ≡ true
unfolding validate_context is_database_target_id field same
page_context = refl

page_matches : contexts_match (page_cursor 50) (page_cursor 50) ≡ true
unfolding contexts_match field same
page_matches = refl

page_alive : is_alive (page_cursor 50) 2000 ≡ true
unfolding is_alive validate_times field same
page_alive = refl

page_small : is_too_large (page_cursor 50) ≡ false
unfolding is_too_large field same
page_small = refl

decode_cursor-encode_cursor_example :
    decode_cursor plain page_token [] (page_cursor 50) 2000 ≡ ok (page_cursor 50)
decode_cursor-encode_cursor_example =
    decode_cursor-encode_cursor plain plain-CryptoLaws [] page_token twelve (page_cursor 50)
      (page_cursor 50) 2000 refl (λ plaintext h. refl) page_context page_matches page_alive
      page_small encodes_page

page_decodes : decode_cursor plain page_token [] (page_cursor 50) 2000 ≡ ok (page_cursor 50)
unfolding decode_cursor accept open_token open_parts split skip_dot unskip_dot utf8_length is_pair
    is_surrogate_pair quote_json validate_cursor validate_context validate_times validate_sort
    every_key is_database_target_id contexts_match is_alive is_too_large field same
page_decodes = refl

decode_cursor_lem_example : IsGranted (page_cursor 50) (page_cursor 50) 2000
decode_cursor_lem_example =
    decode_cursor_lem plain page_token [] (page_cursor 50) (page_cursor 50) 2000 page_decodes

late_page : accept (page_cursor 50) (page_cursor 50) 301000 ≡ err cursor_invalid
unfolding accept validate_cursor validate_context validate_times validate_sort every_key
    is_database_target_id contexts_match is_alive is_too_large field same
late_page = refl

far_page : accept (page_cursor 10001) (page_cursor 50) 2000 ≡ err page_too_large
unfolding accept validate_cursor validate_context validate_times validate_sort every_key
    is_database_target_id contexts_match is_alive is_too_large field same
far_page = refl
