-- ===== src/Cursor/Json/Length.antt =====
-- `jsonStringByteLength` (apps/sql-worker/src/explorer/cursorCodec.ts) against the string that
-- `JSON.stringify` writes.
use nancy_man.Base.{
  none, Option-cases, ℕ, ◌+◌, ◌/◌, ◌%◌, ◌≤◌, ◌<◌, Text, true, false, [], ◌∷◌, Option, some, ◌≡◌,
  refl, sym, ap, ◌∙◌, ltb, leb, arith, Bool-cases, inl, inr, if◌then◌else◌,
}
use nancy_man.Cursor.Json.{
  escape_letter, is_lead, is_trail, is_surrogate_pair, is_high, is_low, has_short_escape, within,
  lone_bytes, hex_digit, unicode_escape, unit_bytes, is_pair, count_units, json_string_byte_length,
  escape_unit, escape, quote_json, utf8_length, bounded,
}

-- The count of the loop with no bound.
unfoldable pub spent : Text → ℕ
spent [] = 0
spent (c ∷ []) = unit_bytes c false
spent (c ∷ d ∷ s) =
    let pair = unit_bytes c true + spent s in
    let one = unit_bytes c false + spent (d ∷ s) in if is_surrogate_pair c d then pair else one

pub within-same :
    (bytes total maximum_bytes : ℕ) (rest : Option ℕ) (more : ℕ)
    → total ≡ bytes + more
    → (bytes ≤ maximum_bytes → rest ≡ bounded total maximum_bytes)
    → within bytes maximum_bytes rest ≡ bounded total maximum_bytes
within-same bytes total maximum_bytes rest more e h = elim (Bool-cases (ltb maximum_bytes bytes)) [
  | inl over ↦ ground arith
  | inr fits ↦ rw fits (h (ground arith))
]

is_high-eq : (c : ℕ) → is_high c ≡ is_lead c
is_high-eq c = ground arith

is_low-eq : (c : ℕ) → is_low c ≡ is_trail c
is_low-eq c = ground arith

-- The test of the loop for a pair is the one of the standard.
is_pair-eq : (c d : ℕ) → is_pair c d ≡ is_surrogate_pair c d
unfolding is_pair is_surrogate_pair
is_pair-eq c d = rw (is_high-eq c, is_low-eq d)

count_units-spent :
    (value : Text) (bytes maximum_bytes : ℕ)
    → bytes ≤ maximum_bytes
    → count_units value bytes maximum_bytes ≡ bounded (bytes + spent value) maximum_bytes
unfolding count_units spent
count_units-spent [] bytes maximum_bytes h = ground arith
count_units-spent (c ∷ []) bytes maximum_bytes h =
    within-same (bytes + unit_bytes c false) (bytes + unit_bytes c false) maximum_bytes
      (some (bytes + unit_bytes c false)) 0 (omega arith) (λ fits. ground (arith, fits))
count_units-spent (c ∷ d ∷ s) bytes maximum_bytes h = elim (Bool-cases (is_surrogate_pair c d)) [
  | inl pair ↦
      rw (pair, is_pair-eq c d ∙ pair)
        (within-same (bytes + unit_bytes c true) (bytes + (unit_bytes c true + spent s))
          maximum_bytes (count_units s (bytes + unit_bytes c true) maximum_bytes) (spent s)
          (omega arith)
          (λ fits.
            count_units-spent s (bytes + unit_bytes c true) maximum_bytes fits
            ∙ ap (λ n. bounded n maximum_bytes) (omega arith)))
  | inr one ↦
      rw (one, is_pair-eq c d ∙ one)
        (within-same (bytes + unit_bytes c false) (bytes + (unit_bytes c false + spent (d ∷ s)))
          maximum_bytes (count_units (d ∷ s) (bytes + unit_bytes c false) maximum_bytes)
          (spent (d ∷ s)) (omega arith)
          (λ fits.
            count_units-spent (d ∷ s) (bytes + unit_bytes c false) maximum_bytes fits
            ∙ ap (λ n. bounded n maximum_bytes) (omega arith)))
]

pub utf8_length-cons :
    (c : ℕ) (s : Text) → is_lead c ≡ false → utf8_length (c ∷ s) ≡ lone_bytes c + utf8_length s
unfolding utf8_length is_surrogate_pair
utf8_length-cons c [] h = omega arith
utf8_length-cons c (d ∷ s) h = rw h

pub ascii : (c : ℕ) (s : Text) → c < 0x80 → utf8_length (c ∷ s) ≡ 1 + utf8_length s
ascii c s h = utf8_length-cons c s (ground arith) ∙ (ground arith)

hex_digit-lt : (n : ℕ) → hex_digit (n % 16) < 0x80
hex_digit-lt n = ground arith

utf8_length-unicode_escape :
    (c : ℕ) (rest : Text) → utf8_length (unicode_escape c rest) ≡ 6 + utf8_length rest
utf8_length-unicode_escape c rest = omega (
  arith,
  ascii 0x5c
      (b'u'
        ∷ hex_digit (c / 4096 % 16)
        ∷ hex_digit (c / 256 % 16)
        ∷ hex_digit (c / 16 % 16)
        ∷ hex_digit (c % 16)
        ∷ rest)
      (omega arith),
  ascii b'u'
      (hex_digit (c / 4096 % 16)
        ∷ hex_digit (c / 256 % 16)
        ∷ hex_digit (c / 16 % 16)
        ∷ hex_digit (c % 16)
        ∷ rest)
      (omega arith),
  ascii (hex_digit (c / 4096 % 16))
      (hex_digit (c / 256 % 16) ∷ hex_digit (c / 16 % 16) ∷ hex_digit (c % 16) ∷ rest)
      (hex_digit-lt (c / 4096)),
  ascii (hex_digit (c / 256 % 16)) (hex_digit (c / 16 % 16) ∷ hex_digit (c % 16) ∷ rest)
      (hex_digit-lt (c / 256)),
  ascii (hex_digit (c / 16 % 16)) (hex_digit (c % 16) ∷ rest) (hex_digit-lt (c / 16)),
  ascii (hex_digit (c % 16)) rest (hex_digit-lt c),
)

-- The units with a letter, against the test of the loop.
escape_letter-some :
    (c letter : ℕ) → escape_letter c ≡ some letter → (has_short_escape c ≡ true) × (letter < 0x80)
escape_letter-some c letter h = (ground (arith, h), ground (arith, h))

escape_letter-none : (c : ℕ) → escape_letter c ≡ none → has_short_escape c ≡ false
escape_letter-none c h = ground (arith, h)

utf8_length-escape_unit :
    (c : ℕ) (rest : Text) → utf8_length (escape_unit c rest) ≡ unit_bytes c false + utf8_length rest
unfolding escape_unit unit_bytes
utf8_length-escape_unit c rest = elim (Option-cases (escape_letter c)) [
  | inr (letter, written) ↦
      let (short, small) = escape_letter-some c letter written in
      rw (written, short)
        (omega (arith, ascii 0x5c (letter ∷ rest) (omega arith), ascii letter rest small))
  | inl unwritten ↦
      let long = escape_letter-none c unwritten in
      elim (Bool-cases (ltb c 0x20)) [
        | inl control ↦
            let low : leb c 0x1f ≡ true = ground (arith, control) in
            rw (unwritten, long, control, low) (utf8_length-unicode_escape c rest)
        | inr printed ↦
            let above : leb c 0x1f ≡ false = ground (arith, printed) in
            elim (Bool-cases (is_lead c)) [
              | inl high ↦
                  rw (unwritten, long, printed, above, high, is_high-eq c ∙ high)
                    (utf8_length-unicode_escape c rest)
              | inr other ↦ elim (Bool-cases (is_trail c)) [
                | inl low ↦
                    rw
                      (
                        unwritten,
                        long,
                        printed,
                        above,
                        other,
                        low,
                        is_high-eq c ∙ other,
                        is_low-eq c ∙ low,
                      )
                      (utf8_length-unicode_escape c rest)
                | inr plain ↦
                    rw
                      (
                        unwritten,
                        long,
                        printed,
                        above,
                        other,
                        plain,
                        is_high-eq c ∙ other,
                        is_low-eq c ∙ plain,
                      )
                      (utf8_length-cons c rest other ∙ (ground arith))
              ]
            ]
      ]
]

lead_bytes : (c : ℕ) → is_high c ≡ true → unit_bytes c true ≡ 4
unfolding unit_bytes
lead_bytes c h = ground (arith, h)

lead_of_pair : (c d : ℕ) → is_surrogate_pair c d ≡ true → is_lead c ≡ true
unfolding is_surrogate_pair
lead_of_pair c d h = ground (arith, h)

utf8_length-pair :
    (c d : ℕ) (rest : Text)
    → is_surrogate_pair c d ≡ true
    → utf8_length (c ∷ d ∷ rest) ≡ unit_bytes c true + utf8_length rest
unfolding utf8_length
utf8_length-pair c d rest h =
    let four = lead_bytes c (is_high-eq c ∙ lead_of_pair c d h) in rw (h, four)

pub utf8_length-escape :
    (value rest : Text) → utf8_length (escape value rest) ≡ spent value + utf8_length rest
unfolding escape spent
utf8_length-escape [] rest = omega arith
utf8_length-escape (c ∷ []) rest = utf8_length-escape_unit c rest
utf8_length-escape (c ∷ d ∷ s) rest = elim (Bool-cases (is_surrogate_pair c d)) [
  | inl pair ↦
      rw pair (omega (arith, utf8_length-pair c d (escape s rest) pair, utf8_length-escape s rest))
  | inr one ↦ rw one (
      omega
        (arith, utf8_length-escape_unit c (escape (d ∷ s) rest), utf8_length-escape (d ∷ s) rest))
]

-- The count is the length in UTF-8 of the string that `JSON.stringify` writes, lone surrogates and
-- control characters included, where that is within the bound, and nothing where it is not.
pub json_string_byte_length_lem :
    (value : Text) (maximum_bytes : ℕ)
    → json_string_byte_length value maximum_bytes
      ≡ bounded (utf8_length (quote_json value)) maximum_bytes
unfolding json_string_byte_length quote_json
json_string_byte_length_lem value maximum_bytes =
    let total : utf8_length (quote_json value) ≡ 2 + spent value =
      unfold quote_json in
      omega (
        arith,
        ascii b'"' (escape value (b'"' ∷ [])) (omega arith),
        utf8_length-escape value (b'"' ∷ []),
        ascii b'"' [] (omega arith),
        nothing_left,
      ) in
    within-same 2 (2 + spent value) maximum_bytes (count_units value 2 maximum_bytes) (spent value)
      refl (λ fits. count_units-spent value 2 maximum_bytes fits)
    ∙ ap (λ n. bounded n maximum_bytes) (sym total)
  where
    nothing_left : utf8_length [] ≡ 0
    nothing_left = unfold utf8_length in refl
