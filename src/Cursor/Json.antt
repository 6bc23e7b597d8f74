-- ===== src/Cursor/Json.antt =====
-- `jsonStringByteLength`: how many bytes a text takes as a JSON string in UTF-8, counted without
-- building the string, or nothing once the count is above a bound.
pub mod Length
use nancy_man.Base.{
  ℕ, suc, ◌+◌, ◌*◌, ◌/◌, ◌%◌, ◌≤◌, ◌<◌, Text, Bool, true, false, List, [], ◌∷◌, ◌++◌, Option, some,
  none, ◌≡◌, refl, sym, ap, ◌∙◌, ltb, leb, ◌==◌, ◌&&◌, ◌||◌, between, arith, Bool-cases, inl, inr,
  if◌then◌else◌, length,
}

abbrev pub is_high : ℕ → Bool
is_high c = leb 0xd800 c && leb c 0xdbff

abbrev pub is_low : ℕ → Bool
is_low c = leb 0xdc00 c && leb c 0xdfff

-- The units that are escaped by one letter.
abbrev pub has_short_escape : ℕ → Bool
has_short_escape c =
    c == 0x22
    || (c == 0x5c || (c == 0x08 || (c == 0x09 || (c == 0x0a || (c == 0x0c || c == 0x0d)))))

-- The bytes of a unit before which no unit is left over, from the unit behind it.
unfoldable pub unit_bytes : ℕ → Bool → ℕ
unit_bytes code low_follows =
    if has_short_escape code
    then 2
    else if leb code 0x1f
    then 6
    else if is_high code
    then (if low_follows then 4 else 6)
    else if is_low code
    then 6
    else if leb code 0x7f
    then 1
    else if leb code 0x7ff
    then 2
    else 3

-- Whether the unit behind is counted with this one.
unfoldable pub is_pair : ℕ → ℕ → Bool
is_pair code next = is_high code && is_low next

abbrev pub within : ℕ → ℕ → Option ℕ → Option ℕ
within bytes maximum_bytes rest = if ltb maximum_bytes bytes then none else rest

-- The loop, from the bytes counted so far.
unfoldable pub count_units : Text → ℕ → ℕ → Option ℕ
unfolding unit_bytes is_pair
count_units [] bytes maximum_bytes = some bytes
count_units (code ∷ []) bytes maximum_bytes =
    within (bytes + unit_bytes code false) maximum_bytes (some (bytes + unit_bytes code false))
count_units (code ∷ next ∷ value) bytes maximum_bytes =
    let pair = count_units value (bytes + unit_bytes code true) maximum_bytes in
    let one = count_units (next ∷ value) (bytes + unit_bytes code false) maximum_bytes in
    if is_pair code next
    then within (bytes + unit_bytes code true) maximum_bytes pair
    else within (bytes + unit_bytes code false) maximum_bytes one

unfoldable pub json_string_byte_length : Text → ℕ → Option ℕ
unfolding count_units
json_string_byte_length value maximum_bytes =
    within 2 maximum_bytes (count_units value 2 maximum_bytes)

-- The same by the two standards, with tests of their own: the string that `JSON.stringify` writes, and
-- its bytes in UTF-8.
abbrev pub hex_digit : ℕ → ℕ
hex_digit n = if ltb n 10 then b'0' + n else 87 + n

-- `\uXXXX`.
abbrev pub unicode_escape : ℕ → Text → Text
unicode_escape c rest =
    0x5c
    ∷ b'u'
    ∷ hex_digit (c / 4096 % 16)
    ∷ hex_digit (c / 256 % 16)
    ∷ hex_digit (c / 16 % 16)
    ∷ hex_digit (c % 16)
    ∷ rest

-- The letter behind the backslash of a unit that has one.
abbrev pub escape_letter : ℕ → Option ℕ
escape_letter c =
    if c == b'"'
    then some b'"'
    else if c == 0x5c
    then some 0x5c
    else if c == 0x08
    then some b'b'
    else if c == 0x09
    then some b't'
    else if c == 0x0a
    then some b'n'
    else if c == 0x0c
    then some b'f'
    else if c == 0x0d
    then some b'r'
    else none

-- The leading surrogates are the block of 0x400 units from 54 * 0x400 = 0xd800 on, and the trailing
-- ones the next block.
abbrev pub is_lead : ℕ → Bool
is_lead c = c / 0x400 == 54

abbrev pub is_trail : ℕ → Bool
is_trail c = c / 0x400 == 55

unfoldable pub is_surrogate_pair : ℕ → ℕ → Bool
is_surrogate_pair c d = is_lead c && is_trail d

abbrev pub escape_by : ℕ → Text → Option ℕ → Text
escape_by c rest (some letter) = 0x5c ∷ letter ∷ rest
escape_by c rest none =
    if ltb c 0x20 || (is_lead c || is_trail c) then unicode_escape c rest else c ∷ rest

unfoldable pub escape_unit : ℕ → Text → Text
escape_unit c rest = escape_by c rest (escape_letter c)

-- The escaped units, and behind them the given rest.
unfoldable pub escape : Text → Text → Text
escape [] rest = rest
escape (c ∷ []) rest = escape_unit c rest
escape (c ∷ d ∷ s) rest =
    let pair = escape s rest in
    let one = escape (d ∷ s) rest in
    if is_surrogate_pair c d then c ∷ d ∷ pair else escape_unit c one

unfoldable pub quote_json : Text → Text
quote_json value = b'"' ∷ escape value (b'"' ∷ [])

-- A unit that is not part of a pair takes one byte to three.
abbrev pub lone_bytes : ℕ → ℕ
lone_bytes c = if ltb c 0x80 then 1 else if ltb c 0x800 then 2 else 3

unfoldable pub utf8_length : Text → ℕ
utf8_length [] = 0
utf8_length (c ∷ []) = lone_bytes c
utf8_length (c ∷ d ∷ s) =
    let pair = utf8_length s in
    let one = utf8_length (d ∷ s) in if is_surrogate_pair c d then 4 + pair else lone_bytes c + one

-- The count, where it is within the bound.
abbrev pub bounded : ℕ → ℕ → Option ℕ
bounded bytes maximum_bytes = if leb bytes maximum_bytes then some bytes else none
