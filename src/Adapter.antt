-- ===== src/Adapter.antt =====
-- apps/config-agent/src/adapters/types.ts: how the agent writes a value into a text of assignments
-- (encodedValue) and reads it again (parseValue, with decodeEscapes). What stands between `start` and
-- `end` is a list of code units here. A value that is written is a text; SOURCE_MALFORMED is nothing.
-- The conversions to UTF-8 and back are left out; they change no text without a lone surrogate.
pub mod RoundTrip
mod Tests
use nancy_man.Base.{
  ℕ, Text, Bool, true, false, List, [], ◌∷◌, ◌++◌, Option, some, none, ltb, leb, ◌==◌, ◌&&◌, ◌||◌,
  not, between, all, is_empty, if◌then◌else◌,
}

pub data Quote : Type 0 where
  single double : Quote

abbrev pub backslash : ℕ
backslash = 0x5c

abbrev pub quote_unit : Quote → ℕ
quote_unit single = 0x27
quote_unit double = 0x22

-- `/\s/`.
abbrev pub is_space : ℕ → Bool
is_space c =
    between 9 13 c
    || c == 32
    || c == 0xa0
    || c == 0x1680
    || between 0x2000 0x200a c
    || c == 0x2028
    || c == 0x2029
    || c == 0x202f
    || c == 0x205f
    || c == 0x3000
    || c == 0xfeff

unfoldable pub skip_whitespace : Text → Text
skip_whitespace [] = []
skip_whitespace (c ∷ s) = let rest = skip_whitespace s in if is_space c then rest else c ∷ s

-- `trimEnd`.
abbrev pub keep_unless_blank : ℕ → Text → Text
keep_unless_blank c [] = if is_space c then [] else c ∷ []
keep_unless_blank c (d ∷ s) = c ∷ d ∷ s

unfoldable pub trim_end : Text → Text
trim_end [] = []
trim_end (c ∷ s) = keep_unless_blank c (trim_end s)

abbrev pub unescaped : Option Quote → ℕ → ℕ
unescaped (some double) c =
    if c == b'n' then 10 else if c == b'r' then 13 else if c == b't' then 9 else c
unescaped (some single) c = c
unescaped none c = c

unfoldable pub decode_escapes : Option Quote → Text → Text
decode_escapes quote [] = []
decode_escapes quote (c ∷ []) = c ∷ []
decode_escapes quote (c ∷ d ∷ s) =
    let after_pair = decode_escapes quote s in
    let after_one = decode_escapes quote (d ∷ s) in
    if c == backslash then unescaped quote d ∷ after_pair else c ∷ after_one

abbrev pub onto : Text → Option (Text × Text) → Option (Text × Text)
onto s none = none
onto s (some r) = some (s ++ r.0, r.1)

-- The content up to the closing quote, and what stands behind that.
unfoldable pub scan_quoted : ℕ → Text → Option (Text × Text)
scan_quoted opener [] = none
scan_quoted opener (c ∷ []) =
    if c == backslash then none else if c == opener then some ([], []) else none
scan_quoted opener (c ∷ d ∷ s) =
    let after_pair = scan_quoted opener s in
    let after_one = scan_quoted opener (d ∷ s) in
    if c == backslash
    then onto (c ∷ d ∷ []) after_pair
    else if c == opener
    then some ([], d ∷ s)
    else onto (c ∷ []) after_one

abbrev pub is_ended : Text → Bool
is_ended [] = true
is_ended (c ∷ s) = c == b'#'

abbrev pub quoted_value : Quote → Option (Text × Text) → Option Text
quoted_value quote none = none
quoted_value quote (some r) =
    if is_ended (skip_whitespace r.1) then some (decode_escapes (some quote) r.0) else none

abbrev pub onto_text : Text → Option Text → Option Text
onto_text s none = none
onto_text s (some r) = some (s ++ r)

-- The loop over a value without quotes; `spaced` tells whether a comment may begin here.
unfoldable pub scan_plain : Bool → Text → Option Text
scan_plain spaced [] = some []
scan_plain spaced (c ∷ []) =
    if c == backslash then none else if (c == b'#') && spaced then some [] else some (c ∷ [])
scan_plain spaced (c ∷ d ∷ s) =
    let after_pair = scan_plain (is_space d) s in
    let after_one = scan_plain (is_space c) (d ∷ s) in
    if c == backslash
    then onto_text (c ∷ d ∷ []) after_pair
    else if (c == b'#') && spaced
    then some []
    else onto_text (c ∷ []) after_one

abbrev pub plain_value : Option Text → Option Text
plain_value none = none
plain_value (some s) = some (trim_end (decode_escapes none s))

-- What follows the whitespace.
abbrev pub value_at : Text → Option Text
value_at [] = some []
value_at (c ∷ s) =
    if c == b'#'
    then some []
    else if c == 0x27
    then quoted_value single (scan_quoted 0x27 s)
    else if c == 0x22
    then quoted_value double (scan_quoted 0x22 s)
    else plain_value (scan_plain true (c ∷ s))

unfoldable pub parse_value : Text → Option Text
parse_value text = value_at (skip_whitespace text)

-- `replaceAll(c, '\\' + c)`.
unfoldable pub put_backslash : ℕ → Text → Text
put_backslash q [] = []
put_backslash q (c ∷ s) =
    let rest = put_backslash q s in if c == q then backslash ∷ c ∷ rest else c ∷ rest

abbrev pub in_quotes : ℕ → Text → Text
in_quotes q value = q ∷ (put_backslash q (put_backslash backslash value) ++ q ∷ [])

-- `/[^\s#\\'"=]/`.
abbrev pub is_plain : ℕ → Bool
is_plain c = not (is_space c || c == b'#' || c == backslash || c == 0x27 || c == 0x22 || c == b'=')

-- By the quote that the text of the value token begins with, if any.
abbrev pub quote_of : Text → Option Quote
quote_of [] = none
quote_of (c ∷ s) = if c == 0x27 then some single else if c == 0x22 then some double else none

abbrev pub encoded_with : Option Quote → Text → Text
encoded_with (some quote) value = in_quotes (quote_unit quote) value
encoded_with none value =
    if is_empty value then [] else if all is_plain value then value else in_quotes 0x22 value

unfoldable pub encoded_value : Text → Text → Text
encoded_value original value = encoded_with (quote_of original) value
