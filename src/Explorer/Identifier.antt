-- ===== src/Explorer/Identifier.antt =====
-- `quoteIdentifier` (apps/sql-worker/src/explorer/identifier.ts), the numbers that are written into
-- SQL text, and `join`.
use nancy_man.Base.{
  All, All-append, ◌≤◌, ℕ, zero, suc, ◌+◌, ◌-◌, ◌*◌, ◌<◌, ◌/◌, ◌%◌, Text, List, [], ◌∷◌, ◌++◌,
  Option, some, none, ◌≡◌, ◌≢◌, refl, ltb, ◌==◌, if◌then◌else◌, arith, append_assoc, Bool-cases,
  inl, inr,
}

-- `value.replaceAll('"', '""')`.
unfoldable pub double_quotes : Text → Text
double_quotes [] = []
double_quotes (c ∷ s) = let rest = double_quotes s in if c == b'"' then c ∷ c ∷ rest else c ∷ rest

unfoldable pub quote_identifier : Text → Text
quote_identifier value = (b'"' ∷ double_quotes value) ++ b'"' ∷ []

abbrev with_head : ℕ → Option (Text × Text) → Option (Text × Text)
with_head c none = none
with_head c (some (name, rest)) = some (c ∷ name, rest)

-- How PostgreSQL reads a quoted identifier, from behind its opening quote: a doubled quote stands
-- for one, and a single one ends the identifier. The rest of the text is returned.
unfoldable pub read_quoted : Text → Option (Text × Text)
read_quoted [] = none
read_quoted (c ∷ []) = if c == b'"' then some ([], []) else none
read_quoted (c ∷ d ∷ s) =
    let doubled = read_quoted s in
    let plain = read_quoted (d ∷ s) in
    if c == b'"'
    then (if d == b'"' then with_head c doubled else some ([], d ∷ s))
    else with_head c plain

unfoldable pub read_identifier : Text → Option (Text × Text)
unfolding read_quoted
read_identifier [] = none
read_identifier (c ∷ s) = if c == b'"' then read_quoted s else none

-- The text goes on with something other than a quote.
abbrev pub NoQuote : Text → Type 0
NoQuote [] = Unit
NoQuote (c ∷ s) = c ≢ b'"'

read_quoted-plain :
    (c : ℕ) (t : Text) → c ≢ b'"' → read_quoted (c ∷ t) ≡ with_head c (read_quoted t)
unfolding read_quoted
read_quoted-plain c [] h = ground arith
read_quoted-plain c (d ∷ s) h = ground arith

read_quoted-end : (rest : Text) → NoQuote rest → read_quoted (b'"' ∷ rest) ≡ some ([], rest)
unfolding read_quoted
read_quoted-end [] h = refl
read_quoted-end (d ∷ s) h = ground arith

read_quoted-doubled : (t : Text) → read_quoted (b'"' ∷ b'"' ∷ t) ≡ with_head b'"' (read_quoted t)
unfolding read_quoted
read_quoted-doubled t = refl

read_quoted-double_quotes :
    (value rest : Text)
    → NoQuote rest
    → read_quoted (double_quotes value ++ b'"' ∷ rest) ≡ some (value, rest)
unfolding double_quotes
read_quoted-double_quotes [] rest h = read_quoted-end rest h
read_quoted-double_quotes (c ∷ s) rest h = elim (Bool-cases (c == b'"')) [
  | inl quote ↦ ground (
    arith,
    read_quoted-doubled (double_quotes s ++ b'"' ∷ rest),
    read_quoted-double_quotes s rest h,
  )
  | inr other ↦ ground (
    arith,
    read_quoted-plain c (double_quotes s ++ b'"' ∷ rest),
    read_quoted-double_quotes s rest h,
  )
]

-- Whatever characters an identifier holds, PostgreSQL reads the quoted text back as exactly that
-- identifier and goes on with the text behind it: no name can end its quotes early.
pub read_identifier-quote_identifier :
    (value rest : Text)
    → NoQuote rest
    → read_identifier (quote_identifier value ++ rest) ≡ some (value, rest)
unfolding read_identifier quote_identifier
read_identifier-quote_identifier value rest h =
    rw (append_assoc (double_quotes value) (b'"' ∷ []) rest)
      (read_quoted-double_quotes value rest h)

-- `${n}`: the decimal digits of a number, the last digit by `% 10`. One round of fuel to a digit.
unfoldable pub digits_from : ℕ → ℕ → Text
digits_from zero n = []
digits_from (suc fuel) n =
    let rest = digits_from fuel (n / 10) in
    if ltb n 10 then (b'0' + n) ∷ [] else rest ++ (b'0' + n % 10) ∷ []

unfoldable pub decimal : ℕ → Text
unfolding digits_from
decimal n = digits_from (suc n) n

-- The number that a text of digits stands for.
unfoldable pub read_decimal : ℕ → Text → ℕ
read_decimal acc [] = acc
read_decimal acc (c ∷ s) = read_decimal (acc * 10 + (c - b'0')) s

read_decimal-append :
    (acc c : ℕ) (s : Text) → read_decimal acc (s ++ c ∷ []) ≡ read_decimal acc s * 10 + (c - b'0')
unfolding read_decimal
read_decimal-append acc c [] = refl
read_decimal-append acc c (d ∷ s) = read_decimal-append (acc * 10 + (d - b'0')) c s

read_decimal-digits_from : (fuel n : ℕ) → n < fuel → read_decimal 0 (digits_from fuel n) ≡ n
unfolding digits_from read_decimal
read_decimal-digits_from zero n h = absurd (omega arith)
read_decimal-digits_from (suc fuel) n h = elim (Bool-cases (ltb n 10)) [
  | inl small ↦ ground arith
  | inr large ↦ ground (
    arith,
    read_decimal-append 0 (b'0' + n % 10) (digits_from fuel (n / 10)),
    read_decimal-digits_from fuel (n / 10),
  )
]

-- The digits written for a number are read back as that number, so different parameters have
-- different placeholders.
pub read_decimal-decimal : (n : ℕ) → read_decimal 0 (decimal n) ≡ n
unfolding decimal
read_decimal-decimal n = read_decimal-digits_from (suc n) n (omega arith)

-- `items.join(separator)`.
unfoldable pub join : Text → List Text → Text
join separator [] = []
join separator (t ∷ []) = t
join separator (t ∷ u ∷ us) = t ++ (separator ++ join separator (u ∷ us))

abbrev pub IsDigit : ℕ → Type 0
IsDigit c = (b'0' ≤ c) × (c ≤ b'9')

digits_from-IsDigit : (fuel n : ℕ) → All IsDigit (digits_from fuel n)
unfolding digits_from
digits_from-IsDigit zero n = tt
digits_from-IsDigit (suc fuel) n = elim (Bool-cases (ltb n 10)) [
  | inl small ↦ rw small ((omega arith, ground arith), tt)
  | inr large ↦ rw large (
      All-append IsDigit (digits_from fuel (n / 10)) ((b'0' + n % 10) ∷ [])
        (digits_from-IsDigit fuel (n / 10)) ((omega arith, omega arith), tt))
]

-- The digits are ASCII digits.
pub decimal-IsDigit : (n : ℕ) → All IsDigit (decimal n)
unfolding decimal
decimal-IsDigit n = digits_from-IsDigit (suc n) n
