-- ===== src/Adapter/RoundTrip.antt =====
-- A value that `encodedValue` writes is the value that `parseValue` reads
-- (apps/config-agent/src/adapters/types.ts).
use nancy_man.Base.{
  ℕ, Text, Bool, true, false, [], ◌∷◌, ◌++◌, Option, some, none, ◌≡◌, refl, ap, ◌∙◌, ◌==◌, ==_refl,
  ◌||◌, all, arith, Bool-cases, inl, inr, if◌then◌else◌,
}
use nancy_man.Adapter.{
  Quote, single, double, backslash, quote_unit, is_space, skip_whitespace, keep_unless_blank,
  trim_end, unescaped, decode_escapes, onto, scan_quoted, quoted_value, onto_text, scan_plain,
  plain_value, value_at, parse_value, put_backslash, in_quotes, is_plain, quote_of, encoded_with,
  encoded_value,
}

-- Both replacements in one pass.
escaped : ℕ → Text → Text
escaped q [] = []
escaped q (c ∷ s) =
    let rest = escaped q s in if c == backslash || c == q then backslash ∷ c ∷ rest else c ∷ rest

put_backslash-escaped :
    (q : ℕ) (s : Text)
    → (backslash == q) ≡ false
    → put_backslash q (put_backslash backslash s) ≡ escaped q s
unfolding put_backslash escaped
put_backslash-escaped q [] h = refl
put_backslash-escaped q (c ∷ s) h = elim (Bool-cases (c == backslash)) [
  | inl slash ↦
      let other : (c == q) ≡ false = ground (arith, h, slash) in
      rw (slash, h, other, put_backslash-escaped q s h)
  | inr other ↦ elim (Bool-cases (c == q)) [
    | inl quote ↦ rw (other, quote, put_backslash-escaped q s h)
    | inr plain ↦ rw (other, plain, put_backslash-escaped q s h)
  ]
]

scan_quoted-cons :
    (q c : ℕ) (s : Text)
    → (c == backslash) ≡ false
    → (c == q) ≡ false
    → scan_quoted q (c ∷ s) ≡ onto (c ∷ []) (scan_quoted q s)
unfolding scan_quoted
scan_quoted-cons q c [] slash quote = rw (slash, quote)
scan_quoted-cons q c (d ∷ s) slash quote = rw (slash, quote)

scan_quoted-close :
    (q : ℕ) (rest : Text) → (q == backslash) ≡ false → scan_quoted q (q ∷ rest) ≡ some ([], rest)
unfolding scan_quoted
scan_quoted-close q [] h = rw (h, ==_refl q)
scan_quoted-close q (c ∷ rest) h = rw (h, ==_refl q)

scan_quoted-pair :
    (q c : ℕ) (s : Text)
    → scan_quoted q (backslash ∷ c ∷ s) ≡ onto (backslash ∷ c ∷ []) (scan_quoted q s)
unfolding scan_quoted
scan_quoted-pair q c s = refl

-- An escaped text is scanned up to the quote that closes it.
scan_quoted-escaped :
    (q : ℕ) (s rest : Text)
    → (q == backslash) ≡ false
    → scan_quoted q (escaped q s ++ (q ∷ rest)) ≡ some (escaped q s, rest)
unfolding escaped
scan_quoted-escaped q [] rest h = scan_quoted-close q rest h
scan_quoted-escaped q (c ∷ s) rest h = elim (Bool-cases (c == backslash || c == q)) [
  | inl special ↦ rw special (
      scan_quoted-pair q c (escaped q s ++ (q ∷ rest))
      ∙ ap (onto (backslash ∷ c ∷ [])) (scan_quoted-escaped q s rest h))
  | inr plain ↦
      let slash : (c == backslash) ≡ false = ground (arith, plain) in
      let quote : (c == q) ≡ false = ground (arith, plain) in
      rw plain (
        scan_quoted-cons q c (escaped q s ++ (q ∷ rest)) slash quote
        ∙ ap (onto (c ∷ [])) (scan_quoted-escaped q s rest h))
]

decode_escapes-cons :
    (quote : Option Quote) (c : ℕ) (s : Text)
    → (c == backslash) ≡ false
    → decode_escapes quote (c ∷ s) ≡ c ∷ decode_escapes quote s
unfolding decode_escapes
decode_escapes-cons quote c [] h = refl
decode_escapes-cons quote c (d ∷ s) h = rw h

decode_escapes-nil : (quote : Option Quote) → decode_escapes quote [] ≡ []
unfolding decode_escapes
decode_escapes-nil quote = refl

decode_escapes-pair :
    (quote : Option Quote) (c : ℕ) (s : Text)
    → decode_escapes quote (backslash ∷ c ∷ s) ≡ unescaped quote c ∷ decode_escapes quote s
unfolding decode_escapes
decode_escapes-pair quote c s = refl

unescaped-special :
    (quote : Quote) (c : ℕ)
    → (c == backslash || c == quote_unit quote) ≡ true
    → unescaped (some quote) c ≡ c
unescaped-special single c h = refl
unescaped-special double c h = ground (arith, h)

-- An escaped text is decoded to the text.
decode_escapes-escaped :
    (quote : Quote) (s : Text) → decode_escapes (some quote) (escaped (quote_unit quote) s) ≡ s
unfolding escaped
decode_escapes-escaped quote [] = decode_escapes-nil (some quote)
decode_escapes-escaped quote (c ∷ s) = elim (Bool-cases (c == backslash || c == quote_unit quote)) [
  | inl special ↦ rw special (
      decode_escapes-pair (some quote) c (escaped (quote_unit quote) s)
      ∙ ap (λ d. d ∷ decode_escapes (some quote) (escaped (quote_unit quote) s))
          (unescaped-special quote c special)
      ∙ ap (λ t. c ∷ t) (decode_escapes-escaped quote s))
  | inr plain ↦
      let slash : (c == backslash) ≡ false = ground (arith, plain) in
      rw plain (
        decode_escapes-cons (some quote) c (escaped (quote_unit quote) s) slash
        ∙ ap (λ t. c ∷ t) (decode_escapes-escaped quote s))
]

-- A text in quotes.
parse_value-in_quotes :
    (quote : Quote) (value : Text)
    → value_at (in_quotes (quote_unit quote) value)
      ≡ quoted_value quote (
          scan_quoted
            (quote_unit quote)
            (escaped (quote_unit quote) value ++ quote_unit quote ∷ []))
parse_value-in_quotes single value =
    ap (λ t. quoted_value single (scan_quoted 0x27 (t ++ 0x27 ∷ [])))
      (put_backslash-escaped 0x27 value refl)
parse_value-in_quotes double value =
    ap (λ t. quoted_value double (scan_quoted 0x22 (t ++ 0x22 ∷ [])))
      (put_backslash-escaped 0x22 value refl)

quote_unit-other : (quote : Quote) → (quote_unit quote == backslash) ≡ false
quote_unit-other single = refl
quote_unit-other double = refl

skip_whitespace-in_quotes :
    (quote : Quote) (s : Text) → skip_whitespace (quote_unit quote ∷ s) ≡ quote_unit quote ∷ s
unfolding skip_whitespace
skip_whitespace-in_quotes single s = refl
skip_whitespace-in_quotes double s = refl

quoted_value-ended :
    (quote : Quote) (s : Text)
    → quoted_value quote (some (s, [])) ≡ some (decode_escapes (some quote) s)
unfolding skip_whitespace
quoted_value-ended quote s = refl

parse_value-quoted :
    (quote : Quote) (value : Text) → parse_value (in_quotes (quote_unit quote) value) ≡ some value
unfolding parse_value
parse_value-quoted quote value =
    let q = quote_unit quote in
    ap value_at (skip_whitespace-in_quotes quote _)
    ∙ parse_value-in_quotes quote value
    ∙ ap (quoted_value quote) (scan_quoted-escaped q value [] (quote_unit-other quote))
    ∙ quoted_value-ended quote (escaped q value)
    ∙ ap some (decode_escapes-escaped quote value)

-- A plain text.
scan_plain-cons :
    (spaced : Bool) (c : ℕ) (s : Text)
    → (c == backslash) ≡ false
    → (c == b'#') ≡ false
    → scan_plain spaced (c ∷ s) ≡ onto_text (c ∷ []) (scan_plain (is_space c) s)
unfolding scan_plain
scan_plain-cons spaced c [] slash hash = rw (slash, hash)
scan_plain-cons spaced c (d ∷ s) slash hash = rw (slash, hash)

scan_plain-nil : (spaced : Bool) → scan_plain spaced [] ≡ some []
unfolding scan_plain
scan_plain-nil spaced = refl

scan_plain-plain : (spaced : Bool) (s : Text) → all is_plain s ≡ true → scan_plain spaced s ≡ some s
scan_plain-plain spaced [] h = scan_plain-nil spaced
scan_plain-plain spaced (c ∷ s) h =
    let plain : is_plain c ≡ true = ground (arith, h) in
    let others : all is_plain s ≡ true = ground (arith, h) in
    scan_plain-cons spaced c s (ground (arith, plain)) (ground (arith, plain))
    ∙ ap (onto_text (c ∷ [])) (scan_plain-plain (is_space c) s others)

decode_escapes-plain : (s : Text) → all is_plain s ≡ true → decode_escapes none s ≡ s
decode_escapes-plain [] h = decode_escapes-nil none
decode_escapes-plain (c ∷ s) h =
    let plain : is_plain c ≡ true = ground (arith, h) in
    let others : all is_plain s ≡ true = ground (arith, h) in
    decode_escapes-cons none c s (ground (arith, plain))
    ∙ ap (λ t. c ∷ t) (decode_escapes-plain s others)

keep_unless_blank-plain : (c : ℕ) (s : Text) → is_space c ≡ false → keep_unless_blank c s ≡ c ∷ s
keep_unless_blank-plain c [] h = rw h
keep_unless_blank-plain c (d ∷ s) h = refl

trim_end-plain : (s : Text) → all is_plain s ≡ true → trim_end s ≡ s
unfolding trim_end
trim_end-plain [] h = refl
trim_end-plain (c ∷ s) h =
    let plain : is_plain c ≡ true = ground (arith, h) in
    let others : all is_plain s ≡ true = ground (arith, h) in
    ap (keep_unless_blank c) (trim_end-plain s others)
    ∙ keep_unless_blank-plain c s (ground (arith, plain))

skip_whitespace-plain : (c : ℕ) (s : Text) → is_space c ≡ false → skip_whitespace (c ∷ s) ≡ c ∷ s
unfolding skip_whitespace
skip_whitespace-plain c s h = rw h

value_at-plain :
    (c : ℕ) (s : Text)
    → is_plain c ≡ true
    → value_at (c ∷ s) ≡ plain_value (scan_plain true (c ∷ s))
value_at-plain c s h =
    let hash : (c == b'#') ≡ false = ground (arith, h) in
    let one : (c == 0x27) ≡ false = ground (arith, h) in
    let two : (c == 0x22) ≡ false = ground (arith, h) in rw (hash, one, two)

parse_value-plain :
    (c : ℕ) (s : Text) → all is_plain (c ∷ s) ≡ true → parse_value (c ∷ s) ≡ some (c ∷ s)
unfolding parse_value
parse_value-plain c s h =
    let plain : is_plain c ≡ true = ground (arith, h) in
    ap value_at (skip_whitespace-plain c s (ground (arith, plain)))
    ∙ value_at-plain c s plain
    ∙ ap plain_value (scan_plain-plain true (c ∷ s) h)
    ∙ ap (λ t. some (trim_end t)) (decode_escapes-plain (c ∷ s) h)
    ∙ ap some (trim_end-plain (c ∷ s) h)

parse_value-nil : parse_value [] ≡ some []
unfolding parse_value skip_whitespace
parse_value-nil = refl

encoded_with-parse_value :
    (quote : Option Quote) (value : Text) → parse_value (encoded_with quote value) ≡ some value
encoded_with-parse_value (some quote) value = parse_value-quoted quote value
encoded_with-parse_value none [] = parse_value-nil
encoded_with-parse_value none (c ∷ value) = elim (Bool-cases (all is_plain (c ∷ value))) [
  | inl plain ↦ rw plain (parse_value-plain c value plain)
  | inr special ↦ rw special (parse_value-quoted double (c ∷ value))
]

-- Whatever text the value token had before, `parseValue` reads the text that `encodedValue` writes
-- for a value as that value.
pub parse_value-encoded_value :
    (original value : Text) → parse_value (encoded_value original value) ≡ some value
unfolding encoded_value
parse_value-encoded_value original value = encoded_with-parse_value (quote_of original) value
