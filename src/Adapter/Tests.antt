-- ===== src/Adapter/Tests.antt =====
-- A value with a quote, a backslash, a blank and a comment sign.
use nancy_man.Base.{Text, codes, [], ◌∷◌, some, none, ◌≡◌, refl}
use nancy_man.Adapter.{
  parse_value, encoded_value, skip_whitespace, scan_quoted, scan_plain, decode_escapes, trim_end,
  put_backslash,
}
use nancy_man.Adapter.RoundTrip.{parse_value-encoded_value}

abbrev hard_value : Text
hard_value = b'a' ∷ 0x22 ∷ 0x5c ∷ b'n' ∷ b' ' ∷ b'#' ∷ []

parse_value-encoded_value_example :
    parse_value (encoded_value (codes "old") hard_value) ≡ some hard_value
parse_value-encoded_value_example = parse_value-encoded_value (codes "old") hard_value

quotes_hard :
    encoded_value (codes "old") hard_value
    ≡ 0x22 ∷ b'a' ∷ 0x5c ∷ 0x22 ∷ 0x5c ∷ 0x5c ∷ b'n' ∷ b' ' ∷ b'#' ∷ 0x22 ∷ []
unfolding encoded_value put_backslash
quotes_hard = refl

reads_up_to_comment : parse_value (codes " one two #three") ≡ some (codes "one two")
unfolding parse_value skip_whitespace scan_plain decode_escapes trim_end
reads_up_to_comment = refl

refuses_open : parse_value (codes "'open") ≡ none
unfolding parse_value skip_whitespace scan_quoted
refuses_open = refl
