-- ===== src/Base/Texts.antt =====
-- Texts as lists of UTF-16 code units, which is what a JavaScript string is.
use Prim.Native.Nat.{ℕ}
use Prim.Native.Char.{code}
use Prim.Native.String.{String}
use mathlib.Core.Path.{◌≡◌, refl}
use mathlib.Core.Logic.{◌↔◌}
use mathlib.Core.Bool.{Bool, true, false, ◌&&◌, ◌||◌}
use mathlib.Core.List.{List, [], ◌∷◌}
use native.Mathlib.Omega.{arith}
use nancy_man.Base.Tests.{◌==◌, ==_refl, leb}

abbrev pub Text : Type 0
Text = List ℕ

-- A literal. Those of the model are ASCII, where a code point is a code unit.
abbrev pub codes : String → Text
codes String.[] = []
codes (String.◌∷◌ c s) = code c ∷ codes s

-- `===` on strings.
unfoldable pub same : Text → Text → Bool
same [] [] = true
same (a ∷ s) (b ∷ t) = (a == b) && same s t
same _ _ = false

pub eq_of_same : (s t : Text) → same s t ≡ true → s ≡ t
unfolding same
eq_of_same [] [] h = refl
eq_of_same (a ∷ s) (b ∷ t) h = ground (arith, eq_of_same s t)
eq_of_same [] (b ∷ t) h = cc
eq_of_same (a ∷ s) [] h = cc

pub same_refl : (s : Text) → same s s ≡ true
unfolding same
same_refl [] = refl
same_refl (a ∷ s) = ground (arith, same_refl s, ==_refl a)

pub same_iff : (s t : Text) → (same s t ≡ true) ↔ (s ≡ t)
same_iff s t = (eq_of_same s t, λ e. subst_same s t e)
  where
    subst_same : (s t : Text) → s ≡ t → same s t ≡ true
    subst_same s t e = rw e (same_refl t)

-- `!value` at a string.
abbrev pub is_empty : Text → Bool
is_empty [] = true
is_empty (c ∷ s) = false

unfoldable pub member : Text → List Text → Bool
member t [] = false
member t (s ∷ ss) = same s t || member t ss

-- `/^…$/` for a fixed sequence of character classes.
unfoldable pub fits : List (ℕ → Bool) → Text → Bool
fits [] [] = true
fits (p ∷ ps) (c ∷ s) = p c && fits ps s
fits _ _ = false

abbrev pub between : ℕ → ℕ → ℕ → Bool
between lo hi c = leb lo c && leb c hi

-- `[0-9a-f]` under the flag `i`.
abbrev hex : ℕ → Bool
hex c = between b'0' b'9' c || between b'a' b'f' c || between b'A' b'F' c

abbrev dash : ℕ → Bool
dash c = c == b'-'

-- `[89ab]` under the flag `i`.
abbrev variant : ℕ → Bool
variant c = between b'8' b'9' c || between b'a' b'b' c || between b'A' b'B' c

abbrev pub uuid_pattern : List (ℕ → Bool)
uuid_pattern =
    hex
    ∷ hex
    ∷ hex
    ∷ hex
    ∷ hex
    ∷ hex
    ∷ hex
    ∷ hex
    ∷ dash
    ∷ hex
    ∷ hex
    ∷ hex
    ∷ hex
    ∷ dash
    ∷ (λ c. c == b'4')
    ∷ hex
    ∷ hex
    ∷ hex
    ∷ dash
    ∷ variant
    ∷ hex
    ∷ hex
    ∷ hex
    ∷ dash
    ∷ hex
    ∷ hex
    ∷ hex
    ∷ hex
    ∷ hex
    ∷ hex
    ∷ hex
    ∷ hex
    ∷ hex
    ∷ hex
    ∷ hex
    ∷ hex
    ∷ []

-- `uuidPattern.test`.
unfoldable pub is_uuid : Text → Bool
unfolding fits
is_uuid t = fits uuid_pattern t
