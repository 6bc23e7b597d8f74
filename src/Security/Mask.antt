-- ===== src/Security/Mask.antt =====
-- `maskPiiValue` (packages/security/src/database/columnPolicy.ts). The value is what `String(value)`
-- gives; `none` stands for null and undefined.
use nancy_man.Base.{
  ℕ, zero, suc, ◌-◌, Text, codes, Bool, true, false, List, [], ◌∷◌, ◌++◌, Option, some, none, ◌≡◌,
  refl, ◌⊎◌, inl, inr, ◌==◌, leb, ◌&&◌, ◌||◌, not, same, any, all, keep, length, between, is_empty,
  if◌then◌else◌, arith, Bool-cases,
}

-- Six bullets.
abbrev pub hidden : Text
hidden = 8226 ∷ 8226 ∷ 8226 ∷ 8226 ∷ 8226 ∷ 8226 ∷ []

-- White space and line ends of ECMAScript, for `trim` and `\s`.
abbrev pub is_space : ℕ → Bool
is_space c =
    between 9 13 c
    || c == 32
    || c == 160
    || c == 5760
    || between 8192 8202 c
    || between 8232 8233 c
    || c == 8239
    || c == 8287
    || c == 12288
    || c == 65279

unfoldable pub trim_start : Text → Text
trim_start [] = []
trim_start (c ∷ s) = let rest = trim_start s in if is_space c then rest else c ∷ s

unfoldable pub trim_end : Text → Text
trim_end [] = []
trim_end (c ∷ s) = let rest = trim_end s in if is_empty rest && is_space c then [] else c ∷ rest

-- `split` by one character.
unfoldable pub split : ℕ → Text → List Text
split x [] = [] ∷ []
split x (c ∷ s) = elim (split x s) [
  | [] ↦ []
  | p ∷ ps ↦ if c == x then [] ∷ p ∷ ps else (c ∷ p) ∷ ps
]

abbrev pub is_digit : ℕ → Bool
is_digit c = between b'0' b'9' c

-- `[\d\s-]{7,15}`, the whole text.
abbrev pub is_number_like : Text → Bool
is_number_like s =
    leb 7 (length s) && leb (length s) 15 && all (λ c. is_digit c || is_space c || c == b'-') s

-- `/^[+]?[\d\s-]{7,15}$/`.
abbrev pub looks_like_phone : Text → Bool
looks_like_phone [] = false
looks_like_phone (c ∷ s) = if c == b'+' then is_number_like s else is_number_like (c ∷ s)

abbrev pub drop : ℕ → Text → Text
drop zero s = s
drop (suc n) [] = []
drop (suc n) (c ∷ s) = drop n s

abbrev pub mask_parts : List Text → Text
mask_parts ((c ∷ local) ∷ (d ∷ domain) ∷ []) = c ∷ (codes "***@" ++ d ∷ domain)
mask_parts _ = hidden

-- `slice(-4)` of the digits, if there are four.
abbrev pub mask_digits : Text → Text
mask_digits digits =
    if leb 4 (length digits) then codes "******" ++ drop (length digits - 4) digits else hidden

abbrev pub hint_is : Text → Option Text → Bool
hint_is name none = false
hint_is name (some hint) = same hint name

unfoldable pub mask_text : Option Text → Text → Text
mask_text hint str =
    if is_empty str
    then hidden
    else if hint_is (codes "email") hint
        || (any (λ c. c == b'@') str && not (any (λ c. c == 32) str))
    then mask_parts (split b'@' str)
    else if hint_is (codes "phone") hint || looks_like_phone str
    then mask_digits (keep is_digit str)
    else hidden

abbrev pub trim : Text → Text
trim s = trim_start (trim_end s)

unfoldable pub mask_pii_value : Option Text → Option Text → Text
unfolding mask_text
mask_pii_value hint none = hidden
mask_pii_value hint (some value) = mask_text hint (trim value)

-- What a masked value may show of the text that it stands for.
abbrev pub ShowsEmail : Text → Text → Type 0
ShowsEmail str shown =
    (c : ℕ) × (local : Text) × (domain : Text) × (split b'@' str ≡ (c ∷ local) ∷ domain ∷ [])
    × (shown ≡ c ∷ (codes "***@" ++ domain))

abbrev pub ShowsDigits : Text → Text → Type 0
ShowsDigits str shown = (digits : Text) × (length digits ≡ 4) × (shown ≡ codes "******" ++ digits)

length-drop : (n : ℕ) (s : Text) → length (drop n s) ≡ length s - n
length-drop zero s = omega arith
length-drop (suc n) [] = omega arith
length-drop (suc n) (c ∷ s) = omega (arith, length-drop n s)

mask_parts-shows :
    (str : Text) (parts : List Text)
    → split b'@' str ≡ parts
    → (mask_parts parts ≡ hidden) ⊎ ShowsEmail str (mask_parts parts)
mask_parts-shows str ((c ∷ local) ∷ (d ∷ domain) ∷ []) h = inr (c, local, d ∷ domain, h, refl)
mask_parts-shows str [] h = inl refl
mask_parts-shows str ([] ∷ ps) h = inl refl
mask_parts-shows str ((c ∷ local) ∷ []) h = inl refl
mask_parts-shows str ((c ∷ local) ∷ [] ∷ ps) h = inl refl
mask_parts-shows str ((c ∷ local) ∷ (d ∷ domain) ∷ p ∷ ps) h = inl refl

mask_digits-shows :
    (str digits : Text) → (mask_digits digits ≡ hidden) ⊎ ShowsDigits str (mask_digits digits)
mask_digits-shows str digits = elim (Bool-cases (leb 4 (length digits))) [
  | inl enough ↦ inr (
    drop (length digits - 4) digits,
    ground (arith, length-drop (length digits - 4) digits),
    ground arith,
  )
  | inr few ↦ inl (ground arith)
]

abbrev pub ShowsLittle : Text → Text → Type 0
ShowsLittle str shown = (shown ≡ hidden) ⊎ (ShowsEmail str shown ⊎ ShowsDigits str shown)

split-nonempty :
    (s : Text) {c : ℕ} {local : Text} {rest : List Text}
    → split b'@' s ≡ (c ∷ local) ∷ rest
    → is_empty s ≡ false
unfolding split
split-nonempty [] h = absurd (ground arith)
split-nonempty (d ∷ s) h = refl

parts-apart :
    (c : ℕ) (local local' domain : Text)
    → mask_parts ((c ∷ local) ∷ domain ∷ []) ≡ mask_parts ((c ∷ local') ∷ domain ∷ [])
parts-apart c local local' [] = refl
parts-apart c local local' (d ∷ domain) = refl

if_holds : (P : Text → Type 0) (b : Bool) {x y : Text} → P x → P y → P (if b then x else y)
if_holds P true p q = p
if_holds P false p q = q

mask_text-ShowsLittle : (hint : Option Text) (str : Text) → ShowsLittle str (mask_text hint str)
unfolding mask_text
mask_text-ShowsLittle hint str =
    let P = ShowsLittle str in
    if_holds P (is_empty str) (inl refl) (
      if_holds P _ (widen_email (mask_parts-shows str (split b'@' str) refl))
        (if_holds P _ (widen_digits (mask_digits-shows str (keep is_digit str))) (inl refl)))
  where
    widen_email : {shown : Text} → (shown ≡ hidden) ⊎ ShowsEmail str shown → ShowsLittle str shown
    widen_email (inl h) = inl h
    widen_email (inr e) = inr (inl e)

    widen_digits : {shown : Text} → (shown ≡ hidden) ⊎ ShowsDigits str shown → ShowsLittle str shown
    widen_digits (inl h) = inl h
    widen_digits (inr d) = inr (inr d)

-- Whatever the hint, a masked value is six bullets, or the first character and the domain of an
-- address with exactly one @ and text on both sides of it, or stars and exactly four characters.
pub mask_pii_value-ShowsLittle :
    (hint : Option Text) (value : Text)
    → ShowsLittle (trim value) (mask_pii_value hint (some value))
unfolding mask_pii_value
mask_pii_value-ShowsLittle hint value = mask_text-ShowsLittle hint (trim value)

-- Two addresses with the same first character and domain have the same mask: the rest of the name
-- before the @ cannot be told from it.
pub mask_pii_value-local_apart :
    (value other : Text) (c : ℕ) (local local' domain : Text)
    → split b'@' (trim value) ≡ (c ∷ local) ∷ domain ∷ []
    → split b'@' (trim other) ≡ (c ∷ local') ∷ domain ∷ []
    → mask_pii_value (some (codes "email")) (some value)
      ≡ mask_pii_value (some (codes "email")) (some other)
unfolding mask_pii_value same
mask_pii_value-local_apart value other c local local' domain h k =
    rw (split-nonempty (trim value) h, split-nonempty (trim other) k, h, k)
      (parts-apart c local local' domain)
