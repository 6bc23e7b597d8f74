-- ===== src/Security/Search.antt =====
-- `startsWith`, `endsWith` and `includes` on strings, and how they behave beside a delimiter.
use nancy_man.Base.{
  ℕ, Text, Bool, true, false, [], ◌∷◌, ◌++◌, ◌≡◌, ◌==◌, ==_refl, ◌&&◌, ◌||◌, same, arith,
}

unfoldable pub starts_with : Text → Text → Bool
starts_with [] t = true
starts_with (a ∷ p) [] = false
starts_with (a ∷ p) (b ∷ t) = (a == b) && starts_with p t

-- The text or one of its tails is the suffix.
unfoldable pub ends_with : Text → Text → Bool
unfolding same
ends_with p [] = same [] p
ends_with p (c ∷ t) = same (c ∷ t) p || ends_with p t

unfoldable pub includes_text : Text → Text → Bool
unfolding starts_with
includes_text p [] = starts_with p []
includes_text p (c ∷ t) = starts_with p (c ∷ t) || includes_text p t

-- A prefix that ends in a delimiter, in a text with that delimiter behind it.
pub starts_with-delimited :
    (x : ℕ) (p c : Text)
    → starts_with (p ++ x ∷ []) (c ++ x ∷ []) ≡ (same c p || starts_with (p ++ x ∷ []) c)
unfolding starts_with same
starts_with-delimited x [] [] = ground (arith, ==_refl x)
starts_with-delimited x [] (d ∷ c) = ground arith
starts_with-delimited x (q ∷ []) [] = ground arith
starts_with-delimited x (q ∷ r ∷ p) [] = ground arith
starts_with-delimited x (q ∷ p) (d ∷ c) = ground (arith, starts_with-delimited x p c)

-- An occurrence of a word between delimiters, in a text with the delimiter behind it.
pub includes_text-delimited :
    (x : ℕ) (p c : Text)
    → includes_text (x ∷ (p ++ x ∷ [])) (c ++ x ∷ [])
      ≡ (ends_with (x ∷ p) c || includes_text (x ∷ (p ++ x ∷ [])) c)
unfolding includes_text ends_with starts_with same
includes_text-delimited x [] [] = ground arith
includes_text-delimited x (q ∷ p) [] = ground arith
includes_text-delimited x p (d ∷ c) =
    ground (arith, starts_with-delimited x p c, includes_text-delimited x p c)
