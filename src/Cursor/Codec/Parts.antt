-- ===== src/Cursor/Codec/Parts.antt =====
-- The parts of a token (apps/sql-worker/src/explorer/cursorCodec.ts) are found again between its dots.
use nancy_man.Base.{Text, false, List, [], ◌∷◌, ◌++◌, ◌≡◌, refl, All, ◌==◌}
use nancy_man.Cursor.Codec.{cursor, kind_name, envelope_version, join, split}

abbrev pub IsDotless : Text → Type 0
IsDotless p = All (λ c. (c == b'.') ≡ false) p

split-dotless : (p : Text) → IsDotless p → split p ≡ p ∷ []
unfolding split
split-dotless [] h = refl
split-dotless (c ∷ p) h = rw (h.0, split-dotless p h.1)

split-append : (p s : Text) → IsDotless p → split (p ++ (b'.' ∷ s)) ≡ p ∷ split s
unfolding split
split-append [] s h = refl
split-append (c ∷ p) s h = rw (h.0, split-append p s h.1)

-- Texts without a dot are the parts of their joined text.
split-join :
    (p q : Text) (ps : List Text)
    → All IsDotless (p ∷ q ∷ ps)
    → split (join (p ∷ q ∷ ps)) ≡ p ∷ split (join (q ∷ ps))
split-join p q ps h = split-append p (join (q ∷ ps)) h.0

pub split-five :
    (a b c d e : Text)
    → All IsDotless (a ∷ b ∷ c ∷ d ∷ e ∷ [])
    → split (join (a ∷ b ∷ c ∷ d ∷ e ∷ [])) ≡ a ∷ b ∷ c ∷ d ∷ e ∷ []
split-five a b c d e h = rw (
  split-join a b (c ∷ d ∷ e ∷ []) h,
  split-join b c (d ∷ e ∷ []) h.1,
  split-join c d (e ∷ []) h.1.1,
  split-join d e [] h.1.1.1,
  split-dotless e h.1.1.1.1.0,
)

pub version-IsDotless : IsDotless envelope_version
version-IsDotless = (refl, (refl, tt))

pub cursor-IsDotless : IsDotless (kind_name cursor)
cursor-IsDotless = (refl, (refl, (refl, (refl, (refl, (refl, tt))))))
