-- ===== src/Cursor/Budget/Agree.antt =====
-- Sizes that agree up to a budget: an estimate of a member of the payload
-- (apps/sql-worker/src/explorer/cursorCodec.ts) may stand for any size above the budget.
use nancy_man.Base.{
  ℕ, ◌+◌, ◌<◌, Text, List, [], ◌∷◌, ◌≡◌, refl, sym, ap, ◌∙◌, leb, arith, Bool-cases, inl, inr, ◌⊎◌,
  subst,
}
use nancy_man.Explorer.Identifier.{decimal}
use nancy_man.Cursor.Json.{utf8_length, bounded}
use nancy_man.Cursor.Json.Length.{json_string_byte_length_lem}
use nancy_man.Cursor.Budget.{json_value_byte_length, or_over, string_or_over, number_or_over}
use nancy_man.Cursor.Budget.Pieces.{quoted, members_size}
use nancy_man.Cursor.Budget.Counts.{bounded-over}

abbrev Agree : ℕ → ℕ → ℕ → Type 0
Agree budget v w = (v ≡ w) ⊎ ((budget < v) × (budget < w))

or_over-Agree : (n budget : ℕ) → Agree budget (or_over (bounded n budget) budget) n
or_over-Agree n budget = elim (Bool-cases (leb n budget)) [
  | inl fits ↦ inl (ground arith)
  | inr over ↦ inr (ground arith, ground arith)
]

abbrev pub AgreeAll : ℕ → List (Text × ℕ) → List (Text × ℕ) → Type 0
AgreeAll budget [] [] = Unit
AgreeAll budget [] (q ∷ qs) = ⊥
AgreeAll budget (p ∷ ps) [] = ⊥
AgreeAll budget (p ∷ ps) (q ∷ qs) = (p.0 ≡ q.0) × Agree budget p.1 q.1 × AgreeAll budget ps qs

pub members_size-Agree :
    (budget separator : ℕ) (ps qs : List (Text × ℕ))
    → AgreeAll budget ps qs
    → Agree budget (members_size separator ps) (members_size separator qs)
members_size-Agree budget separator [] [] h = inl refl
members_size-Agree budget separator [] (q ∷ qs) h = absurd h
members_size-Agree budget separator (p ∷ ps) [] h = absurd h
members_size-Agree budget separator (p ∷ ps) (q ∷ qs) h =
    let name = ap quoted h.0 in
    elim h.1 [
      | inl same_size ↦ elim (members_size-Agree budget 1 ps qs h.2) [
        | inl same_rest ↦ inl (omega arith)
        | inr over ↦ inr (omega arith, omega arith)
      ]
      | inr over ↦ inr (omega arith, omega arith)
    ]

pub bounded-Agree :
    (budget v w : ℕ) → Agree budget v w → bounded (2 + v) budget ≡ bounded (2 + w) budget
bounded-Agree budget v w (inl e) = ap (λ n. bounded (2 + n) budget) e
bounded-Agree budget v w (inr over) =
    bounded-over (2 + v) budget (omega arith) ∙ sym (bounded-over (2 + w) budget (omega arith))

pub string-Agree :
    (value : Text) (budget : ℕ) → Agree budget (string_or_over value budget) (quoted value)
string-Agree value budget =
    subst (λ r. Agree budget (or_over r budget) (quoted value))
      (sym (json_string_byte_length_lem value budget)) (or_over-Agree (quoted value) budget)

pub number-Agree : (n budget : ℕ) → Agree budget (number_or_over n budget) (utf8_length (decimal n))
unfolding json_value_byte_length
number-Agree n budget = or_over-Agree (utf8_length (decimal n)) budget
