-- ===== src/Spool/Order.antt =====
-- The order in which the spool takes its records (packages/telemetry-sdk/src/serverSpool.ts).
use mathlib.Core.Logic.{∥∥₁_elim}
use mathlib.Core.List.{Permᴰ}
use mathlib.Core.List.Perm
use native.Mathlib.Nat.{ℕ_set}
use nancy_man.Base.{
  ℕ, suc, ◌+◌, ◌≤◌, Text, Bool, true, List, [], ◌∷◌, Perm, ◌≡◌, refl, ap, ◌∙◌, All, arith,
  Bool-cases, inl, inr, keep, if◌then◌else◌, subst, length,
}
use nancy_man.Spool.{
  ServerSpoolRecord, insert_in_order, chronological, is_earlier, total_size, read_records,
}

-- Records from the oldest to the newest.
abbrev pub IsOrdered : List ServerSpoolRecord → Type 0
IsOrdered [] = Unit
IsOrdered (r ∷ records) = All (λ s. r.enqueued_at ≤ s.enqueued_at) records × IsOrdered records

-- The records with the size of their text.
abbrev pub weighed : (ServerSpoolRecord → ℕ) → List ServerSpoolRecord → List ServerSpoolRecord
weighed encoded_size [] = []
weighed encoded_size (r ∷ records) =
    record r { byte_size = encoded_size r } ∷ weighed encoded_size records

-- The sum of the sizes.
abbrev pub bytes : List ServerSpoolRecord → ℕ
bytes [] = 0
bytes (r ∷ records) = r.byte_size + bytes records

pub total_size-bytes : (records : List ServerSpoolRecord) → total_size records ≡ bytes records
unfolding total_size
total_size-bytes [] = refl
total_size-bytes (r ∷ records) = rw (total_size-bytes records) refl

-- A list with an element in front, if it passes.
abbrev front :
    (ServerSpoolRecord → Bool) → ServerSpoolRecord → List ServerSpoolRecord → List ServerSpoolRecord
front p r records = if p r then r ∷ records else records

module _ (p : ServerSpoolRecord → Bool) where
  Perm-front :
      (r : ServerSpoolRecord) {records others : List ServerSpoolRecord}
      → Perm records others
      → Perm (front p r records) (front p r others)
  Perm-front r h = elim (Bool-cases (p r)) [
    | inl passes ↦ rw passes (Perm.cons r h)
    | inr fails ↦ rw fails h
  ]

  front-front :
      (r s : ServerSpoolRecord) (records : List ServerSpoolRecord)
      → Perm (front p s (front p r records)) (front p r (front p s records))
  front-front r s records = elim (Bool-cases (p r)) [
    | inl passes ↦ elim (Bool-cases (p s)) [
      | inl both ↦ rw (passes, both) (Perm.swap r s records)
      | inr alone ↦ rw (passes, alone) Perm.rfl
    ]
    | inr fails ↦ rw fails Perm.rfl
  ]

  All-front :
      (n : ℕ) (r : ServerSpoolRecord) (records : List ServerSpoolRecord)
      → n ≤ r.enqueued_at
      → All (λ s. n ≤ s.enqueued_at) records
      → All (λ s. n ≤ s.enqueued_at) (front p r records)
  All-front n r records h hs = elim (Bool-cases (p r)) [
    | inl passes ↦ rw passes (h, hs)
    | inr fails ↦ rw fails hs
  ]

  All-keep :
      (n : ℕ) (records : List ServerSpoolRecord)
      → All (λ s. n ≤ s.enqueued_at) records
      → All (λ s. n ≤ s.enqueued_at) (keep p records)
  All-keep n [] h = tt
  All-keep n (r ∷ records) (h, hs) = All-front n r (keep p records) h (All-keep n records hs)

  pub keep-IsOrdered :
      (records : List ServerSpoolRecord) → IsOrdered records → IsOrdered (keep p records)
  keep-IsOrdered [] h = tt
  keep-IsOrdered (r ∷ records) (h, hs) = elim (Bool-cases (p r)) [
    | inl passes ↦ rw passes (All-keep r.enqueued_at records h, keep-IsOrdered records hs)
    | inr fails ↦ rw fails (keep-IsOrdered records hs)
  ]

All-older :
    (n k : ℕ) (records : List ServerSpoolRecord)
    → n ≤ k
    → All (λ s. k ≤ s.enqueued_at) records
    → All (λ s. n ≤ s.enqueued_at) records
All-older n k [] le h = tt
All-older n k (r ∷ records) le (h, hs) = (omega (arith, le, h), All-older n k records le hs)

module _ (encoded_size : ServerSpoolRecord → ℕ) (key_first : Text → Text → Bool)
    (max_bytes max_age : ℕ) where
  abbrev insert : ServerSpoolRecord → List ServerSpoolRecord → List ServerSpoolRecord
  insert = insert_in_order encoded_size key_first max_bytes max_age

  abbrev earlier : ServerSpoolRecord → ServerSpoolRecord → Bool
  earlier = is_earlier encoded_size key_first max_bytes max_age

  insert-Perm :
      (p : ServerSpoolRecord → Bool) (r : ServerSpoolRecord) (records : List ServerSpoolRecord)
      → Perm (keep p (insert r records)) (front p r (keep p records))
  unfolding insert_in_order
  insert-Perm p r [] = Perm.rfl
  insert-Perm p r (s ∷ records) =
      let ih = insert-Perm p r records in
      elim (Bool-cases (earlier s r)) [
        | inl later ↦ rw later (Perm.trans (Perm-front p s ih) (front-front p r s (keep p records)))
        | inr first ↦ rw first Perm.rfl
      ]

  pub chronological-Perm :
      (p : ServerSpoolRecord → Bool) (records : List ServerSpoolRecord)
      → Perm
          (keep p (chronological encoded_size key_first max_bytes max_age records))
          (keep p records)
  unfolding chronological
  chronological-Perm p [] = Perm.rfl
  chronological-Perm p (r ∷ records) =
      Perm.trans (insert-Perm p r (chronological encoded_size key_first max_bytes max_age records))
        (Perm-front p r (chronological-Perm p records))

  All-insert :
      (n : ℕ) (r : ServerSpoolRecord) (records : List ServerSpoolRecord)
      → n ≤ r.enqueued_at
      → All (λ s. n ≤ s.enqueued_at) records
      → All (λ s. n ≤ s.enqueued_at) (insert r records)
  unfolding insert_in_order
  All-insert n r [] h hs = (h, tt)
  All-insert n r (s ∷ records) h (hs, rest) =
      let ih = All-insert n r records h rest in
      elim (Bool-cases (earlier s r)) [
        | inl later ↦ rw later (hs, ih)
        | inr first ↦ rw first (h, (hs, rest))
      ]

  insert-IsOrdered :
      (r : ServerSpoolRecord) (records : List ServerSpoolRecord)
      → IsOrdered records
      → IsOrdered (insert r records)
  unfolding insert_in_order
  insert-IsOrdered r [] h = (tt, tt)
  insert-IsOrdered r (s ∷ records) (hs, rest) =
      let ih = insert-IsOrdered r records rest in
      elim (Bool-cases (earlier s r)) [
        | inl later ↦
            let le : s.enqueued_at ≤ r.enqueued_at = ground arith in
            rw later (All-insert s.enqueued_at r records le hs, ih)
        | inr first ↦
            let le : r.enqueued_at ≤ s.enqueued_at = ground arith in
            rw first ((le, All-older r.enqueued_at s.enqueued_at records le hs), (hs, rest))
      ]

  pub chronological-IsOrdered :
      (records : List ServerSpoolRecord)
      → IsOrdered (chronological encoded_size key_first max_bytes max_age records)
  unfolding chronological
  chronological-IsOrdered [] = tt
  chronological-IsOrdered (r ∷ records) =
      insert-IsOrdered r (chronological encoded_size key_first max_bytes max_age records)
        (chronological-IsOrdered records)

keep-all : (records : List ServerSpoolRecord) → keep (λ _. true) records ≡ records
keep-all [] = refl
keep-all (r ∷ records) = rw (keep-all records) refl

module _ (encoded_size : ServerSpoolRecord → ℕ) (key_first : Text → Text → Bool)
    (max_bytes max_age : ℕ) where
  pub chronological-Perm_all :
      (records : List ServerSpoolRecord)
      → Perm (chronological encoded_size key_first max_bytes max_age records) records
  chronological-Perm_all records =
      subst (λ rs. Perm rs records)
        (keep-all (chronological encoded_size key_first max_bytes max_age records))
        (subst
          (λ rs.
            Perm (keep (λ _. true) (chronological encoded_size key_first max_bytes max_age records))
              rs)
          (keep-all records)
          (chronological-Perm encoded_size key_first max_bytes max_age (λ _. true) records))

  pub read_records-weighed :
      (records : List ServerSpoolRecord)
      → read_records encoded_size key_first max_bytes max_age records ≡ weighed encoded_size records
  read_records-weighed [] = refl
  read_records-weighed (r ∷ records) = rw (read_records-weighed records) refl

length-Permᴰ : {rs ss : List ServerSpoolRecord} → Permᴰ rs ss → length rs ≡ length ss
length-Permᴰ Permᴰ.nil = refl
length-Permᴰ (Permᴰ.swap _ _) = refl
length-Permᴰ (Permᴰ.cons _ tails) = ap suc (length-Permᴰ tails)
length-Permᴰ (Permᴰ.trans left right) = length-Permᴰ left ∙ length-Permᴰ right

-- A reordering has as many records.
pub Perm-length : {rs ss : List ServerSpoolRecord} → Perm rs ss → length rs ≡ length ss
Perm-length h = ∥∥₁_elim h (ℕ_set _ _) length-Permᴰ
