-- ===== src/Spool/Room.antt =====
-- How `enqueue` makes room for a record (packages/telemetry-sdk/src/serverSpool.ts).
use nancy_man.Base.{
  ℕ, zero, suc, ◌+◌, ◌-◌, ◌≤◌, ◌<◌, List, [], ◌∷◌, ◌++◌, ◌≡◌, refl, sym, ap, ◌∙◌, subst, ltb, arith,
  Bool-cases, inl, inr, drop, length,
}
use nancy_man.Spool.{ServerSpoolRecord, Kept, total_size, drop_oldest}

pub total_size-append :
    (records more : List ServerSpoolRecord)
    → total_size (records ++ more) ≡ total_size records + total_size more
unfolding total_size
total_size-append [] more = omega arith
total_size-append (r ∷ records) more = omega (arith, total_size-append records more)

pub total_size-one : (r : ServerSpoolRecord) → total_size (r ∷ []) ≡ r.byte_size
unfolding total_size
total_size-one r = omega arith

-- As many of the oldest are dropped as it takes, and no more: what is left fits beside the candidate,
-- or nothing is left, and with the last dropped record it would not fit.
pub record IsEnough (max_bytes size : ℕ) (records : List ServerSpoolRecord) (dropped : ℕ)
    (kept : List ServerSpoolRecord) : Type 0 where
  pub keeps : kept ≡ drop dropped records
  pub counts : length kept + dropped ≡ length records
  pub fits : size ≤ max_bytes → total_size kept + size ≤ max_bytes
  pub needed : (n : ℕ) → n < dropped → max_bytes < total_size (drop n records) + size

-- What the loop makes of the records, from a number of evicted ones.
abbrev pub Drops : ℕ → ℕ → ℕ → List ServerSpoolRecord → Kept → Type 0
Drops max_bytes size evicted records kept =
    (dropped : ℕ) × (kept.evicted ≡ evicted + dropped)
    × IsEnough max_bytes size records dropped kept.retained

needed-cons :
    (max_bytes size dropped : ℕ) (oldest : ServerSpoolRecord) (records : List ServerSpoolRecord)
    → max_bytes < total_size (oldest ∷ records) + size
    → ((n : ℕ) → n < dropped → max_bytes < total_size (drop n records) + size)
    → (n : ℕ) → n < dropped + 1
    → max_bytes < total_size (drop n (oldest ∷ records)) + size
needed-cons max_bytes size dropped oldest records first more zero h = first
needed-cons max_bytes size dropped oldest records first more (suc n) h = more n (omega (arith, h))

Drops-cons :
    (max_bytes size evicted : ℕ) (oldest : ServerSpoolRecord) (records : List ServerSpoolRecord)
    (kept : Kept)
    → max_bytes < total_size (oldest ∷ records) + size
    → Drops max_bytes size (evicted + 1) records kept
    → Drops max_bytes size evicted (oldest ∷ records) kept
Drops-cons max_bytes size evicted oldest records kept over (dropped, count, enough) = (
  dropped + 1,
  omega (arith, count),
  record {
    keeps = enough.keeps ∙ ap (λ n. drop n (oldest ∷ records)) one_more;
    counts = omega (arith, enough.counts);
    fits = enough.fits;
    needed = needed-cons max_bytes size dropped oldest records over enough.needed;
  },
)
  where
    one_more : suc dropped ≡ dropped + 1
    one_more = omega arith

pub drop_oldest-Drops :
    (max_bytes size evicted : ℕ) (records : List ServerSpoolRecord)
    → Drops max_bytes size evicted records
        (drop_oldest max_bytes size records (total_size records) evicted)
unfolding drop_oldest total_size
drop_oldest-Drops max_bytes size evicted [] = (
  0,
  omega arith,
  record {
    keeps = refl;
    counts = refl;
    fits = λ h. omega (arith, h);
    needed = λ n h. absurd (omega (arith, h));
  },
)
drop_oldest-Drops max_bytes size evicted (oldest ∷ records) =
    let total = total_size (oldest ∷ records) in
    let kept = drop_oldest max_bytes size (oldest ∷ records) total evicted in
    let later = drop_oldest max_bytes size records (total_size records) (evicted + 1) in
    let less : total - oldest.byte_size ≡ total_size records = omega arith in
    elim (Bool-cases (ltb max_bytes (total + size))) [
      | inl over ↦
          let goes : kept ≡ later = rw (over, less) in
          subst (Drops max_bytes size evicted (oldest ∷ records)) (sym goes) (
            Drops-cons max_bytes size evicted oldest records later (ground (arith, over))
              (drop_oldest-Drops max_bytes size (evicted + 1) records))
      | inr fits ↦
          let stays : kept ≡ record { retained = oldest ∷ records; evicted = evicted } = rw fits in
          subst (Drops max_bytes size evicted (oldest ∷ records)) (sym stays) (
            0,
            omega arith,
            record {
              keeps = refl;
              counts = omega arith;
              fits = λ _. ground (arith, fits);
              needed = λ n h. absurd (omega (arith, h));
            },
          )
    ]
