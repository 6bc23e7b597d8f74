-- ===== src/Spool/Tests.antt =====
-- A spool of 25 bytes for records of ten, which live for 100 milliseconds.
use nancy_man.Base.{
  ℕ, Text, codes, Bool, false, List, [], ◌∷◌, Option, some, none, map, ◌≡◌, refl, same,
}
use nancy_man.Spool.{
  ServerSpoolRecord, total_size, drop_oldest, enqueue, flush, flush_records, chronological,
  insert_in_order, count_expired,
}

abbrev ten : ServerSpoolRecord → ℕ
ten r = 10

abbrev never : Text → Text → Bool
never a b = false

abbrev waiting_since : ℕ → Text → ServerSpoolRecord
waiting_since n key = record {
  idempotency_key = key;
  envelope = key;
  byte_size = 0;
  enqueued_at = n;
  attempt_count = 0;
  next_attempt_at = none;
}

abbrev two_waiting : List ServerSpoolRecord
two_waiting = waiting_since 60 (codes "b") ∷ waiting_since 50 (codes "a") ∷ []

-- The collector acknowledges `a` only.
abbrev takes_first : ℕ → ServerSpoolRecord → Option Text
takes_first n r = some (codes "a")

drops_oldest :
    map
      (λ r. r.idempotency_key)
      (enqueue ten never 25 100 100 (codes "c") (codes "c") two_waiting).events
    ≡ codes "b" ∷ codes "c" ∷ []
unfolding enqueue chronological insert_in_order drop_oldest total_size count_expired same
drops_oldest = refl

delivers_first :
    map
      (λ r. r.idempotency_key)
      (flush ten never 25 100 takes_first (λ n d. d) 100 two_waiting).retained
    ≡ codes "b" ∷ []
unfolding flush flush_records chronological insert_in_order same
delivers_first = refl
