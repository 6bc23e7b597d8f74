-- ===== src/Spool/Evict.antt =====
-- What `enqueue` keeps (packages/telemetry-sdk/src/serverSpool.ts).
use nancy_man.Base.{
  Perm, none, keep, not, same, ◌&&◌, length, ℕ, ◌+◌, ◌≤◌, ◌<◌, Text, Bool, List, [], ◌∷◌, ◌++◌, ◌≡◌,
  ltb, drop,
}
use nancy_man.Spool.{ServerSpoolRecord, EnqueueResult, current, fresh, count_expired}
use nancy_man.Spool.Order.{IsOrdered, weighed, bytes}

-- A record of another key.
abbrev pub is_other : Text → ServerSpoolRecord → Bool
is_other key r = not (same r.idempotency_key key)

-- Not more than the maximal age before now.
abbrev pub is_young : ℕ → ℕ → ServerSpoolRecord → Bool
is_young max_age now r = not (ltb (r.enqueued_at + max_age) now)

module _ (encoded_size : ServerSpoolRecord → ℕ) (key_first : Text → Text → Bool)
    (max_bytes max_age : ℕ) where
  -- The record of a new envelope, with the size of its text.
  abbrev pub newcomer : ℕ → Text → Text → ServerSpoolRecord
  newcomer now key envelope =
      let bare : ServerSpoolRecord = record {
        idempotency_key = key;
        envelope = envelope;
        byte_size = 0;
        enqueued_at = now;
        attempt_count = 0;
        next_attempt_at = none;
      } in
      record {
        idempotency_key = key;
        envelope = envelope;
        byte_size = encoded_size bare;
        enqueued_at = now;
        attempt_count = 0;
        next_attempt_at = none;
      }

  -- What a call of `enqueue` that queues its envelope leaves: the records of other keys that have not
  -- expired in the order of their times, less some of the oldest, and the new record behind them. All
  -- of them fit, and one more of the dropped would not.
  pub record IsQueued (now : ℕ) (key envelope : Text) (events : List ServerSpoolRecord)
      (result : EnqueueResult) : Type 0 where
    pub older : List ServerSpoolRecord
    pub others :
        Perm older
          (keep (λ r. is_other key r && is_young max_age now r) (weighed encoded_size events))
    pub ordered : IsOrdered older
    pub dropped : ℕ
    pub events_are : result.events ≡ drop dropped older ++ newcomer now key envelope ∷ []
    pub fits : bytes result.events ≤ max_bytes
    pub needed :
        (n : ℕ)
        → n < dropped
        → max_bytes < bytes (drop n older) + (newcomer now key envelope).byte_size
    pub counted :
        result.evicted + length result.events
        ≡ length (keep (is_other key) (weighed encoded_size events)) + 1

  abbrev current_of : Text → List ServerSpoolRecord → List ServerSpoolRecord
  current_of = current encoded_size key_first max_bytes max_age

  abbrev fresh_of : ℕ → List ServerSpoolRecord → List ServerSpoolRecord
  fresh_of = fresh encoded_size key_first max_bytes max_age

  abbrev expired_of : ℕ → List ServerSpoolRecord → ℕ
  expired_of = count_expired encoded_size key_first max_bytes max_age
