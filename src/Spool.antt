-- ===== src/Spool.antt =====
-- packages/telemetry-sdk/src/serverSpool.ts: the queue of telemetry that a server keeps in a file
-- until the collector has acknowledged it. The file is the list of its valid records. The size of the
-- JSON text of a record, the order of keys (localeCompare) and the random jitter are parameters, and
-- a point in time is a natural number of milliseconds.
pub mod Order
mod Room
pub mod Evict
pub mod Flush
mod Tests
use nancy_man.Base.{
  ℕ, zero, suc, ◌+◌, ◌-◌, ◌*◌, ◌^◌, Text, Bool, true, false, List, [], ◌∷◌, ◌++◌, Option, some,
  none, map, ltb, leb, ◌==◌, ◌&&◌, ◌||◌, not, same, keep, if◌then◌else◌,
}

pub record ServerSpoolRecord : Type 0 where
  pub idempotency_key : Text
  pub envelope : Text
  pub byte_size : ℕ
  pub enqueued_at : ℕ
  pub attempt_count : ℕ
  pub next_attempt_at : Option ℕ

pub record EnqueueResult : Type 0 where
  pub queued : Bool
  pub evicted : ℕ
  pub events : List ServerSpoolRecord

pub record FlushResult : Type 0 where
  pub delivered : ℕ
  pub deferred : ℕ
  pub retained : List ServerSpoolRecord

-- The state of the loop that drops the oldest records.
pub record Kept : Type 0 where
  pub retained : List ServerSpoolRecord
  pub evicted : ℕ

unfoldable pub total_size : List ServerSpoolRecord → ℕ
total_size [] = 0
total_size (r ∷ records) = r.byte_size + total_size records

-- `while (retained.length > 0 && retainedBytes + candidate.byteSize > maxBytes)`.
unfoldable pub drop_oldest : ℕ → ℕ → List ServerSpoolRecord → ℕ → ℕ → Kept
drop_oldest max_bytes size [] bytes evicted = record { retained = []; evicted = evicted }
drop_oldest max_bytes size (oldest ∷ records) bytes evicted =
    let rest = drop_oldest max_bytes size records (bytes - oldest.byte_size) (evicted + 1) in
    if ltb max_bytes (bytes + size)
    then rest
    else record { retained = oldest ∷ records; evicted = evicted }

-- `Math.min(15 * 60 * 1_000, 1_000 * 2 ** Math.min(attemptCount, 10))`.
abbrev pub smaller : ℕ → ℕ → ℕ
smaller n k = if leb n k then n else k

abbrev pub base_delay : ℕ → ℕ
base_delay attempt_count = smaller 900000 (1000 * 2 ^ smaller attempt_count 10)

module _ (encoded_size : ServerSpoolRecord → ℕ) (key_first : Text → Text → Bool)
    (max_bytes max_age : ℕ) where
  -- `readRecords`: each record with the size of its text anew.
  abbrev pub sized : ServerSpoolRecord → ServerSpoolRecord
  sized r = record r { byte_size = encoded_size r }

  abbrev pub read_records : List ServerSpoolRecord → List ServerSpoolRecord
  read_records events = map sized events

  -- `sort` by time, and by key at the same time.
  abbrev pub is_earlier : ServerSpoolRecord → ServerSpoolRecord → Bool
  is_earlier left right =
      ltb left.enqueued_at right.enqueued_at
      || ((left.enqueued_at == right.enqueued_at)
          && key_first left.idempotency_key right.idempotency_key)

  unfoldable pub insert_in_order :
      ServerSpoolRecord → List ServerSpoolRecord → List ServerSpoolRecord
  insert_in_order r [] = r ∷ []
  insert_in_order r (s ∷ records) =
      let rest = insert_in_order r records in if is_earlier s r then s ∷ rest else r ∷ s ∷ records

  unfoldable pub chronological : List ServerSpoolRecord → List ServerSpoolRecord
  chronological [] = []
  chronological (r ∷ records) = insert_in_order r (chronological records)

  -- `enqueuedAt < now - maxAge`, with the age on the other side.
  abbrev pub is_expired : ℕ → ServerSpoolRecord → Bool
  is_expired now r = ltb (r.enqueued_at + max_age) now

  unfoldable pub count_expired : ℕ → List ServerSpoolRecord → ℕ
  count_expired now [] = 0
  count_expired now (r ∷ records) =
      let rest = count_expired now records in if is_expired now r then rest + 1 else rest

  abbrev pub candidate : ℕ → Text → Text → ServerSpoolRecord
  candidate now key envelope = sized (record {
    idempotency_key = key;
    envelope = envelope;
    byte_size = 0;
    enqueued_at = now;
    attempt_count = 0;
    next_attempt_at = none;
  })

  -- The records of other keys, the oldest first.
  abbrev pub current : Text → List ServerSpoolRecord → List ServerSpoolRecord
  current key events =
      keep (λ r. not (same r.idempotency_key key)) (chronological (read_records events))

  abbrev pub fresh : ℕ → List ServerSpoolRecord → List ServerSpoolRecord
  fresh now records = keep (λ r. not (is_expired now r)) records

  abbrev pub queue : ServerSpoolRecord → Kept → EnqueueResult
  queue r kept = record { queued = true; evicted = kept.evicted; events = kept.retained ++ r ∷ [] }

  abbrev pub evict : ℕ → ServerSpoolRecord → List ServerSpoolRecord → Kept
  evict now r records =
      drop_oldest max_bytes r.byte_size (fresh now records) (total_size (fresh now records))
        (count_expired now records)

  -- Of an envelope that is sanitized, with its key.
  unfoldable pub enqueue : ℕ → Text → Text → List ServerSpoolRecord → EnqueueResult
  enqueue now key envelope events =
      if ltb max_bytes (candidate now key envelope).byte_size
      then record { queued = false; evicted = 0; events = events }
      else queue (candidate now key envelope)
          (evict now (candidate now key envelope) (current key events))

  -- Later, with the delay that the jitter makes of the base delay.
  abbrev pub put_off : (ℕ → ℕ) → ℕ → ServerSpoolRecord → ServerSpoolRecord
  put_off jittered now r = record r {
    attempt_count = r.attempt_count + 1;
    next_attempt_at = some (now + jittered (base_delay (r.attempt_count + 1)));
  }

  abbrev pub waits : ℕ → Option ℕ → Bool
  waits now none = false
  waits now (some next) = ltb now next

  abbrev pub acknowledges : ServerSpoolRecord → Option Text → Bool
  acknowledges r none = false
  acknowledges r (some key) = same key r.idempotency_key

  abbrev pub defer : ServerSpoolRecord → FlushResult → FlushResult
  defer r rest = record rest { deferred = rest.deferred + 1; retained = r ∷ rest.retained }

  -- The loop of `flush`. What a delivery gives, a key or nothing where it throws, and the jitter may
  -- depend on how many records have gone before.
  unfoldable pub flush_records :
      (ℕ → ServerSpoolRecord → Option Text)
      → (ℕ → ℕ → ℕ)
      → ℕ
      → ℕ
      → List ServerSpoolRecord
      → FlushResult
  flush_records deliver jittered now place [] = record {
    delivered = 0;
    deferred = 0;
    retained = [];
  }
  flush_records deliver jittered now place (r ∷ records) =
      let rest = flush_records deliver jittered now (place + 1) records in
      if is_expired now r
      then rest
      else if waits now r.next_attempt_at
      then defer r rest
      else if acknowledges r (deliver place r)
      then record rest { delivered = rest.delivered + 1 }
      else defer (put_off (jittered place) now r) rest

  unfoldable pub flush :
      (ℕ → ServerSpoolRecord → Option Text) → (ℕ → ℕ → ℕ) → ℕ → List ServerSpoolRecord → FlushResult
  flush deliver jittered now events =
      flush_records deliver jittered now 0 (chronological (read_records events))
