-- ===== src/Spool/Flush.antt =====
-- What `flush` does to the records (packages/telemetry-sdk/src/serverSpool.ts).
use nancy_man.Base.{
  Bool, ℕ, ◌+◌, ◌*◌, ◌^◌, ◌≤◌, ◌<◌, Text, List, [], ◌∷◌, Perm, Option, some, ◌≡◌, ◌≢◌, length, leb,
  if◌then◌else◌,
}
use nancy_man.Spool.{ServerSpoolRecord, FlushResult, flush_records, waits}
use nancy_man.Spool.Order.{IsOrdered, weighed}

-- A second, doubled with each attempt, and a quarter of an hour from the tenth attempt on.
abbrev pub delay_after : ℕ → ℕ
delay_after attempts = if leb attempts 9 then 1000 * 2 ^ attempts else 900000

module _ (encoded_size : ServerSpoolRecord → ℕ) (key_first : Text → Text → Bool)
    (max_bytes max_age : ℕ) (deliver : ℕ → ServerSpoolRecord → Option Text)
    (jittered : ℕ → ℕ → ℕ) where
  -- What is to become of the records from a place on: how many are delivered and which are kept.
  -- A record that is too old is gone. One whose next attempt is ahead stays as it is. One that is due
  -- is delivered; if the delivery gives its own key it is gone and counted, and if the delivery gives
  -- another key or throws it is kept with one more attempt, and a next attempt after the delay.
  pub data Flushes (now : ℕ)
      : ℕ → List ServerSpoolRecord → ℕ → List ServerSpoolRecord → Type 0 where
    ends : {place : ℕ} → Flushes now place [] 0 []
    expires :
        {place : ℕ} {records kept : List ServerSpoolRecord} {delivered : ℕ} (r : ServerSpoolRecord)
        → r.enqueued_at + max_age < now
        → Flushes now (place + 1) records delivered kept
        → Flushes now place (r ∷ records) delivered kept
    is_ahead :
        {place : ℕ} {records kept : List ServerSpoolRecord} {delivered : ℕ} (r : ServerSpoolRecord)
        (next : ℕ)
        → now ≤ r.enqueued_at + max_age
        → r.next_attempt_at ≡ some next
        → now < next
        → Flushes now (place + 1) records delivered kept
        → Flushes now place (r ∷ records) delivered (r ∷ kept)
    arrives :
        {place : ℕ} {records kept : List ServerSpoolRecord} {delivered : ℕ} (r : ServerSpoolRecord)
        → now ≤ r.enqueued_at + max_age
        → ((next : ℕ) → r.next_attempt_at ≡ some next → next ≤ now)
        → deliver place r ≡ some r.idempotency_key
        → Flushes now (place + 1) records delivered kept
        → Flushes now place (r ∷ records) (delivered + 1) kept
    fails :
        {place : ℕ} {records kept : List ServerSpoolRecord} {delivered : ℕ} (r : ServerSpoolRecord)
        → now ≤ r.enqueued_at + max_age
        → ((next : ℕ) → r.next_attempt_at ≡ some next → next ≤ now)
        → deliver place r ≢ some r.idempotency_key
        → Flushes now (place + 1) records delivered kept
        → Flushes now place (r ∷ records) delivered (
            record {
              idempotency_key = r.idempotency_key;
              envelope = r.envelope;
              byte_size = r.byte_size;
              enqueued_at = r.enqueued_at;
              attempt_count = r.attempt_count + 1;
              next_attempt_at = some (now + jittered place (delay_after (r.attempt_count + 1)));
            }
            ∷ kept)

  -- The records in the order of their times, what becomes of them, and the count of the kept.
  pub record IsFlushed (now : ℕ) (events : List ServerSpoolRecord) (result : FlushResult)
      : Type 0 where
    pub older : List ServerSpoolRecord
    pub all : Perm older (weighed encoded_size events)
    pub ordered : IsOrdered older
    pub outcome : Flushes now 0 older result.delivered result.retained
    pub deferred : result.deferred ≡ length result.retained

  abbrev after : ℕ → ℕ → List ServerSpoolRecord → FlushResult
  after = flush_records encoded_size key_first max_bytes max_age deliver jittered

  abbrev is_waiting : ℕ → Option ℕ → Bool
  is_waiting = waits encoded_size key_first max_bytes max_age
