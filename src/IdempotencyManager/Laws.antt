-- ===== src/IdempotencyManager/Laws.antt =====
-- What `check` answers: after `recordAck`, on a conflict, and past the time to live.
use text.Mathlib.TextEquality.{eq_iff}
use pulse_distributed_real_t.Prelude.{
  ℕ, ◌+◌, String, none, some, ◌≡◌, ◌=ₛ◌, arith, ltb, if◌then◌else◌, refl,
}
use pulse_distributed_real_t.JsMap.{get}
use pulse_distributed_real_t.JsMap.Laws.{get-set, get-delete, get-set_self}
use pulse_distributed_real_t.Json.{Fields}
use pulse_distributed_real_t.Envelope.{PulseEventEnvelope}
use pulse_distributed_real_t.IdempotencyManager.{
  IdempotencyManager, IdempotencyEntry, not_duplicate, conflict, duplicate, check, record_ack,
  is_expired, Option, check_entry, delete,
}

-- What a check leaves of an entry.
abbrev pub kept_entry : ℕ → ℕ → Option IdempotencyEntry → Option IdempotencyEntry
kept_entry ttl_ms now none = none
kept_entry ttl_ms now (some e) = if is_expired ttl_ms now e then none else some e

module _ (hash : Fields → String) where
  abbrev pub entry_of : String → PulseEventEnvelope → Fields → ℕ → IdempotencyEntry
  entry_of event_id ack payload now = record {
    event_id = event_id;
    payload_hash = hash payload;
    ack_envelope = ack;
    timestamp = now;
  }

  -- The entry of an event right after it is recorded.
  pub get-record_ack :
      (m : IdempotencyManager) (event_id : String) (ack : PulseEventEnvelope) (payload : Fields)
      (now : ℕ)
      → get event_id (record_ack hash m event_id ack payload now).cache
        ≡ some (entry_of event_id ack payload now)
  unfolding record_ack
  get-record_ack m event_id ack payload now = get-set_self event_id _ _

  -- The answer for an entry that is there: by age first, then by hash.
  pub check_hit :
      (m : IdempotencyManager) (event_id : String) (payload : Fields) (now : ℕ)
      (e : IdempotencyEntry)
      → get event_id m.cache ≡ some e
      → (check hash m event_id payload now).1 ≡ (
          if is_expired m.ttl_ms now e
          then not_duplicate
          else if e.payload_hash =ₛ hash payload
          then duplicate e.ack_envelope
          else conflict)
  unfolding check
  check_hit m event_id payload now e h = ground arith

  get-check_entry :
      (m : IdempotencyManager) (event_id other : String) (payload : Fields) (now : ℕ)
      (o : Option IdempotencyEntry)
      → get event_id m.cache ≡ o
      → get other (check_entry hash m event_id payload now o).0.cache
        ≡ (if event_id =ₛ other then kept_entry m.ttl_ms now o else get other m.cache)
  unfolding check_entry
  get-check_entry m event_id other payload now none h = ground (arith, eq_iff event_id other)
  get-check_entry m event_id other payload now (some e) h =
      ground (
        arith,
        get-set other event_id e (delete event_id m.cache),
        get-delete other event_id m.cache,
      )

  -- After a check the event's entry is what it was, or is gone because it had expired or was never
  -- there; every other entry is what it was.
  pub get-check :
      (m : IdempotencyManager) (event_id other : String) (payload : Fields) (now : ℕ)
      → get other (check hash m event_id payload now).0.cache ≡ (
          if event_id =ₛ other
          then kept_entry m.ttl_ms now (get event_id m.cache)
          else get other m.cache)
  unfolding check
  get-check m event_id other payload now =
      get-check_entry m event_id other payload now (get event_id m.cache) refl

  -- An event that was recorded is answered with its ACK up to the time to live if the payload has
  -- the same hash, with a conflict if it has another, and as new after that.
  pub check-record_ack :
      (m : IdempotencyManager) (event_id : String) (ack : PulseEventEnvelope)
      (payload payload' : Fields) (at now : ℕ)
      → (check hash (record_ack hash m event_id ack payload at) event_id payload' now).1 ≡ (
          if ltb (at + m.ttl_ms) now
          then not_duplicate
          else if hash payload =ₛ hash payload'
          then duplicate ack
          else conflict)
  check-record_ack m event_id ack payload payload' at now =
      unfold record_ack in
      check_hit (record_ack hash m event_id ack payload at) event_id payload' now _
        (get-record_ack m event_id ack payload at)
