-- ===== src/IdempotencyManager.antt =====
-- src/core/IdempotencyManager.ts. The clock is an argument `now` of each call, in milliseconds; the
-- logger is left out. A payload is a JSON tree, so the serialisation never throws.
pub mod Hash
pub mod Laws
pub mod Bounds
pub mod Prune
use pulse_distributed_real_t.Prelude.{
  ℕ, ◌+◌, suc, String, List, [], ◌∷◌, Option, none, some, Bool, true, false, not, ◌≡◌, ◌=ₛ◌, ltb,
  leb, if◌then◌else◌, truthy,
}
use pulse_distributed_real_t.JsMap.{JsMap, get, set, delete, size}
use pulse_distributed_real_t.Json.{Fields}
use pulse_distributed_real_t.Envelope.{PulseEventEnvelope}

pub record IdempotencyEntry : Type 0 where
  pub event_id : String
  pub payload_hash : String
  pub ack_envelope : PulseEventEnvelope
  pub timestamp : ℕ

pub record IdempotencyManager : Type 0 where
  pub capacity : ℕ
  pub ttl_ms : ℕ
  pub cache : JsMap IdempotencyEntry

-- The three shapes of the result object: not a duplicate, a conflict, and a duplicate with its ACK.
pub data IdempotencyCheckResult : Type 0 where
  not_duplicate : IdempotencyCheckResult
  conflict : IdempotencyCheckResult
  duplicate : (cached_ack : PulseEventEnvelope) → IdempotencyCheckResult

unfoldable pub new_idempotency_manager : Option ℕ → Option ℕ → IdempotencyManager
new_idempotency_manager capacity ttl_ms = record {
  capacity = elim capacity [ none ↦ 10000 | some n ↦ n ];
  ttl_ms = elim ttl_ms [ none ↦ 60000 | some n ↦ n ];
  cache = [];
}

-- now - entry.timestamp > this.ttlMs
abbrev pub is_expired : ℕ → ℕ → IdempotencyEntry → Bool
is_expired ttl_ms now entry = ltb (entry.timestamp + ttl_ms) now

-- The room that `recordAck` makes: the oldest key goes, if there is one and it is not empty.
pub evict_oldest : JsMap IdempotencyEntry → JsMap IdempotencyEntry
evict_oldest [] = []
evict_oldest ((k, e) ∷ rest) = if truthy k then delete k ((k, e) ∷ rest) else (k, e) ∷ rest

-- The hash of a payload is an argument: `Hash` has the one of the source.
module _ (hash : Fields → String) where
  check_entry :
      IdempotencyManager
      → String
      → Fields
      → ℕ
      → Option IdempotencyEntry
      → IdempotencyManager × IdempotencyCheckResult
  check_entry m event_id payload now none = (m, not_duplicate)
  check_entry m event_id payload now (some entry) =
      let forgotten = delete event_id m.cache in
      if is_expired m.ttl_ms now entry then (record m { cache = forgotten }, not_duplicate) else (
        record m { cache = set event_id entry forgotten },
        if not (entry.payload_hash =ₛ hash payload) then conflict else duplicate entry.ack_envelope,
      )

  unfoldable pub check :
      IdempotencyManager → String → Fields → ℕ → IdempotencyManager × IdempotencyCheckResult
  unfolding check_entry
  check m event_id payload now = check_entry m event_id payload now (get event_id m.cache)

  unfoldable pub record_ack :
      IdempotencyManager → String → PulseEventEnvelope → Fields → ℕ → IdempotencyManager
  unfolding evict_oldest
  record_ack m event_id ack payload now =
      let room = if leb m.capacity (size m.cache) then evict_oldest m.cache else m.cache in
      record m {
        cache =
            set event_id
              (record {
                event_id = event_id;
                payload_hash = hash payload;
                ack_envelope = ack;
                timestamp = now;
              })
              room;
      }

-- The loop of `pruneExpired`: it stops at the first entry that has not expired.
pub prune_entries : ℕ → ℕ → JsMap IdempotencyEntry → JsMap IdempotencyEntry × ℕ
prune_entries ttl_ms now [] = ([], 0)
prune_entries ttl_ms now ((k, e) ∷ rest) =
    let pruned = prune_entries ttl_ms now rest in
    if is_expired ttl_ms now e then (pruned.0, suc pruned.1) else ((k, e) ∷ rest, 0)

pub prune_expired : IdempotencyManager → ℕ → IdempotencyManager × ℕ
unfolding prune_entries
prune_expired m now =
    let (kept, count) = prune_entries m.ttl_ms now m.cache in (record m { cache = kept }, count)

unfoldable pub clear : IdempotencyManager → IdempotencyManager
clear m = record m { cache = [] }
