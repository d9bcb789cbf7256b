-- ===== src/IdempotencyManager/Bounds.antt =====
-- The cache stays within its capacity, and `recordAck` evicts exactly the oldest entry.
use pulse_distributed_real_t.JsMap.{JsMap, get, set, delete, size, IsDistinct}
use pulse_distributed_real_t.JsMap.Laws.{
  length-set, length-delete, set-IsDistinct, delete-IsDistinct, delete_of_none, get-set, get-delete,
  get-delete_self,
}
use pulse_distributed_real_t.Json.{Fields}
use pulse_distributed_real_t.Envelope.{PulseEventEnvelope}
use pulse_distributed_real_t.IdempotencyManager.Laws.{entry_of}
use text.Mathlib.TextEquality.{eq_iff}
use pulse_distributed_real_t.Prelude.{
  [], ℕ, ◌≡◌, String, none, ◌∷◌, ◌≤◌, arith, =ₛ_refl, truthy-false, ◌≢◌, if◌then◌else◌, Option, leb,
  refl, ◌<◌,
}
use pulse_distributed_real_t.IdempotencyManager.{
  IdempotencyManager, IdempotencyEntry, check, check_entry, record_ack, evict_oldest, String, none,
  Option, leb, some,
}

-- No key twice, no empty key, and no more entries than the capacity.
pub record IsValid (m : IdempotencyManager) : Type 0 where
  pub distinct : IsDistinct m.cache
  pub named : get "" m.cache ≡ none
  pub bounded : size m.cache ≤ m.capacity

evict_oldest-cons :
    (k : String) (e : IdempotencyEntry) (c : JsMap IdempotencyEntry)
    → get "" ((k, e) ∷ c) ≡ none
    → get k c ≡ none
    → evict_oldest ((k, e) ∷ c) ≡ c
unfolding evict_oldest delete get
evict_oldest-cons k e c named fresh =
    ground (arith, =ₛ_refl k, delete_of_none k c, truthy-false k, eq_iff k "")

-- Without its oldest entry a full cache has room; `recordAck` makes that room and no more.
room-IsValid :
    (capacity : ℕ) (c : JsMap IdempotencyEntry)
    → IsDistinct c
    → get "" c ≡ none
    → size c ≤ capacity
    → 1 ≤ capacity
    → let room = if leb capacity (size c) then evict_oldest c else c in
      IsDistinct room × (get "" room ≡ none) × (size room < capacity)
unfolding get
room-IsValid capacity [] d n b h = (ground arith, ground arith, ground arith)
room-IsValid capacity ((k, e) ∷ c) d n b h =
    let gone = evict_oldest-cons k e c n d.0 in
    (ground (arith, gone), ground (arith, gone), ground (arith, gone))

touch-IsValid :
    (m : IdempotencyManager) (event_id : String) (e : IdempotencyEntry)
    → get event_id m.cache ≡ some e
    → IsValid m
    → IsValid (record m { cache = set event_id e (delete event_id m.cache) })
touch-IsValid m event_id e h v =
    let d = delete-IsDistinct event_id m.cache v.distinct in
    record {
      distinct = set-IsDistinct event_id e (delete event_id m.cache) d;
      named = ground (
        arith,
        get-set "" event_id e (delete event_id m.cache),
        get-delete "" event_id m.cache,
        eq_iff event_id "",
      );
      bounded = ground (
        arith,
        length-set event_id e (delete event_id m.cache),
        length-delete event_id m.cache v.distinct,
        get-delete_self event_id m.cache,
      );
    }

forget-IsValid :
    (m : IdempotencyManager) (event_id : String)
    → IsValid m
    → IsValid (record m { cache = delete event_id m.cache })
forget-IsValid m event_id v = record {
  distinct = delete-IsDistinct event_id m.cache v.distinct;
  named = ground (arith, get-delete "" event_id m.cache);
  bounded = ground (arith, length-delete event_id m.cache v.distinct);
}

module _ (hash : Fields → String) where
  -- Recording an event whose id is not empty in a cache of capacity 1 or more keeps the cache
  -- within its capacity, without a key twice and without the empty key.
  pub record_ack-IsValid :
      (m : IdempotencyManager) (event_id : String) (ack : PulseEventEnvelope) (payload : Fields)
      (now : ℕ)
      → IsValid m
      → 1 ≤ m.capacity
      → event_id ≢ ""
      → IsValid (record_ack hash m event_id ack payload now)
  unfolding record_ack
  record_ack-IsValid m event_id ack payload now v h named =
      let room = if leb m.capacity (size m.cache) then evict_oldest m.cache else m.cache in
      let entry = entry_of hash event_id ack payload now in
      let (d, n, b) = room-IsValid m.capacity m.cache v.distinct v.named v.bounded h in
      record {
        distinct = set-IsDistinct event_id entry room d;
        named = ground (arith, get-set "" event_id entry room, eq_iff event_id "");
        bounded = ground (arith, length-set event_id entry room);
      }

  -- When a valid cache is full, recording an event drops its oldest entry, sets the event's own and
  -- leaves the others.
  pub record_ack-full :
      (m : IdempotencyManager) (event_id : String) (ack : PulseEventEnvelope) (payload : Fields)
      (now : ℕ) (k : String) (e : IdempotencyEntry) (rest : JsMap IdempotencyEntry)
      → IsValid m
      → m.capacity ≤ size m.cache
      → m.cache ≡ (k, e) ∷ rest
      → (record_ack hash m event_id ack payload now).cache
        ≡ set event_id (entry_of hash event_id ack payload now) rest
  unfolding record_ack
  record_ack-full m event_id ack payload now k e rest v full c =
      let named : get "" ((k, e) ∷ rest) ≡ none = rw c at v.named in
      let distinct : IsDistinct ((k, e) ∷ rest) = rw c at v.distinct in
      ground (arith, evict_oldest-cons k e rest named distinct.0)

  check_entry-IsValid :
      (m : IdempotencyManager) (event_id : String) (payload : Fields) (now : ℕ)
      (o : Option IdempotencyEntry)
      → get event_id m.cache ≡ o
      → IsValid m
      → IsValid (check_entry hash m event_id payload now o).0
  unfolding check_entry
  check_entry-IsValid m event_id payload now none h v = v
  check_entry-IsValid m event_id payload now (some e) h v =
      ground (arith, touch-IsValid m event_id e h v, forget-IsValid m event_id v)

  pub check-IsValid :
      (m : IdempotencyManager) (event_id : String) (payload : Fields) (now : ℕ)
      → IsValid m
      → IsValid (check hash m event_id payload now).0
  unfolding check
  check-IsValid m event_id payload now v =
      check_entry-IsValid m event_id payload now (get event_id m.cache) refl v
