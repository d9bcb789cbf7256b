-- ===== src/IdempotencyManager/Prune.antt =====
-- `pruneExpired`: what it removes, that nobody can tell, and what its early exit leaves behind.
use text.Mathlib.TextEquality.{eq_iff}
use pulse_distributed_real_t.JsMap.{JsMap, get, set, delete, IsDistinct}
use pulse_distributed_real_t.Json.{Fields}
use pulse_distributed_real_t.Envelope.{PulseEventEnvelope}
use pulse_distributed_real_t.IdempotencyManager.{
  IdempotencyManager, IdempotencyEntry, IdempotencyCheckResult, not_duplicate, check, check_entry,
  record_ack, prune_entries, prune_expired, is_expired, evict_oldest, duplicate, conflict,
}
use pulse_distributed_real_t.Prelude.{
  [], ◌∷◌, ◌≡◌, refl, none, some, ℕ, String, true, false, ◌≤◌, ◌<◌, arith, Option, ◌⊎◌, All, ◌≢◌,
  if◌then◌else◌, ◌+◌, inl, =ₛ_refl, ◌=ₛ◌, Bool-cases, inr,
}

-- An answer depends on the entry of the event alone.
abbrev answer_of :
    (Fields → String) → ℕ → Fields → ℕ → Option IdempotencyEntry → IdempotencyCheckResult
answer_of hash ttl_ms payload now none = not_duplicate
answer_of hash ttl_ms payload now (some e) =
    if is_expired ttl_ms now e
    then not_duplicate
    else if e.payload_hash =ₛ hash payload
    then duplicate e.ack_envelope
    else conflict

check-answer :
    (hash : Fields → String) (m : IdempotencyManager) (event_id : String) (payload : Fields)
    (now : ℕ)
    → (check hash m event_id payload now).1
      ≡ answer_of hash m.ttl_ms payload now (get event_id m.cache)
unfolding check check_entry
check-answer hash m event_id payload now = ground arith

-- Pruning loses an entry only if it has expired.
get-prune_entries :
    (ttl_ms at : ℕ) (c : JsMap IdempotencyEntry) (k : String)
    → IsDistinct c
    → (get k (prune_entries ttl_ms at c).0 ≡ get k c)
      ⊎ ((get k (prune_entries ttl_ms at c).0 ≡ none)
          × ((e : IdempotencyEntry) × (get k c ≡ some e) × (is_expired ttl_ms at e ≡ true)))
unfolding prune_entries get
get-prune_entries ttl_ms at [] k d = inl refl
get-prune_entries ttl_ms at ((j, e) ∷ c) k d =
    let ih = get-prune_entries ttl_ms at c k d.1 in
    elim (Bool-cases (is_expired ttl_ms at e)) [
      | inl old ↦ elim (Bool-cases (j =ₛ k)) [
        | inl same ↦ inr (ground (arith, ih, eq_iff j k), (e, ground arith, old))
        | inr other ↦ ground (arith, ih)
      ]
      | inr young ↦ inl (ground arith)
    ]

-- In a cache without a key twice, a check at the time of a prune or later is answered as if there
-- had been no prune.
pub check-prune_expired :
    (hash : Fields → String) (m : IdempotencyManager) (event_id : String) (payload : Fields)
    (at now : ℕ)
    → IsDistinct m.cache
    → at ≤ now
    → (check hash (prune_expired m at).0 event_id payload now).1
      ≡ (check hash m event_id payload now).1
unfolding prune_expired
check-prune_expired hash m event_id payload at now d h = ground (
  arith,
  check-answer hash m event_id payload now,
  check-answer hash (prune_expired m at).0 event_id payload now,
  get-prune_entries m.ttl_ms at m.cache event_id d,
)

-- Oldest first: each entry is at least as old as those behind it.
abbrev pub IsOrdered : ℕ → JsMap IdempotencyEntry → Type 0
IsOrdered oldest [] = Unit {0}
IsOrdered oldest ((k, e) ∷ c) = (oldest ≤ e.timestamp) × IsOrdered e.timestamp c

IsOrdered-fresh :
    (ttl_ms at oldest : ℕ) (c : JsMap IdempotencyEntry)
    → IsOrdered oldest c
    → at ≤ oldest + ttl_ms
    → All (λ x. is_expired ttl_ms at (x.1) ≡ false) c
IsOrdered-fresh ttl_ms at oldest [] o h = tt
IsOrdered-fresh ttl_ms at oldest ((k, e) ∷ c) o h =
    (ground arith, IsOrdered-fresh ttl_ms at e.timestamp c o.1 (omega arith))

prune_entries-fresh :
    (ttl_ms at oldest : ℕ) (c : JsMap IdempotencyEntry)
    → IsOrdered oldest c
    → All (λ x. is_expired ttl_ms at (x.1) ≡ false) (prune_entries ttl_ms at c).0
unfolding prune_entries
prune_entries-fresh ttl_ms at oldest [] o = tt
prune_entries-fresh ttl_ms at oldest ((k, e) ∷ c) o = ground (
  arith,
  prune_entries-fresh ttl_ms at e.timestamp c o.1,
  IsOrdered-fresh ttl_ms at e.timestamp c o.1,
)

-- If the entries stand in the order of their times, pruning leaves no expired one.
pub prune_expired-fresh :
    (m : IdempotencyManager) (at : ℕ)
    → IsOrdered 0 m.cache
    → All (λ x. is_expired m.ttl_ms at (x.1) ≡ false) (prune_expired m at).0.cache
unfolding prune_expired
prune_expired-fresh m at o = prune_entries-fresh m.ttl_ms at 0 m.cache o

-- Two events are recorded in an empty cache of capacity 2 or more, and the first is checked when
-- the second is recorded, within its time to live. A prune at a time when only the first has
-- expired removes nothing, though the first is then answered as new.
pub prune_expired-refreshed :
    (hash : Fields → String) (capacity ttl_ms : ℕ) (a b : String) (ack : PulseEventEnvelope)
    (payload : Fields) (at later now : ℕ)
    → 2 ≤ capacity
    → a ≢ b
    → later ≤ at + ttl_ms
    → at + ttl_ms < now
    → now ≤ later + ttl_ms
    → let empty : IdempotencyManager = record {
      capacity = capacity;
      ttl_ms = ttl_ms;
      cache = [];
    } in
      let first = record_ack hash empty a ack payload at in
      let second = record_ack hash first b ack payload later in
      let refreshed = (check hash second a payload later).0 in
      ((prune_expired refreshed now).1 ≡ 0)
      × ((check hash refreshed a payload now).1 ≡ not_duplicate)
unfolding record_ack check get set delete prune_expired check_entry evict_oldest
prune_expired-refreshed hash capacity ttl_ms a b ack payload at later now h ne p q r = (
  ground (arith, eq_iff a b, eq_iff b a, =ₛ_refl a),
  ground (arith, eq_iff a b, eq_iff b a, =ₛ_refl a),
)
