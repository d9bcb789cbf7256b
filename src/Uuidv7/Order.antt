-- ===== src/Uuidv7/Order.antt =====
-- src/utils/uuidv7.ts: in what order the ids of a process stand.
use pulse_distributed_real_t.Uuidv7.{
  Sequence, List, ℕ, uuid_bytes, write_uint_be, next_sequence, generate_uuid, choose_time,
}
use pulse_distributed_real_t.WebSocketFrameFilter.{read_uint_be}
use pulse_distributed_real_t.Prelude.{
  List, ℕ, take, ◌*◌, ◌<◌, ◌+◌, ◌≡◌, ◌%◌, arith, ◌≤◌, suc, none, ◌⊎◌, zero, inl, inr, ◌-◌, refl,
}
use Prim.Native.Nat.{zero}

-- The first eight bytes as one number, by which ids are sorted up to their random part.
unfoldable pub rank : List ℕ → ℕ
unfolding read_uint_be
rank id = read_uint_be 0 (take 8 id)

-- The rank of the last id that was made from a state.
unfoldable pub rank_of : Sequence → ℕ
rank_of s = s.last_ms * 65536 + 28672 + s.sequence_counter % 4096

-- Six bytes of time, two of version and counter.
rank-uuid_bytes :
    (ms counter : ℕ) (random : List ℕ)
    → ms < 281_474_976_710_656
    → rank (uuid_bytes ms counter random) ≡ ms * 65536 + 28672 + counter % 4096
unfolding rank uuid_bytes write_uint_be read_uint_be
rank-uuid_bytes ms counter random h = omega arith

-- The counter fits in its twelve bits.
abbrev pub IsCounting : Sequence → Type 0
IsCounting s = s.sequence_counter < 4096

-- The clock, the seed and the time of the id fit in their fields.
abbrev pub IsInRange : Sequence → ℕ → ℕ → Type 0
IsInRange s now seed =
    (s.last_ms < 281_474_976_710_655) × (now < 281_474_976_710_655) × (seed < 1023)

next_sequence-time :
    (s : Sequence) (now seed : ℕ)
    → (next_sequence s now seed).1 ≡ (next_sequence s now seed).0.last_ms
unfolding next_sequence
next_sequence-time s now seed = ground arith

next_sequence-bounded :
    (s : Sequence) (now seed : ℕ)
    → IsInRange s now seed
    → (next_sequence s now seed).1 < 281_474_976_710_656
unfolding next_sequence
next_sequence-bounded s now seed h = ground (arith, h)

-- An id bears the rank of the state that it leaves.
rank-generate :
    (s : Sequence) (now seed : ℕ) (random : List ℕ)
    → IsInRange s now seed
    → let (t, id) = generate_uuid s none now seed random in rank id ≡ rank_of t
unfolding generate_uuid choose_time rank_of
rank-generate s now seed random h = omega (
  arith,
  rank-uuid_bytes (next_sequence s now seed).1 (next_sequence s now seed).0.sequence_counter random
      (next_sequence-bounded s now seed h),
  next_sequence-time s now seed,
)

next_sequence-ascends :
    (s : Sequence) (now seed : ℕ)
    → IsCounting s
    → IsInRange s now seed
    → (s.last_ms ≤ now) ⊎ (s.sequence_counter < 4095)
    → IsCounting (next_sequence s now seed).0 × (rank_of s < rank_of (next_sequence s now seed).0)
unfolding next_sequence rank_of
next_sequence-ascends s now seed c h (inl g) = ground (arith, c, h, g)
next_sequence-ascends s now seed c h (inr g) = ground (arith, c, h, g)

-- Unless the clock is behind the last time and the counter is at its highest value, an id ranks
-- above what the state stood for, and the state that it leaves stands for it with a counter that
-- fits its twelve bits. The times fit in 48 bits and the seed is one that the code may draw.
pub generate_uuid-ascends :
    (s : Sequence) (now seed : ℕ) (random : List ℕ)
    → IsCounting s
    → IsInRange s now seed
    → (s.last_ms ≤ now) ⊎ (s.sequence_counter < 4095)
    → let (t, id) = generate_uuid s none now seed random in
      IsCounting t × (rank id ≡ rank_of t) × (rank_of s < rank id)
unfolding generate_uuid choose_time
generate_uuid-ascends s now seed random c h g =
    let (counting, above) = next_sequence-ascends s now seed c h g in
    let same = rank-generate s now seed random h in (counting, same, omega (arith, same, above))

-- The states after `n` ids while the clock stands still.
unfoldable pub after_ids : ℕ → ℕ → Sequence → Sequence
unfolding next_sequence
after_ids zero now s = s
after_ids (suc n) now s = after_ids n now (next_sequence s now 0).0

after_ids_behind :
    (n now : ℕ) (s : Sequence)
    → now < s.last_ms
    → ((after_ids n now s).last_ms ≡ s.last_ms)
      × ((after_ids n now s).sequence_counter ≡ s.sequence_counter + n)
unfolding after_ids next_sequence
after_ids_behind zero now s h = (refl, omega arith)
after_ids_behind (suc n) now s h =
    ground
      (arith, after_ids_behind n now (record s { sequence_counter = s.sequence_counter + 1 }) h)

-- While the clock stays behind the last time, with a counter above 0, the id that takes the counter
-- past twelve bits ranks below what the state stood for at first. The times fit in 48 bits.
pub generate_uuid-descends :
    (s : Sequence) (now seed : ℕ) (random : List ℕ)
    → IsCounting s
    → IsInRange s now seed
    → 0 < s.sequence_counter
    → now < s.last_ms
    → let t = after_ids (4095 - s.sequence_counter) now s in
      rank (generate_uuid t none now seed random).1 < rank_of s
unfolding generate_uuid choose_time next_sequence rank_of
generate_uuid-descends s now seed random c h g behind =
    let n = 4095 - s.sequence_counter in
    let t = after_ids n now s in
    let (time, count) = after_ids_behind n now s behind in
    ground (
      arith,
      time,
      count,
      c,
      g,
      rank-generate t now seed random (omega (arith, time, h.0), h.1, h.2),
    )
