-- ===== src/Uuidv7.antt =====
-- src/utils/uuidv7.ts. The two variables of the module are the state; the clock, the seeds from
-- `crypto.randomInt` and the random bytes are arguments. Texts are made from the bytes by the
-- platform and are left out.
pub mod Order
use pulse_distributed_real_t.Prelude.{
  ℕ, if◌then◌else◌, Option, List, ltb, some, [], ◌∷◌, ◌++◌, ◌==◌, suc, ◌+◌, ◌*◌, none, ◌/◌, ◌%◌,
  zero,
}
use mathlib.Core.Option.{none}
use Prim.Native.Nat.{zero}

pub record Sequence : Type 0 where
  pub last_ms : ℕ
  pub sequence_counter : ℕ

-- The state when the module is loaded.
abbrev pub fresh_sequence : Sequence
fresh_sequence = record { last_ms = 0; sequence_counter = 0 }

-- The state after the choice of the time, and the time that the id gets.
unfoldable pub next_sequence : Sequence → ℕ → ℕ → Sequence × ℕ
next_sequence s now seed =
    if ltb s.last_ms now
    then (record { last_ms = now; sequence_counter = seed }, now)
    else if now == s.last_ms
    then (if ltb 4095 (s.sequence_counter + 1)
        then (record { last_ms = now + 1; sequence_counter = 0 }, now + 1)
        else (record { last_ms = s.last_ms; sequence_counter = s.sequence_counter + 1 }, now))
    else (record { last_ms = s.last_ms; sequence_counter = s.sequence_counter + 1 }, s.last_ms)

-- With a custom timestamp only the counter is drawn anew.
unfoldable pub choose_time : Sequence → Option ℕ → ℕ → ℕ → Sequence × ℕ
unfolding next_sequence
choose_time s none now seed = next_sequence s now seed
choose_time s (some custom) now seed = (record s { sequence_counter = seed }, custom)

-- buffer.writeUIntBE(n, offset, bytes): the bytes of `n`, the most significant first.
unfoldable pub write_uint_be : ℕ → ℕ → List ℕ
write_uint_be n zero = []
write_uint_be n (suc count) = write_uint_be (n / 256) count ++ (n % 256 ∷ [])

-- bytes[8] = (bytes[8] & 0x3f) | 0x80
unfoldable pub set_variant : List ℕ → List ℕ
set_variant [] = []
set_variant (x ∷ random) = (128 + x % 64) ∷ random

-- The sixteen bytes: six of the time, two of the version and the counter, eight random ones.
unfoldable pub uuid_bytes : ℕ → ℕ → List ℕ → List ℕ
unfolding write_uint_be set_variant
uuid_bytes ms counter random =
    write_uint_be ms 6 ++ (write_uint_be (7 * 4096 + counter % 4096) 2 ++ set_variant random)

unfoldable pub generate_uuid : Sequence → Option ℕ → ℕ → ℕ → List ℕ → Sequence × List ℕ
unfolding choose_time uuid_bytes
generate_uuid s custom now seed random =
    let (t, ms) = choose_time s custom now seed in (t, uuid_bytes ms t.sequence_counter random)
