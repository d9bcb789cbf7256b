-- ===== src/WebSocketFrameFilter/Encoding.antt =====
-- src/chaos/WebSocketFrameFilter.ts: frames written as RFC 6455 says are found in the stream.
use Prim.Native.Nat.{bit_xor, ℕ, suc, zero}
use pulse_distributed_real_t.WebSocketFrameFilter.{
  Buffer, ◌==◌, read_uint_be, max_safe_integer, read_header, byte_at, subarray, header,
}
use pulse_distributed_real_t.Prelude.{
  ℕ, ◌==◌, Bool, ◌≡◌, ◌<◌, ◌/◌, ◌≤◌, true, arith, ◌%◌, ◌∷◌, refl, ◌&&◌, [], zero, if◌then◌else◌,
  ◌+◌, false, ltb, ◌++◌, length, Bool-cases, inl, inr,
}
use mathlib.Core.Bool.{false}

-- Exclusive or twice, for bytes.
all_below : ℕ → (ℕ → Bool) → Bool
all_below zero p = true
all_below (suc n) p = p n && all_below n p

xor_table : all_below 256 (λ x. all_below 256 (λ k. bit_xor (bit_xor x k) k == x)) ≡ true
unfolding all_below
xor_table = refl

all_below-true : (n : ℕ) (p : ℕ → Bool) (x : ℕ) → all_below n p ≡ true → x < n → p x ≡ true
unfolding all_below
all_below-true zero p x h lt = absurd (omega arith)
all_below-true (suc n) p x h lt = ground (arith, all_below-true n p x)

pub bit_xor_twice : (x k : ℕ) → x < 256 → k < 256 → bit_xor (bit_xor x k) k ≡ x
bit_xor_twice x k h g = ground (
  arith,
  all_below-true 256 (λ k. bit_xor (bit_xor x k) k == x) k
      (all_below-true 256 (λ x. all_below 256 (λ k. bit_xor (bit_xor x k) k == x)) x xor_table h) g,
)

bytes_2 : ℕ → Buffer
bytes_2 n = n / 256 % 256 ∷ n % 256 ∷ []

read_2 : (n : ℕ) → n < 65536 → read_uint_be 0 (bytes_2 n) ≡ n
unfolding read_uint_be bytes_2
read_2 n h = omega arith

bytes_8 : ℕ → Buffer
bytes_8 n =
    n / 72057594037927936 % 256
    ∷ n / 281474976710656 % 256
    ∷ n / 1099511627776 % 256
    ∷ n / 4294967296 % 256
    ∷ n / 16777216 % 256
    ∷ n / 65536 % 256
    ∷ n / 256 % 256
    ∷ n % 256
    ∷ []

read_8 : (n : ℕ) → n ≤ max_safe_integer → read_uint_be 0 (bytes_8 n) ≡ n
unfolding read_uint_be bytes_8
read_8 n h = omega arith

-- The length as RFC 6455 writes it, in the shortest form.
unfoldable pub indicator : ℕ → ℕ
indicator n = if ltb n 126 then n else if ltb n 65536 then 126 else 127

unfoldable pub length_bytes : ℕ → Buffer
unfolding bytes_2 bytes_8
length_bytes n = if ltb n 126 then [] else if ltb n 65536 then bytes_2 n else bytes_8 n

abbrev pub bit : Bool → ℕ
bit true = 128
bit false = 0

bit-indicator : (b : Bool) (n : ℕ) → (bit b + indicator n) % 128 ≡ indicator n
unfolding indicator
bit-indicator true n = ground arith
bit-indicator false n = ground arith

-- The header, once the indicator has been read from the second byte.
read_from_indicator :
    (x y n : ℕ) (more : Buffer)
    → y % 128 ≡ indicator n
    → n ≤ max_safe_integer
    → read_header (x ∷ y ∷ (length_bytes n ++ more)) ≡ header (2 + length (length_bytes n)) n
unfolding read_header length_bytes byte_at subarray indicator bytes_2 bytes_8
read_from_indicator x y n more e h = elim (Bool-cases (ltb n 126)) [
  | inl tiny ↦ ground arith
  | inr large ↦ elim (Bool-cases (ltb n 65536)) [
    | inl short ↦ ground (arith, read_2 n (ground arith))
    | inr long ↦ ground (arith, read_8 n h)
  ]
]

pub read_header-length_bytes :
    (x : ℕ) (b : Bool) (n : ℕ) (more : Buffer)
    → n ≤ max_safe_integer
    → read_header (x ∷ (bit b + indicator n) ∷ (length_bytes n ++ more))
      ≡ header (2 + length (length_bytes n)) n
read_header-length_bytes x b n more h = read_from_indicator x _ n more (bit-indicator b n) h
