-- ===== src/WebSocketFrameFilter/Frames.antt =====
-- src/chaos/WebSocketFrameFilter.ts: whole frames in a stream, and which of them pass.
use Prim.Native.Nat.{bit_xor, ℕ, ◌<◌, suc}
use pulse_distributed_real_t.WebSocketFrameFilter.{
  Buffer, Bool, Option, ◌++◌, unmask, subarray, drop, byte_at, max_safe_integer,
}
use pulse_distributed_real_t.WebSocketFrameFilter.Encoding.{
  bit, indicator, length_bytes, bit_xor_twice,
}
use pulse_distributed_real_t.Prelude.{
  Bool, ℕ, Option, ◌<◌, ◌+◌, ◌++◌, drop, some, All, ◌∷◌, [], length, ◌*◌, is_some, ◌≡◌, ◌≤◌, ◌%◌,
  none, arith, drop-length-append, ap, suc, refl, ◌∙◌, take, length-append, sym, ◌-◌,
  take-length-append, append_assoc,
}
use mathlib.Core.Option.{none}

-- A frame as a client or a server means it; a masking key has four bytes.
pub record Frame : Type 0 where
  pub fin : Bool
  pub rsv : ℕ
  pub opcode : ℕ
  pub mask_key : Option (ℕ × ℕ × ℕ × ℕ)
  pub payload : Buffer

abbrev pub IsByte : ℕ → Type 0
IsByte x = x < 256

abbrev pub IsKey : Option (ℕ × ℕ × ℕ × ℕ) → Type 0
IsKey none = Unit
IsKey (some (a, b, c, d)) = IsByte a × IsByte b × IsByte c × IsByte d

pub record IsFrame (x : Frame) : Type 0 where
  pub rsv : x.rsv < 8
  pub opcode : x.opcode < 16
  pub key : IsKey x.mask_key
  pub payload : All IsByte x.payload
  pub bounded : length x.payload ≤ max_safe_integer

-- The four bytes of the key take turns.
unfoldable pub mask_by : ℕ → ℕ → ℕ → ℕ → Buffer → Buffer
mask_by a b c d [] = []
mask_by a b c d (x ∷ xs) = bit_xor x a ∷ mask_by b c d a xs

unfoldable pub key_bytes : Option (ℕ × ℕ × ℕ × ℕ) → Buffer
key_bytes none = []
key_bytes (some (a, b, c, d)) = a ∷ b ∷ c ∷ d ∷ []

unfoldable pub body : Option (ℕ × ℕ × ℕ × ℕ) → Buffer → Buffer
unfolding mask_by
body none payload = payload
body (some (a, b, c, d)) payload = mask_by a b c d payload

abbrev pub first_byte : Frame → ℕ
first_byte x = bit x.fin + x.rsv * 16 + x.opcode

unfoldable pub second_byte : Frame → ℕ
unfolding indicator
second_byte x = bit (is_some x.mask_key) + indicator (length x.payload)

unfoldable pub head : Frame → Buffer
unfolding second_byte length_bytes
head x = first_byte x ∷ second_byte x ∷ length_bytes (length x.payload)

unfoldable pub encode : Frame → Buffer
unfolding head key_bytes body
encode x = head x ++ (key_bytes x.mask_key ++ body x.mask_key x.payload)

length-mask_by : (a b c d : ℕ) (xs : Buffer) → length (mask_by a b c d xs) ≡ length xs
unfolding mask_by
length-mask_by a b c d [] = refl
length-mask_by a b c d (x ∷ xs) = omega (arith, length-mask_by b c d a xs)

pub length-body : (k : Option (ℕ × ℕ × ℕ × ℕ)) (xs : Buffer) → length (body k xs) ≡ length xs
unfolding body
length-body none xs = refl
length-body (some (a, b, c, d)) xs = length-mask_by a b c d xs

-- Where the key has `a`, `b`, `c`, `d` from the index `i` on, in turn, the mask comes off.
pub unmask-mask_by :
    (key : Buffer) (i a b c d : ℕ) (xs : Buffer)
    → (byte_at key (i % 4) ≡ a)
      × (byte_at key ((i + 1) % 4) ≡ b)
      × (byte_at key ((i + 2) % 4) ≡ c)
      × (byte_at key ((i + 3) % 4) ≡ d)
    → IsKey (some (a, b, c, d))
    → All IsByte xs
    → unmask key i (mask_by a b c d xs) ≡ xs
unfolding mask_by unmask
unmask-mask_by key i a b c d [] e h k = refl
unmask-mask_by key i a b c d (x ∷ xs) (e, f, g, u) (ha, hb, hc, hd) (hx, hxs) =
    let next =
      unmask-mask_by key (suc i) b c d a xs
        (
          ap (λ j. byte_at key (j % 4)) {x = suc i} {y = i + 1} (omega arith) ∙ f,
          ap (λ j. byte_at key (j % 4)) {x = suc i + 1} {y = i + 2} (omega arith) ∙ g,
          ap (λ j. byte_at key (j % 4)) {x = suc i + 2} {y = i + 3} (omega arith) ∙ u,
          ap (byte_at key) {x = (suc i + 3) % 4} {y = i % 4} (omega arith) ∙ e,
        )
        (hb, hc, hd, ha) hxs in
    rw (e) (rw next (rw (bit_xor_twice x a hx ha) refl))

-- A buffer cut where its parts meet.
module _ (front middle rest : Buffer) where
  pub subarray-middle :
      subarray (front ++ (middle ++ rest)) (length front) (length front + length middle) ≡ middle
  unfolding subarray
  subarray-middle = rw (drop-length-append front (middle ++ rest)) (
      ap (λ n. take n (middle ++ rest)) {x = length front + length middle - length front}
        {y = length middle} (omega arith)
      ∙ take-length-append middle rest)

  pub subarray-front :
      subarray (front ++ (middle ++ rest)) 0 (length front + length middle) ≡ front ++ middle
  unfolding subarray
  subarray-front =
      ap (λ n. take n (front ++ (middle ++ rest))) {x = length front + length middle - 0}
        {y = length (front ++ middle)} (omega (arith, length-append front middle))
      ∙ ap (take (length (front ++ middle))) (sym (append_assoc front middle rest))
      ∙ take-length-append (front ++ middle) rest

  pub drop-front : drop (length front + length middle) (front ++ (middle ++ rest)) ≡ rest
  drop-front =
      ap (λ n. drop n (front ++ (middle ++ rest))) {x = length front + length middle}
        {y = length (front ++ middle)} (omega (arith, length-append front middle))
      ∙ ap (drop (length (front ++ middle))) (sym (append_assoc front middle rest))
      ∙ drop-length-append (front ++ middle) rest
