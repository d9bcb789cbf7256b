-- ===== src/WebSocketFrameFilter/Stream.antt =====
-- src/chaos/WebSocketFrameFilter.ts: whole frames in a stream, and which of them pass.
use pulse_distributed_real_t.WebSocketFrameFilter.Layout.{
  complete_frame-parts, after_header_plain, masked-parts,
}
use pulse_distributed_real_t.WebSocketFrameFilter.{
  Buffer, Option, unmasked, String, byte_at, DecodedWebSocketFrame, decode_frame, frame,
  after_header, next_frame, header, read_header,
}
use pulse_distributed_real_t.WebSocketFrameFilter.Bytes.{next_frame_long}
use pulse_distributed_real_t.WebSocketFrameFilter.Encoding.{
  bit, indicator, read_header-length_bytes, length_bytes,
}
use pulse_distributed_real_t.WebSocketFrameFilter.Frames.{
  Frame, IsFrame, encode, head, body, key_bytes, length-body, unmask-mask_by, IsKey, IsByte,
  second_byte, first_byte,
}
use pulse_distributed_real_t.Prelude.{
  Option, String, ℕ, some, All, is_some, ◌++◌, ◌≡◌, length, none, ◌∷◌, if◌then◌else◌, [], arith,
  ◌==◌, refl, Bool, leb, ◌<◌, ◌+◌, ◌/◌, ◌%◌, true, Bool-cases, false, inl, inr, ap, ◌∙◌, ltb, sym,
  append_assoc,
}
use mathlib.Core.Option.{none}
use mathlib.Core.Bool.{true, false}

unfoldable pub key_buffer : Option (ℕ × ℕ × ℕ × ℕ) → Option Buffer
unfolding key_bytes
key_buffer none = none
key_buffer (some k) = some (key_bytes (some k))

unmasked-body :
    (k : Option (ℕ × ℕ × ℕ × ℕ)) (xs : Buffer)
    → IsKey k
    → All IsByte xs
    → unmasked (key_buffer k) (body k xs) ≡ xs
unfolding unmasked key_buffer body key_bytes byte_at
unmasked-body none xs h g = refl
unmasked-body (some (a, b, c, d)) xs h g =
    unmask-mask_by (a ∷ b ∷ c ∷ d ∷ []) 0 a b c d xs (refl, refl, refl, refl) h g

module _ (utf8 : Buffer → String) where
  -- What the predicate should be shown of a frame.
  unfoldable pub decoded : Frame → DecodedWebSocketFrame
  decoded x = record {
    fin = x.fin;
    rsv = x.rsv;
    opcode = x.opcode;
    masked = is_some x.mask_key;
    mask_key = key_buffer x.mask_key;
    payload_length = length x.payload;
    payload = x.payload;
    text = if x.opcode == 1 then some (utf8 x.payload) else none;
  }

  bit-leb : (b : Bool) (n : ℕ) → n < 128 → leb 128 (bit b + n) ≡ b
  bit-leb true n h = ground arith
  bit-leb false n h = ground arith

  first_byte-fields :
      (x : Frame)
      → IsFrame x
      → (leb 128 (first_byte x) ≡ x.fin)
        × (first_byte x / 16 % 8 ≡ x.rsv)
        × (first_byte x % 16 ≡ x.opcode)
  first_byte-fields x h = elim (Bool-cases x.fin) [
    | inl e ↦ rw e ground (arith, h.rsv, h.opcode)
    | inr e ↦ rw e ground (arith, h.rsv, h.opcode)
  ]

  second_byte-masked : (x : Frame) → leb 128 (second_byte x) ≡ is_some x.mask_key
  unfolding second_byte indicator
  second_byte-masked x = bit-leb (is_some x.mask_key) (indicator (length x.payload)) (ground arith)

  decode_frame-encode :
      (x : Frame) (more : Buffer)
      → IsFrame x
      → decode_frame utf8 (head x ++ more) (key_buffer x.mask_key) (length x.payload) x.payload
        ≡ decoded x
  unfolding decode_frame decoded head byte_at
  decode_frame-encode x more h =
      let (fin, rsv, opcode) = first_byte-fields x h in
      let masked = second_byte-masked x in
      λ i. record {
        fin = fin i;
        rsv = rsv i;
        opcode = opcode i;
        masked = masked i;
        mask_key = key_buffer x.mask_key;
        payload_length = length x.payload;
        payload = x.payload;
        text = if opcode i == 1 then some (utf8 x.payload) else none;
      }

  -- What follows the header `front`: the key, if there is one, and the payload under it.
  abbrev parts : Buffer → Option (ℕ × ℕ × ℕ × ℕ) → Buffer → Buffer → Buffer
  parts front k xs rest = front ++ (key_bytes k ++ (body k xs ++ rest))

  after_header-parts :
      (front : Buffer) (k : Option (ℕ × ℕ × ℕ × ℕ)) (xs rest : Buffer)
      → leb 128 (byte_at (parts front k xs rest) 1) ≡ is_some k
      → IsKey k
      → All IsByte xs
      → after_header utf8 (parts front k xs rest) (header (length front) (length xs))
        ≡ frame
            (decode_frame utf8 (parts front k xs rest) (key_buffer k) (length xs) xs)
            (front ++ (key_bytes k ++ body k xs))
            rest
  unfolding key_bytes key_buffer body unmasked
  after_header-parts front none xs rest masked h g =
      after_header_plain utf8 (front ++ (xs ++ rest)) (length front) (length xs) masked
      ∙ complete_frame-parts utf8 front xs rest none
  after_header-parts front (some (a, b, c, d)) xs rest masked h g =
      let k = some (a, b, c, d) in
      let key = a ∷ b ∷ c ∷ d ∷ [] in
      let xored = body k xs in
      let whole = parts front k xs rest in
      ap (λ n. after_header utf8 whole (header (length front) n)) (sym (length-body k xs))
      ∙ masked-parts utf8 front key xored rest masked refl
      ∙ ap
          (λ n.
            frame (decode_frame utf8 whole (some key) n (unmasked (some key) xored))
              (front ++ (key ++ xored)) rest)
          (length-body k xs)
      ∙ ap
          (λ ys.
            frame (decode_frame utf8 whole (some key) (length xs) ys) (front ++ (key ++ xored))
              rest)
          (unmasked-body k xs h g)

  encode-parts :
      (x : Frame) (rest : Buffer) → encode x ++ rest ≡ parts (head x) x.mask_key x.payload rest
  unfolding encode
  encode-parts x rest =
      append_assoc (head x) (key_bytes x.mask_key ++ body x.mask_key x.payload) rest
      ∙ ap (λ b. head x ++ b) (append_assoc (key_bytes x.mask_key) (body x.mask_key x.payload) rest)

  byte_at-head : (x : Frame) (more : Buffer) → byte_at (head x ++ more) 1 ≡ second_byte x
  unfolding head byte_at
  byte_at-head x more = refl

  parts-encode :
      (x : Frame) (rest : Buffer)
      → IsFrame x
      → after_header utf8
          (parts (head x) x.mask_key x.payload rest)
          (header (length (head x)) (length x.payload))
        ≡ frame (decoded x) (encode x) rest
  unfolding encode
  parts-encode x rest h =
      let more = key_bytes x.mask_key ++ (body x.mask_key x.payload ++ rest) in
      after_header-parts (head x) x.mask_key x.payload rest
        (ap (leb 128) (byte_at-head x more) ∙ second_byte-masked x) h.key h.payload
      ∙ ap (λ f. frame f (encode x) rest) (decode_frame-encode x more h)

  read_header-head :
      (x : Frame) (more : Buffer)
      → IsFrame x
      → read_header (head x ++ more) ≡ header (length (head x)) (length x.payload)
  unfolding head second_byte
  read_header-head x more h =
      read_header-length_bytes (first_byte x) (is_some x.mask_key) (length x.payload) more h.bounded
      ∙ ap (λ n. header n (length x.payload)) {x = 2 + length (length_bytes (length x.payload))}
          {y = length (head x)} (omega arith)

  head-long : (x : Frame) (more : Buffer) → ltb (length (head x ++ more)) 2 ≡ false
  unfolding head
  head-long x more = ground arith

  -- A frame at the front of a buffer is found, with what it says and its very bytes.
  pub next_frame-encode :
      (x : Frame) (rest : Buffer)
      → IsFrame x
      → next_frame utf8 (encode x ++ rest) ≡ frame (decoded x) (encode x) rest
  next_frame-encode x rest h =
      let more = key_bytes x.mask_key ++ (body x.mask_key x.payload ++ rest) in
      ap (next_frame utf8) (encode-parts x rest)
      ∙ next_frame_long utf8 (head x ++ more) (head-long x more)
      ∙ ap (after_header utf8 (head x ++ more)) (read_header-head x more h)
      ∙ parts-encode x rest h
