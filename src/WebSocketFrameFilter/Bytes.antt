-- ===== src/WebSocketFrameFilter/Bytes.antt =====
-- src/chaos/WebSocketFrameFilter.ts: a frame found in a buffer is found again when bytes follow.
use pulse_distributed_real_t.WebSocketFrameFilter.{
  Buffer, byte_at, subarray, read_header, Scan, String, too_long, decode_frame, complete_frame,
  frame, header_incomplete, incomplete, Header, after_header, next_frame, header_too_long, header,
  unmasked, DecodedWebSocketFrame,
}
use pulse_distributed_real_t.Prelude.{
  String, ℕ, ◌≤◌, ◌<◌, length, Option, ◌≢◌, ◌++◌, ◌≡◌, arith, drop-append, Bool-cases, ◌∷◌,
  take-append, length-append, ltb, suc, ◌-◌, ◌+◌, drop, inl, [], length-drop, inr, zero, refl, some,
  none, false, ◌∙◌, ap, sym, ◌⊎◌,
}

byte_at-append : (b c : Buffer) (i : ℕ) → i < length b → byte_at (b ++ c) i ≡ byte_at b i
unfolding byte_at
byte_at-append [] c i h = absurd (omega arith)
byte_at-append (x ∷ b) c zero h = refl
byte_at-append (x ∷ b) c (suc i) h = byte_at-append b c i (omega arith)

subarray-append :
    (b c : Buffer) (from to : ℕ)
    → from ≤ to
    → to ≤ length b
    → subarray (b ++ c) from to ≡ subarray b from to
unfolding subarray
subarray-append b c from to h k =
    rw (drop-append from b c (omega arith))
      (take-append (to - from) (drop from b) c (omega (arith, length-drop from b)))

-- A header that is complete stays as it is.
read_header-append :
    (b c : Buffer)
    → 2 ≤ length b
    → read_header b ≢ header_incomplete
    → read_header (b ++ c) ≡ read_header b
unfolding read_header
read_header-append b c h complete = ground (
  arith,
  byte_at-append b c 1 (omega arith),
  length-append b c,
  subarray-append b c 2 4,
  subarray-append b c 2 10,
)

pub Scan-cases :
    (s : Scan)
    → (s ≡ incomplete)
      ⊎ ((n : ℕ) × (s ≡ too_long n))
      ⊎ ((f : DecodedWebSocketFrame) × (raw : Buffer) × (rest : Buffer) × (s ≡ frame f raw rest))
Scan-cases incomplete = inl refl
Scan-cases (too_long n) = inr (inl (n, refl))
Scan-cases (frame f raw rest) = inr (inr (f, raw, rest, refl))

-- What is found in a buffer, when `c` follows it.
unfoldable pub follow : Buffer → Scan → Scan
follow c incomplete = incomplete
follow c (too_long n) = too_long n
follow c (frame f raw rest) = frame f raw (rest ++ c)

-- A header takes two bytes at least.
abbrev pub IsLong : Header → Type 0
IsLong header_incomplete = Unit
IsLong (header_too_long n) = Unit
IsLong (header h n) = 2 ≤ h

pub read_header-IsLong : (b : Buffer) → IsLong (read_header b)
unfolding read_header
read_header-IsLong b = ground arith

module _ (utf8 : Buffer → String) where
  decode_frame-append :
      (b c : Buffer) (mask_key : Option Buffer) (n : ℕ) (payload : Buffer)
      → 2 ≤ length b
      → decode_frame utf8 (b ++ c) mask_key n payload ≡ decode_frame utf8 b mask_key n payload
  unfolding decode_frame
  decode_frame-append b c mask_key n payload h =
      rw (byte_at-append b c 0 (omega arith)) (rw (byte_at-append b c 1 (omega arith)) refl)

  complete_frame-append :
      (b c : Buffer) (h n : ℕ) (mask_key : Option Buffer)
      → 2 ≤ h
      → complete_frame utf8 b h n mask_key ≢ incomplete
      → complete_frame utf8 (b ++ c) h n mask_key ≡ follow c (complete_frame utf8 b h n mask_key)
  unfolding complete_frame follow
  complete_frame-append b c h n mask_key g complete = elim (Bool-cases (ltb (length b) (h + n))) [
    | inl short ↦ absurd (complete (rw short refl))
    | inr enough ↦ ground (
      arith,
      length-append b c,
      subarray-append b c h (h + n) (omega arith) (ground arith),
      subarray-append b c 0 (h + n) (omega arith) (ground arith),
      drop-append (h + n) b c (ground arith),
      decode_frame-append b c mask_key n (unmasked mask_key (subarray b h (h + n))) (ground arith),
    )
  ]

  after_header-append :
      (b c : Buffer) (h : Header)
      → 2 ≤ length b
      → IsLong h
      → after_header utf8 b h ≢ incomplete
      → after_header utf8 (b ++ c) h ≡ follow c (after_header utf8 b h)
  unfolding after_header follow
  after_header-append b c header_incomplete g k complete = absurd (complete refl)
  after_header-append b c (header_too_long n) g k complete = refl
  after_header-append b c (header h n) g k complete = ground (
    arith,
    length-append b c,
    byte_at-append b c 1 (omega arith),
    subarray-append b c h (h + 4),
    complete_frame-append b c (h + 4) n (some (subarray b h (h + 4))) (omega arith),
    complete_frame-append b c h n none k,
  )

  pub next_frame_long :
      (b : Buffer)
      → ltb (length b) 2 ≡ false
      → next_frame utf8 b ≡ after_header utf8 b (read_header b)
  unfolding next_frame
  next_frame_long b enough = rw enough refl

  pub next_frame-append :
      (b c : Buffer)
      → next_frame utf8 b ≢ incomplete
      → next_frame utf8 (b ++ c) ≡ follow c (next_frame utf8 b)
  unfolding next_frame after_header
  next_frame-append b c complete = elim (Bool-cases (ltb (length b) 2)) [
    | inl short ↦ absurd (complete (rw short refl))
    | inr enough ↦
        let here = next_frame_long b enough in
        next_frame_long (b ++ c) (ground (arith, length-append b c))
        ∙ ap (after_header utf8 (b ++ c)) (
            read_header-append b c (ground arith)
              (λ h. complete (here ∙ ap (after_header utf8 b) h)))
        ∙ after_header-append b c (read_header b) (ground arith) (read_header-IsLong b)
            (λ h. complete (here ∙ h))
        ∙ ap (follow c) (sym here)
  ]
