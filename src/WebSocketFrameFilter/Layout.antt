-- ===== src/WebSocketFrameFilter/Layout.antt =====
-- src/chaos/WebSocketFrameFilter.ts: what a turn of the loop finds in a buffer with known parts.
use pulse_distributed_real_t.WebSocketFrameFilter.{
  Buffer, Option, unmasked, String, byte_at, complete_frame, decode_frame, frame, after_header,
  header, subarray, incomplete,
}
use pulse_distributed_real_t.WebSocketFrameFilter.Frames.{
  subarray-middle, subarray-front, drop-front,
}
use pulse_distributed_real_t.Prelude.{
  Option, String, ℕ, some, ◌++◌, ◌≡◌, length, none, if◌then◌else◌, arith, length-append, leb, ◌+◌,
  true, false, ap, ◌≤◌, ◌∙◌, ltb, sym, append_assoc, subst,
}
use mathlib.Core.Option.{none}
use mathlib.Core.Bool.{true, false}

module _ (utf8 : Buffer → String) where
  -- A buffer that starts with all of a frame.
  pub complete_frame-parts :
      (front middle rest : Buffer) (k : Option Buffer)
      → let b = front ++ (middle ++ rest) in
        complete_frame utf8 b (length front) (length middle) k
        ≡ frame (decode_frame utf8 b k (length middle) (unmasked k middle)) (front ++ middle) rest
  unfolding complete_frame
  complete_frame-parts front middle rest k = ground (
    arith,
    length-append front (middle ++ rest),
    length-append middle rest,
    subarray-middle front middle rest,
    subarray-front front middle rest,
    drop-front front middle rest,
  )

  pub after_header_plain :
      (b : Buffer) (h n : ℕ)
      → leb 128 (byte_at b 1) ≡ false
      → after_header utf8 b (header h n) ≡ complete_frame utf8 b h n none
  unfolding after_header
  after_header_plain b h n plain =
      ap
        (λ c.
          if c
          then (if ltb (length b) (h + 4)
              then incomplete
              else complete_frame utf8 b (h + 4) n (some (subarray b h (h + 4))))
          else complete_frame utf8 b h n none)
        plain

  pub after_header_masked :
      (b : Buffer) (h n : ℕ)
      → leb 128 (byte_at b 1) ≡ true
      → h + 4 ≤ length b
      → after_header utf8 b (header h n)
        ≡ complete_frame utf8 b (h + 4) n (some (subarray b h (h + 4)))
  unfolding after_header
  after_header_masked b h n masked enough =
      let key = some (subarray b h (h + 4)) in
      ap
        (λ c.
          if c
          then (if ltb (length b) (h + 4) then incomplete else complete_frame utf8 b (h + 4) n key)
          else complete_frame utf8 b h n none)
        masked
      ∙ ap (λ c. if c then incomplete else complete_frame utf8 b (h + 4) n key)
          {x = ltb (length b) (h + 4)} {y = false} (ground arith)

  -- A masked frame, whose key is `key`.
  pub masked-parts :
      (front key middle rest : Buffer)
      → leb 128 (byte_at (front ++ (key ++ (middle ++ rest))) 1) ≡ true
      → length key ≡ 4
      → let b = front ++ (key ++ (middle ++ rest)) in
        after_header utf8 b (header (length front) (length middle))
        ≡ frame
            (decode_frame utf8 b (some key) (length middle) (unmasked (some key) middle))
            (front ++ (key ++ middle))
            rest
  masked-parts front key middle rest masked four =
      let b = front ++ (key ++ (middle ++ rest)) in
      let at_key =
        ap (λ n. subarray b (length front) (length front + n)) (sym four)
        ∙ subarray-middle front key (middle ++ rest) in
      let regrouped = append_assoc front key (middle ++ rest) in
      after_header_masked b (length front) (length middle) masked (
        omega (
          arith,
          length-append front (key ++ (middle ++ rest)),
          length-append key (middle ++ rest),
        ))
      ∙ ap (λ k. complete_frame utf8 b (length front + 4) (length middle) (some k)) at_key
      ∙ ap (λ n. complete_frame utf8 b n (length middle) (some key)) {x = length front + 4}
          {y = length (front ++ key)} (omega (arith, length-append front key))
      ∙ subst
          (λ c.
            complete_frame utf8 c (length (front ++ key)) (length middle) (some key)
            ≡ frame (decode_frame utf8 c (some key) (length middle) (unmasked (some key) middle))
                (front ++ key ++ middle) rest)
          regrouped (complete_frame-parts (front ++ key) middle rest (some key))
      ∙ ap
          (λ raw.
            frame (decode_frame utf8 b (some key) (length middle) (unmasked (some key) middle)) raw
              rest)
          (append_assoc front key middle)
