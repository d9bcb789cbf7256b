-- ===== src/WebSocketFrameFilter/Progress.antt =====
-- src/chaos/WebSocketFrameFilter.ts: a frame takes bytes from the buffer, so that the loop ends.
use pulse_distributed_real_t.WebSocketFrameFilter.Bytes.{IsLong, read_header-IsLong, Scan-cases}
use pulse_distributed_real_t.WebSocketFrameFilter.{
  header_incomplete, header_too_long, header, Buffer, Scan, String, too_long, complete_frame,
  after_header, next_frame, frame, subarray, Header, FrameDropPredicate, scan, Outcome,
  DecodedWebSocketFrame, incomplete, threw, prepend, decode_frame, read_header, chunks, forwarded,
  unmasked, header_too_long, header, unfinished, byte_at,
}
use pulse_distributed_real_t.Prelude.{
  String, Option, if-holds, ℕ, ◌≤◌, ltb, ◌++◌, ◌≡◌, length, suc, ◌<◌, ◌+◌, arith, [], subst, drop,
  take-append-drop, length-drop, ap, inl, ◌≢◌, take, inr, some, ◌-◌, zero, ◌∙◌, leb, if◌then◌else◌,
  none, refl,
}

-- A frame is the front of its buffer, and is not empty.
abbrev pub IsCut : Buffer → Scan → Type 0
IsCut b incomplete = Unit
IsCut b (too_long n) = Unit
IsCut b (frame f raw rest) = (raw ++ rest ≡ b) × (length rest < length b)

module _ (utf8 : Buffer → String) where
  complete_frame-IsCut :
      (b : Buffer) (h n : ℕ) (mask_key : Option Buffer)
      → 2 ≤ length b
      → 2 ≤ h
      → IsCut b (complete_frame utf8 b h n mask_key)
  unfolding complete_frame subarray
  complete_frame-IsCut b h n mask_key long g =
      if-holds (IsCut b) (ltb (length b) (h + n)) incomplete
        (frame (decode_frame utf8 b mask_key n (unmasked mask_key (subarray b h (h + n))))
          (subarray b 0 (h + n)) (drop (h + n) b))
        (λ _. tt)
        (λ _. (
          ap (λ k. take k b ++ drop (h + n) b) {x = h + n - 0} {y = h + n} (omega arith)
              ∙ take-append-drop (h + n) b,
          omega (arith, length-drop (h + n) b),
        ))

  after_header-IsCut :
      (b : Buffer) (h : Header) → 2 ≤ length b → IsLong h → IsCut b (after_header utf8 b h)
  unfolding after_header
  after_header-IsCut b header_incomplete long g = tt
  after_header-IsCut b (header_too_long n) long g = tt
  after_header-IsCut b (header h n) long g =
      let full = complete_frame utf8 b (h + 4) n (some (subarray b h (h + 4))) in
      if-holds (IsCut b) (leb 128 (byte_at b 1))
        (if ltb (length b) (h + 4) then incomplete else full) (complete_frame utf8 b h n none)
        (λ _.
          if-holds (IsCut b) (ltb (length b) (h + 4)) incomplete full (λ _. tt)
            (λ _.
              complete_frame-IsCut b (h + 4) n (some (subarray b h (h + 4))) long (omega arith)))
        (λ _. complete_frame-IsCut b h n none long g)

  pub next_frame-IsCut : (b : Buffer) → IsCut b (next_frame utf8 b)
  unfolding next_frame
  next_frame-IsCut b =
      if-holds (IsCut b) (ltb (length b) 2) incomplete (after_header utf8 b (read_header b))
        (λ _. tt) (λ h. after_header-IsCut b (read_header b) (ground arith) (read_header-IsLong b))

module _ (utf8 : Buffer → String) (p : Option FrameDropPredicate) where
  -- With more fuel than bytes, the amount of the fuel does not matter.
  pub scan_fuel :
      (n m : ℕ) (b : Buffer) → length b < n → length b < m → scan utf8 p n b ≡ scan utf8 p m b
  unfolding scan
  scan_fuel zero m b h k = absurd (omega arith)
  scan_fuel (suc n) zero b h k = absurd (omega arith)
  scan_fuel (suc n) (suc m) b h k = elim (Scan-cases (next_frame utf8 b)) [
    | inl e ↦ rw (e, scan) refl
    | inr (inl (l, e)) ↦ rw (e, scan) refl
    | inr (inr (f, raw, rest, e)) ↦
        let cut = subst (IsCut b) e (next_frame-IsCut utf8 b) in
        rw (e, scan) (rw (scan_fuel n m rest (omega (arith, cut.1)) (omega (arith, cut.1))) refl)
  ]

  -- The loop with enough fuel.
  unfoldable pub run : Buffer → Buffer × Outcome
  run b = scan utf8 p (suc (length b)) b

  scan_incomplete :
      (n : ℕ) (b : Buffer) → next_frame utf8 b ≡ incomplete → scan utf8 p (suc n) b ≡ (b, chunks [])
  unfolding scan
  scan_incomplete n b e = rw (e, scan) refl

  scan_too_long :
      (n : ℕ) (b : Buffer) (l : ℕ)
      → next_frame utf8 b ≡ too_long l
      → scan utf8 p (suc n) b ≡ (b, threw l)
  unfolding scan
  scan_too_long n b l e = rw (e, scan) refl

  pub run_incomplete : (b : Buffer) → next_frame utf8 b ≡ incomplete → run b ≡ (b, chunks [])
  unfolding run
  run_incomplete b e = scan_incomplete (length b) b e

  pub run_too_long : (b : Buffer) (l : ℕ) → next_frame utf8 b ≡ too_long l → run b ≡ (b, threw l)
  unfolding run
  run_too_long b l e = scan_too_long (length b) b l e

  scan_frame :
      (n : ℕ) (b : Buffer) (f : DecodedWebSocketFrame) (raw rest : Buffer)
      → next_frame utf8 b ≡ frame f raw rest
      → length b ≤ n
      → scan utf8 p (suc n) b ≡ ((run rest).0, prepend (forwarded utf8 p f raw) (run rest).1)
  unfolding run scan
  scan_frame n b f raw rest e enough =
      let cut = subst (IsCut b) e (next_frame-IsCut utf8 b) in
      rw (e, scan)
        (rw (scan_fuel n (suc (length rest)) rest (omega (arith, cut.1)) (omega arith)) refl)

  pub run_frame :
      (b : Buffer) (f : DecodedWebSocketFrame) (raw rest : Buffer)
      → next_frame utf8 b ≡ frame f raw rest
      → run b ≡ ((run rest).0, prepend (forwarded utf8 p f raw) (run rest).1)
  unfolding run
  run_frame b f raw rest e = scan_frame (length b) b f raw rest e (omega arith)

  -- A property of all buffers holds if it passes from what a frame leaves to the buffer.
  pub frame_induction {κ} :
      (P : Buffer → Type κ)
      → ((b : Buffer) → next_frame utf8 b ≡ incomplete → P b)
      → ((b : Buffer) (l : ℕ) → next_frame utf8 b ≡ too_long l → P b)
      → ((b : Buffer) (f : DecodedWebSocketFrame) (raw rest : Buffer)
          → next_frame utf8 b ≡ frame f raw rest
          → P rest
          → P b)
      → (n : ℕ) (b : Buffer) → length b < n
      → P b
  frame_induction P short long step zero b h = absurd (omega arith)
  frame_induction P short long step (suc n) b h = elim (Scan-cases (next_frame utf8 b)) [
    | inl e ↦ short b e
    | inr (inl (l, e)) ↦ long b l e
    | inr (inr (f, raw, rest, e)) ↦
        let cut = subst (IsCut b) e (next_frame-IsCut utf8 b) in
        step b f raw rest e (frame_induction P short long step n rest (omega (arith, cut.1)))
  ]

  pub run-finishes : (b : Buffer) → (run b).1 ≢ unfinished
  unfolding prepend
  run-finishes b =
      frame_induction (λ b. (run b).1 ≢ unfinished)
        (λ b e h. ground (arith, ap (λ x. x.1) (run_incomplete b e)))
        (λ b l e h. ground (arith, ap (λ x. x.1) (run_too_long b l e)))
        (λ b f raw rest e later h. ground (arith, later, ap (λ x. x.1) (run_frame b f raw rest e)))
        (suc (length b)) b (omega arith)
