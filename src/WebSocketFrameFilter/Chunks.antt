-- ===== src/WebSocketFrameFilter/Chunks.antt =====
-- src/chaos/WebSocketFrameFilter.ts: how the stream is cut into chunks does not matter.
use pulse_distributed_real_t.WebSocketFrameFilter.{
  Buffer, prepend, String, Outcome, chunks, FrameDropPredicate, threw, next_frame, incomplete,
  too_long, forwarded, Scan, unfinished, frame,
}
use pulse_distributed_real_t.WebSocketFrameFilter.Bytes.{next_frame-append, follow}
use pulse_distributed_real_t.WebSocketFrameFilter.Progress.{
  run, run_incomplete, run_too_long, run_frame, frame_induction,
}
use pulse_distributed_real_t.Prelude.{
  String, List, Option, ◌≡◌, [], ap, subst, ◌++◌, sym, suc, refl, append_assoc, length, arith, ◌≢◌,
  ◌∙◌,
}

-- The outcomes of two calls as one: chunks follow chunks, and an error stays.
unfoldable pub combine : Outcome → Outcome → Outcome
unfolding prepend
combine (chunks output) later = prepend output later
combine (threw n) later = threw n
combine unfinished later = unfinished

prepend-combine :
    (output : List Buffer) (first later : Outcome)
    → prepend output (combine first later) ≡ combine (prepend output first) later
unfolding combine prepend
prepend-combine output (chunks xs) (chunks ys) = ap chunks (sym (append_assoc output xs ys))
prepend-combine output (chunks xs) (threw n) = refl
prepend-combine output (chunks xs) unfinished = refl
prepend-combine output (threw n) later = refl
prepend-combine output unfinished later = refl

pub nil-prepend : (later : Outcome) → prepend [] later ≡ later
unfolding prepend
nil-prepend (chunks xs) = refl
nil-prepend (threw n) = refl
nil-prepend unfinished = refl

module _ (utf8 : Buffer → String) (p : Option FrameDropPredicate) where
  -- What a call leaves in the buffer.
  unfoldable pub IsRest : Buffer → Outcome → Type 0
  IsRest b (chunks output) = next_frame utf8 b ≡ incomplete
  IsRest b (threw n) = next_frame utf8 b ≡ too_long n
  IsRest b unfinished = ⊥

  prepend-IsRest :
      (b : Buffer) (output : List Buffer) (o : Outcome) → IsRest b o → IsRest b (prepend output o)
  unfolding IsRest prepend
  prepend-IsRest b output (chunks xs) h = h
  prepend-IsRest b output (threw n) h = h
  prepend-IsRest b output unfinished h = elim h [ ]

  pub run-IsRest : (b : Buffer) → IsRest (run utf8 p b).0 (run utf8 p b).1
  unfolding IsRest
  run-IsRest b =
      let Result = λ (x : Buffer × Outcome). IsRest x.0 x.1 in
      frame_induction utf8 p (λ b. Result (run utf8 p b))
        (λ b e. subst Result (sym (run_incomplete utf8 p b e)) e)
        (λ b n e. subst Result (sym (run_too_long utf8 p b n e)) e)
        (λ b f raw rest e h.
          subst Result (sym (run_frame utf8 p b f raw rest e))
            (prepend-IsRest _ (forwarded utf8 p f raw) _ h))
        (suc (length b)) b (omega arith)

  -- What a scan has given, and then a scan of what it left with `c` after it.
  unfoldable pub go_on : Buffer → Buffer × Outcome → Buffer × Outcome
  unfolding combine
  go_on c (b, o) = ((run utf8 p (b ++ c)).0, combine o (run utf8 p (b ++ c)).1)

  go_on_frame :
      (c : Buffer) (output : List Buffer) (x : Buffer × Outcome)
      → go_on c (x.0, prepend output x.1) ≡ ((go_on c x).0, prepend output (go_on c x).1)
  unfolding go_on
  go_on_frame c output (b, o) =
      ap (λ y. ((run utf8 p (b ++ c)).0, y)) (sym (prepend-combine output o _))

  followed :
      (b c : Buffer) (s : Scan)
      → next_frame utf8 b ≡ s
      → s ≢ incomplete
      → next_frame utf8 (b ++ c) ≡ follow c s
  followed b c s e h = next_frame-append utf8 b c (λ k. h (sym e ∙ k)) ∙ ap (follow c) e

  -- Scanning a buffer and then what is left with more bytes is scanning all at once.
  pub run-append : (b c : Buffer) → run utf8 p (b ++ c) ≡ go_on c (run utf8 p b)
  unfolding combine go_on follow
  run-append b c =
      frame_induction utf8 p (λ b. run utf8 p (b ++ c) ≡ go_on c (run utf8 p b))
        (λ b e.
          ap (λ y. ((run utf8 p (b ++ c)).0, y)) (sym (nil-prepend (run utf8 p (b ++ c)).1))
          ∙ sym (ap (go_on c) (run_incomplete utf8 p b e)))
        (λ b n e.
          let whole =
            run_too_long utf8 p (b ++ c) n (followed b c (too_long n) e (λ h. ground (arith, h))) in
          whole
          ∙ ap (λ x. (x.0, threw n)) (sym whole)
          ∙ sym (ap (go_on c) (run_too_long utf8 p b n e)))
        (λ b f raw rest e h.
          run_frame utf8 p (b ++ c) f raw (rest ++ c)
            (followed b c (frame f raw rest) e (λ h. ground (arith, h)))
          ∙ ap (λ x. (x.0, prepend (forwarded utf8 p f raw) x.1)) h
          ∙ sym (go_on_frame c (forwarded utf8 p f raw) (run utf8 p rest))
          ∙ sym (ap (go_on c) (run_frame utf8 p b f raw rest e)))
        (suc (length b)) b (omega arith)
