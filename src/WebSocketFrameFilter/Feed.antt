-- ===== src/WebSocketFrameFilter/Feed.antt =====
-- src/chaos/WebSocketFrameFilter.ts: a stream fed in chunks.
use pulse_distributed_real_t.WebSocketFrameFilter.{
  Buffer, String, process_chunk, WebSocketFrameFilter, Outcome, FrameDropPredicate, next_frame,
  chunks, unfinished, incomplete, prepend, threw,
}
use pulse_distributed_real_t.WebSocketFrameFilter.Chunks.{
  combine, nil-prepend, IsRest, run-IsRest, run-append, go_on,
}
use pulse_distributed_real_t.WebSocketFrameFilter.Progress.{
  run, run_incomplete, run_too_long, run-finishes,
}
use pulse_distributed_real_t.Prelude.{
  String, Option, List, ℕ, ◌≢◌, [], ◌≡◌, ◌++◌, ◌∷◌, ap, ◌∙◌, concat, arith, sym, subst, refl,
  append-nil, append_assoc,
}

module _ (utf8 : Buffer → String) where
  -- A stream that arrives in chunks: the filter at the end, and all the outcomes as one.
  unfoldable pub feed : WebSocketFrameFilter → List Buffer → WebSocketFrameFilter × Outcome
  unfolding combine process_chunk
  feed f [] = (f, chunks [])
  feed f (c ∷ cs) =
      let (g, o) = process_chunk utf8 f c in let (h, later) = feed g cs in (h, combine o later)

  -- The whole buffer at once, whether bytes came or not.
  unfoldable pub at_once : WebSocketFrameFilter → Buffer → WebSocketFrameFilter × Outcome
  at_once f b =
      (record f { buffer = (run utf8 f.drop_predicate b).0 }, (run utf8 f.drop_predicate b).1)

  -- The call after which the buffer is `(run b).0`.
  feed-cons :
      (f : WebSocketFrameFilter) (x : ℕ) (c : Buffer) (cs : List Buffer)
      → let (g, o) = at_once f (f.buffer ++ (x ∷ c)) in
        feed f ((x ∷ c) ∷ cs) ≡ ((feed g cs).0, combine o (feed g cs).1)
  unfolding process_chunk at_once run feed
  feed-cons f x c cs = refl

  feed_nil-cons : (f : WebSocketFrameFilter) (cs : List Buffer) → feed f ([] ∷ cs) ≡ feed f cs
  unfolding feed process_chunk combine
  feed_nil-cons f cs = ap (λ y. ((feed f cs).0, y)) (nil-prepend (feed f cs).1)

  -- Scanning what a call has left changes nothing and finds nothing new.
  rest_again :
      (p : Option FrameDropPredicate) (b : Buffer) (o : Outcome)
      → IsRest utf8 p b o
      → ((run utf8 p b).0 ≡ b) × (combine o (chunks []) ≡ combine o (run utf8 p b).1)
  unfolding IsRest combine
  rest_again p b (chunks output) h =
      let again = run_incomplete utf8 p b h in
      (ap (λ x. x.0) again, ap (λ x. prepend output x.1) (sym again))
  rest_again p b (threw n) h = (ap (λ x. x.0) (run_too_long utf8 p b n h), refl)
  rest_again p b unfinished h = elim h [ ]

  -- The filter and, after the outcome `o`, the outcome of a feed are those of the buffer `b`.
  abbrev Agrees : WebSocketFrameFilter → Outcome → Buffer → WebSocketFrameFilter × Outcome → Type 0
  Agrees f o b x = (x.0 ≡ (at_once f b).0) × (combine o x.1 ≡ combine o (at_once f b).1)

  nothing_fed :
      (f : WebSocketFrameFilter) (o : Outcome)
      → let again = run utf8 f.drop_predicate f.buffer in
        (again.0 ≡ f.buffer) × (combine o (chunks []) ≡ combine o again.1)
        → Agrees f o f.buffer (f, chunks [])
  unfolding at_once
  nothing_fed f o (same, silent) = (ap (λ b. record f { buffer = b }) (sym same), silent)

  fed_after :
      (f : WebSocketFrameFilter) (o : Outcome) (b c : Buffer) (x : WebSocketFrameFilter × Outcome)
      → let first = run utf8 f.drop_predicate b in
        Agrees f first.1 (first.0 ++ c) x → Agrees f o (b ++ c) (x.0, combine first.1 x.1)
  unfolding at_once go_on
  fed_after f o b c x (same, later) =
      let whole = run-append utf8 f.drop_predicate b c in
      (
        same ∙ ap (λ y. record f { buffer = y.0 }) (sym whole),
        ap (combine o) (later ∙ ap (λ y. y.1) (sym whole)),
      )

  feed-combine :
      (f : WebSocketFrameFilter) (o : Outcome) (cs : List Buffer)
      → IsRest utf8 f.drop_predicate f.buffer o
      → Agrees f o (f.buffer ++ concat cs) (feed f cs)
  unfolding feed at_once
  feed-combine f o [] h =
      let again = rest_again f.drop_predicate f.buffer o h in
      subst (λ b. Agrees f o b (f, chunks [])) (sym (append-nil f.buffer)) (nothing_fed f o again)
  feed-combine f o ([] ∷ cs) h =
      subst (Agrees f o (f.buffer ++ concat cs)) (sym (feed_nil-cons f cs)) (feed-combine f o cs h)
  feed-combine f o ((x ∷ c) ∷ cs) h =
      let p = f.drop_predicate in
      let b = f.buffer ++ (x ∷ c) in
      let g : WebSocketFrameFilter = record f { buffer = (run utf8 p b).0 } in
      subst (Agrees f o (f.buffer ++ concat ((x ∷ c) ∷ cs))) (sym (feed-cons f x c cs)) (
        subst (λ a. Agrees f o a ((feed g cs).0, combine (run utf8 p b).1 (feed g cs).1))
          (append_assoc f.buffer (x ∷ c) (concat cs))
          (fed_after f o b (concat cs) (feed g cs)
            (feed-combine g (run utf8 p b).1 cs (run-IsRest utf8 p b))))

  pub process_chunk-at_once :
      (f : WebSocketFrameFilter) (c : Buffer)
      → next_frame utf8 f.buffer ≡ incomplete
      → process_chunk utf8 f c ≡ at_once f (f.buffer ++ c)
  unfolding process_chunk at_once run
  process_chunk-at_once f [] h =
      ap (λ x. (record f { buffer = x.0 }, x.1))
        (sym (run_incomplete utf8 f.drop_predicate f.buffer h))
      ∙ ap (at_once f) (sym (append-nil f.buffer))
  process_chunk-at_once f (x ∷ c) h = refl

  -- A filter whose buffer holds no complete frame and no length that is too large comes, when a
  -- stream is fed to it in chunks, to the same buffer and to the same outcome as when it gets the
  -- stream at once: the chunks forwarded one after the other, or the error.
  pub feed_lem :
      (f : WebSocketFrameFilter) (cs : List Buffer)
      → next_frame utf8 f.buffer ≡ incomplete
      → feed f cs ≡ process_chunk utf8 f (concat cs)
  unfolding combine IsRest
  feed_lem f cs h =
      let (same, later) = feed-combine f (chunks []) cs h in
      ap (λ x. (x, (feed f cs).1)) same
      ∙ ap (λ y. ((at_once f (f.buffer ++ concat cs)).0, y))
          (sym (nil-prepend (feed f cs).1) ∙ later ∙ nil-prepend _)
      ∙ sym (process_chunk-at_once f (concat cs) h)

  -- The loop over the buffer ends within the fuel that a call gives it, whatever the buffer holds.
  pub process_chunk-finishes :
      (f : WebSocketFrameFilter) (c : Buffer) → (process_chunk utf8 f c).1 ≢ unfinished
  unfolding process_chunk run
  process_chunk-finishes f [] h = ground (arith, h)
  process_chunk-finishes f (x ∷ c) h = run-finishes utf8 f.drop_predicate (f.buffer ++ (x ∷ c)) h
