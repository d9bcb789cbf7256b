-- ===== src/WebSocketFrameFilter/Filtering.antt =====
-- src/chaos/WebSocketFrameFilter.ts: which frames of a stream pass.
use pulse_distributed_real_t.WebSocketFrameFilter.{
  Buffer, next_frame, String, FrameDropPredicate, incomplete, forwarded, prepend, new_frame_filter,
  chunks,
}
use pulse_distributed_real_t.WebSocketFrameFilter.Frames.{Frame, IsFrame, encode}
use pulse_distributed_real_t.WebSocketFrameFilter.Stream.{decoded, next_frame-encode}
use pulse_distributed_real_t.WebSocketFrameFilter.Progress.{run, run_incomplete, run_frame}
use pulse_distributed_real_t.WebSocketFrameFilter.Feed.{
  feed, feed_lem, at_once, process_chunk-at_once,
}
use pulse_distributed_real_t.Prelude.{
  String, [], Option, ◌≡◌, List, refl, ◌∷◌, All, concat, ◌++◌, map, ◌∙◌, ap,
}

nothing_there : (utf8 : Buffer → String) → next_frame utf8 [] ≡ incomplete
unfolding next_frame
nothing_there utf8 = refl

module _ (utf8 : Buffer → String) (p : Option FrameDropPredicate) where
  -- The bytes of the frames that the predicate keeps.
  unfoldable pub kept : List Frame → List Buffer
  unfolding forwarded decoded encode
  kept [] = []
  kept (x ∷ xs) = forwarded utf8 p (decoded utf8 x) (encode x) ++ kept xs

  run-encode :
      (xs : List Frame)
      → All IsFrame xs
      → run utf8 p (concat (map encode xs)) ≡ ([], chunks (kept xs))
  unfolding kept prepend
  run-encode [] h = run_incomplete utf8 p [] (nothing_there utf8)
  run-encode (x ∷ xs) (h, hs) =
      run_frame utf8 p (encode x ++ concat (map encode xs)) (decoded utf8 x) (encode x)
        (concat (map encode xs)) (next_frame-encode utf8 x (concat (map encode xs)) h)
      ∙ ap (λ y. (y.0, prepend (forwarded utf8 p (decoded utf8 x) (encode x)) y.1))
          (run-encode xs hs)

  -- A new filter gets a stream of frames, each masked or not and written with the shortest length
  -- that RFC 6455 has for it, in whatever chunks. It forwards the very bytes of those frames that
  -- the drop predicate keeps, which is shown each frame's fields and unmasked payload, and nothing
  -- is left in its buffer.
  pub feed-encode :
      (cs : List Buffer) (xs : List Frame)
      → All IsFrame xs
      → concat cs ≡ concat (map encode xs)
      → feed utf8 (new_frame_filter p) cs ≡ (new_frame_filter p, chunks (kept xs))
  unfolding new_frame_filter at_once
  feed-encode cs xs h e =
      feed_lem utf8 (new_frame_filter p) cs (nothing_there utf8)
      ∙ process_chunk-at_once utf8 (new_frame_filter p) (concat cs) (nothing_there utf8)
      ∙ ap (at_once utf8 (new_frame_filter p)) e
      ∙ ap (λ y. (record { buffer = y.0; drop_predicate = p }, y.1)) (run-encode xs h)
