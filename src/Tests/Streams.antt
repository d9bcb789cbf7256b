-- ===== src/Tests/Streams.antt =====
-- The frame filter and the id generator at concrete states.
use pulse_distributed_real_t.Uuidv7.{Sequence, generate_uuid}
use pulse_distributed_real_t.WebSocketFrameFilter.{
  Buffer, new_frame_filter, process_chunk, FrameDropPredicate, next_frame, chunks, unfinished,
}
use pulse_distributed_real_t.WebSocketFrameFilter.Frames.{Frame, IsFrame, encode}
use pulse_distributed_real_t.WebSocketFrameFilter.Filtering.{kept, feed-encode}
use pulse_distributed_real_t.WebSocketFrameFilter.Feed.{feed, feed_lem, process_chunk-finishes}
use pulse_distributed_real_t.Uuidv7.Order.{
  rank, rank_of, after_ids, IsCounting, generate_uuid-ascends, generate_uuid-descends,
}
use Prim.Native.String.{String, []}
use pulse_distributed_real_t.Prelude.{
  String, Option, true, arith, List, some, none, ◌≡◌, ◌∷◌, ◌==◌, concat, [], ◌≢◌, refl, ◌<◌, inr,
}

-- A decoder that tells nothing.
abbrev silent : Buffer → String
silent b = ""

-- Close frames are dropped.
abbrev not_close : Option FrameDropPredicate
not_close = some (λ f. f.opcode == 8)

abbrev hello : Frame
hello = record {
  fin = true;
  rsv = 0;
  opcode = 1;
  mask_key = some (55, 250, 33, 61);
  payload = 72 ∷ 101 ∷ [];
}

abbrev bye : Frame
bye = record { fin = true; rsv = 0; opcode = 8; mask_key = none; payload = [] }

hello-IsFrame : IsFrame hello
hello-IsFrame = record {
  rsv = omega arith;
  opcode = omega arith;
  key = (omega arith, omega arith, omega arith, omega arith);
  payload = (omega arith, (omega arith, tt));
  bounded = omega arith;
}

bye-IsFrame : IsFrame bye
bye-IsFrame = record {
  rsv = omega arith;
  opcode = omega arith;
  key = tt;
  payload = tt;
  bounded = omega arith;
}

-- The two frames, cut in the middle of the first.
abbrev pieces : List Buffer
pieces = (129 ∷ 130 ∷ 55 ∷ []) ∷ [] ∷ (250 ∷ 33 ∷ 61 ∷ 127 ∷ 159 ∷ 136 ∷ 0 ∷ []) ∷ []

feed-encode_example :
    feed silent (new_frame_filter not_close) pieces
    ≡ (new_frame_filter not_close, chunks ((129 ∷ 130 ∷ 55 ∷ 250 ∷ 33 ∷ 61 ∷ 127 ∷ 159 ∷ []) ∷ []))
unfolding kept encode
feed-encode_example =
    feed-encode silent not_close pieces (hello ∷ bye ∷ []) (hello-IsFrame, (bye-IsFrame, tt)) refl

feed_lem_example :
    feed silent (new_frame_filter none) pieces
    ≡ process_chunk silent (new_frame_filter none) (concat pieces)
unfolding new_frame_filter next_frame
feed_lem_example = feed_lem silent (new_frame_filter none) pieces refl

process_chunk-finishes_example :
    (process_chunk silent (new_frame_filter none) (129 ∷ 2 ∷ 72 ∷ [])).1 ≢ unfinished
process_chunk-finishes_example =
    process_chunk-finishes silent (new_frame_filter none) (129 ∷ 2 ∷ 72 ∷ [])

-- A clock that went back by a second.
abbrev ahead : Sequence
ahead = record { last_ms = 1_700_000_001_000; sequence_counter = 4000 }

generate_uuid-ascends_example :
    let (t, id) = generate_uuid ahead none 1_700_000_000_000 7 [] in
    IsCounting t × (rank id ≡ rank_of t) × (rank_of ahead < rank id)
generate_uuid-ascends_example =
    generate_uuid-ascends ahead 1_700_000_000_000 7 [] (omega arith)
      (omega arith, omega arith, omega arith) (inr (omega arith))

generate_uuid-descends_example :
    rank (generate_uuid (after_ids 95 1_700_000_000_000 ahead) none 1_700_000_000_000 7 []).1
    < rank_of ahead
generate_uuid-descends_example =
    generate_uuid-descends ahead 1_700_000_000_000 7 [] (omega arith)
      (omega arith, omega arith, omega arith) (omega arith) (omega arith)
