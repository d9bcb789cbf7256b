-- ===== src/WebSocketFrameFilter.antt =====
-- src/chaos/WebSocketFrameFilter.ts. A buffer is a list of bytes, each below 256, and bits are read
-- by division. The decoding of UTF-8 is a parameter of the platform.
pub mod Bytes
pub mod Progress
pub mod Chunks
pub mod Feed
pub mod Encoding
pub mod Frames
pub mod Layout
pub mod Stream
pub mod Filtering
use Prim.Native.Nat.{bit_xor}
use pulse_distributed_real_t.Prelude.{
  ℕ, zero, suc, ◌+◌, ◌-◌, ◌*◌, ◌/◌, ◌%◌, String, Bool, true, false, ltb, leb, ◌==◌, if◌then◌else◌,
  Option, none, some, List, [], ◌∷◌, ◌++◌, length, take, drop,
}

abbrev pub Buffer : Type 0
Buffer = List ℕ

pub record DecodedWebSocketFrame : Type 0 where
  pub fin : Bool
  pub rsv : ℕ
  pub opcode : ℕ
  pub masked : Bool
  pub mask_key : Option Buffer
  pub payload_length : ℕ
  pub payload : Buffer
  pub text : Option String

abbrev pub FrameDropPredicate : Type 0
FrameDropPredicate = DecodedWebSocketFrame → Bool

pub record WebSocketFrameFilter : Type 0 where
  pub buffer : Buffer
  pub drop_predicate : Option FrameDropPredicate

unfoldable pub new_frame_filter : Option FrameDropPredicate → WebSocketFrameFilter
new_frame_filter drop_predicate = record { buffer = []; drop_predicate = drop_predicate }

unfoldable pub set_drop_predicate :
    WebSocketFrameFilter → Option FrameDropPredicate → WebSocketFrameFilter
set_drop_predicate f drop_predicate = record f { drop_predicate = drop_predicate }

unfoldable pub clear : WebSocketFrameFilter → WebSocketFrameFilter
clear f = record f { buffer = [] }

-- Number.MAX_SAFE_INTEGER
abbrev pub max_safe_integer : ℕ
max_safe_integer = 9_007_199_254_740_991

-- The byte at an index, read only within the buffer.
unfoldable pub byte_at : Buffer → ℕ → ℕ
byte_at [] i = 0
byte_at (x ∷ b) zero = x
byte_at (x ∷ b) (suc i) = byte_at b i

unfoldable pub subarray : Buffer → ℕ → ℕ → Buffer
subarray b from to = take (to - from) (drop from b)

-- An unsigned integer, the most significant byte first.
unfoldable pub read_uint_be : ℕ → Buffer → ℕ
read_uint_be n [] = n
read_uint_be n (x ∷ b) = read_uint_be (n * 256 + x) b

-- The header without the mask: its length and the payload's, unless bytes are missing or the length
-- is too large.
pub data Header : Type 0 where
  header_incomplete : Header
  header_too_long : ℕ → Header
  header : ℕ → ℕ → Header

unfoldable pub read_header : Buffer → Header
unfolding byte_at subarray read_uint_be
read_header b =
    let length_indicator = byte_at b 1 % 128 in
    if length_indicator == 126
    then (if ltb (length b) 4
        then header_incomplete
        else header 4 (read_uint_be 0 (subarray b 2 4)))
    else if length_indicator == 127
    then (if ltb (length b) 10
        then header_incomplete
        else let big_len = read_uint_be 0 (subarray b 2 10) in
          if ltb max_safe_integer big_len then header_too_long big_len else header 10 big_len)
    else header 2 length_indicator

-- The bytes of the payload from the index `i` on, each with its byte of the key.
unfoldable pub unmask : Buffer → ℕ → Buffer → Buffer
unfolding byte_at
unmask key i [] = []
unmask key i (x ∷ payload) = bit_xor x (byte_at key (i % 4)) ∷ unmask key (suc i) payload

unfoldable pub unmasked : Option Buffer → Buffer → Buffer
unfolding unmask
unmasked none payload = payload
unmasked (some key) payload = unmask key 0 payload

pub data Scan : Type 0 where
  incomplete : Scan
  too_long : ℕ → Scan
  frame : DecodedWebSocketFrame → Buffer → Buffer → Scan

module _ (utf8 : Buffer → String) where
  unfoldable pub decode_frame : Buffer → Option Buffer → ℕ → Buffer → DecodedWebSocketFrame
  unfolding byte_at
  decode_frame b mask_key payload_length payload = record {
    fin = leb 128 (byte_at b 0);
    rsv = byte_at b 0 / 16 % 8;
    opcode = byte_at b 0 % 16;
    masked = leb 128 (byte_at b 1);
    mask_key = mask_key;
    payload_length = payload_length;
    payload = payload;
    text = if byte_at b 0 % 16 == 1 then some (utf8 payload) else none;
  }

  -- The frame with its raw bytes, and what is left of the buffer.
  unfoldable pub complete_frame : Buffer → ℕ → ℕ → Option Buffer → Scan
  unfolding decode_frame subarray unmasked
  complete_frame b header_length payload_length mask_key =
      let total = header_length + payload_length in
      let raw_payload = subarray b header_length total in
      let payload = unmasked mask_key raw_payload in
      if ltb (length b) total
      then incomplete
      else frame (decode_frame b mask_key payload_length payload) (subarray b 0 total)
          (drop total b)

  unfoldable pub after_header : Buffer → Header → Scan
  unfolding complete_frame subarray byte_at
  after_header b header_incomplete = incomplete
  after_header b (header_too_long n) = too_long n
  after_header b (header header_length payload_length) =
      if leb 128 (byte_at b 1)
      then (if ltb (length b) (header_length + 4)
          then incomplete
          else complete_frame b (header_length + 4) payload_length
              (some (subarray b header_length (header_length + 4))))
      else complete_frame b header_length payload_length none

  -- One turn of the loop up to the drop predicate.
  unfoldable pub next_frame : Buffer → Scan
  unfolding after_header read_header
  next_frame b = if ltb (length b) 2 then incomplete else after_header b (read_header b)

-- What a call gives. The chunks found before an error are lost.
pub data Outcome : Type 0 where
  chunks : List Buffer → Outcome
  threw : ℕ → Outcome
  unfinished : Outcome

unfoldable pub should_drop : Option FrameDropPredicate → DecodedWebSocketFrame → Bool
should_drop none f = false
should_drop (some predicate) f = predicate f

unfoldable pub prepend : List Buffer → Outcome → Outcome
prepend output (chunks later) = chunks (output ++ later)
prepend output (threw n) = threw n
prepend output unfinished = unfinished

module _ (utf8 : Buffer → String) (drop_predicate : Option FrameDropPredicate) where
  unfoldable pub forwarded : DecodedWebSocketFrame → Buffer → List Buffer
  unfolding should_drop
  forwarded f raw = if should_drop drop_predicate f then [] else raw ∷ []

  -- The loop, on fuel.
  unfoldable pub scan : ℕ → Buffer → Buffer × Outcome
  unfolding forwarded prepend next_frame
  scan zero b = (b, unfinished)
  scan (suc fuel) b = elim (next_frame utf8 b) [
    | incomplete ↦ (b, chunks [])
    | too_long n ↦ (b, threw n)
    | frame f raw rest ↦
        let (final, later) = scan fuel rest in (final, prepend (forwarded f raw) later)
  ]

module _ (utf8 : Buffer → String) where
  unfoldable pub process_chunk : WebSocketFrameFilter → Buffer → WebSocketFrameFilter × Outcome
  unfolding scan
  process_chunk f [] = (f, chunks [])
  process_chunk f (x ∷ chunk) =
      let b = f.buffer ++ (x ∷ chunk) in
      let (final, outcome) = scan utf8 f.drop_predicate (suc (length b)) b in
      (record f { buffer = final }, outcome)
