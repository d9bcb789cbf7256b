-- ===== src/Connection.antt =====
-- src/core/Connection.ts, over the socket of the `ws` library. The fields that never change and that
-- no code here reads (roles, connect time, address) and the delivery timer are left out.
pub mod Laws
use pulse_distributed_real_t.Prelude.{
  ℕ, zero, suc, String, List, [], ◌∷◌, ◌++◌, Option, none, some, Bool, true, false, not, ◌&&◌, ◌||◌,
  if◌then◌else◌, ltb,
}
use pulse_distributed_real_t.JsMap.{JsMap, JsSet, get, set, delete, has, add, size, keys}
use pulse_distributed_real_t.TokenBucket.{TokenBucket, token, try_consume, record_violation}
use pulse_distributed_real_t.Envelope
use pulse_distributed_real_t.Envelope.{EventType, PulseEventEnvelope}

pub data ReadyState : Type 0 where
  connecting open_state closing closed : ReadyState

-- What `ws` does: `after_send` is the buffered amount after `send`, `none` if it throws, and
-- `after_close` the state after a closing handshake was begun, `none` if that throws.
pub record WebSocketLib : Type 0 where
  pub after_send : ℕ → PulseEventEnvelope → Option ℕ
  pub after_close : ReadyState → ℕ → Option ReadyState

-- `sent` and `closes` tell the calls of `send` and `close` that did not throw, in order.
pub record Socket : Type 0 where
  pub ready_state : ReadyState
  pub buffered_amount : ℕ
  pub sent : List PulseEventEnvelope
  pub closes : List ℕ

-- The counters that the code increments, with their label.
pub data Metric : Type 0 where
  dropped : String → Metric
  delivered received : EventType → Metric
  acknowledged : String → Metric
  rate_limited : Metric

pub record Connection : Type 0 where
  pub connection_id : String
  pub user_id : String
  pub last_seen_at : ℕ
  pub last_seen_seq : ℕ
  pub socket : Socket
  pub max_buffered_amount_bytes : ℕ
  pub token_bucket : TokenBucket
  pub rooms : JsSet
  pub is_cleaned_up : Bool
  pub is_heartbeat_timed_out : Bool
  pub counted : List Metric

unfoldable pub touch : Connection → ℕ → Connection
touch c now = record c { last_seen_at = now }

unfoldable pub consume_rate_limit : Connection → ℕ → Connection × Bool
consume_rate_limit c now =
    let (bucket, allowed) = try_consume c.token_bucket token now in
    (record c { token_bucket = bucket }, allowed)

-- With the default threshold and window.
unfoldable pub record_rate_violation : Connection → ℕ → Connection × Bool
record_rate_violation c now =
    let (bucket, abusive) = record_violation c.token_bucket 10 10000 now in
    (record c { token_bucket = bucket }, abusive)

abbrev pub is_open : ReadyState → Bool
is_open open_state = true
is_open _ = false

abbrev pub may_close : ReadyState → Bool
may_close open_state = true
may_close connecting = true
may_close _ = false

module _ (ws : WebSocketLib) where
  -- An error of the library is logged and swallowed.
  unfoldable pub close : Connection → ℕ → Connection
  close c code =
      if may_close c.socket.ready_state
      then elim (ws.after_close c.socket.ready_state code) [
        | none ↦ c
        | some state ↦ record c {
          socket = record (c.socket) { ready_state = state; closes = c.socket.closes ++ code ∷ [] };
        }
      ]
      else c

  write : Connection → PulseEventEnvelope → Option ℕ → Connection × Bool
  write c e none = (c, false)
  write c e (some buffered) = (
    record c {
      socket = record (c.socket) { buffered_amount = buffered; sent = c.socket.sent ++ e ∷ [] };
      counted = delivered e.type ∷ c.counted;
    },
    true,
  )

  unfoldable pub send : Connection → PulseEventEnvelope → Connection × Bool
  unfolding write close
  send c e =
      if not (is_open c.socket.ready_state)
      then (c, false)
      else if ltb c.max_buffered_amount_bytes c.socket.buffered_amount
      then (close (record c { counted = dropped "slow_consumer" ∷ c.counted }) 1008, false)
      else write c e (ws.after_send c.socket.buffered_amount e)

unfoldable pub join_room : Connection → String → Connection
join_room c room_id = record c { rooms = add room_id c.rooms }

unfoldable pub leave_room : Connection → String → Connection
leave_room c room_id = record c { rooms = delete room_id c.rooms }

unfoldable pub has_room : Connection → String → Bool
has_room c room_id = has room_id c.rooms

unfoldable pub get_rooms : Connection → List String
get_rooms c = keys c.rooms

unfoldable pub mark_cleaned_up : Connection → Connection
mark_cleaned_up c = record c { is_cleaned_up = true }

unfoldable pub is_alive : Connection → Bool
is_alive c = not c.is_cleaned_up && is_open c.socket.ready_state
