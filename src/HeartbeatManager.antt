-- ===== src/HeartbeatManager.antt =====
-- src/core/HeartbeatManager.ts: the sweep over the connections of a node, and `terminate` of
-- src/core/Connection.ts. The timer calls `check_heartbeats`; the id of a ping is an argument.
pub mod Reaping
use pulse_distributed_real_t.Json.{whole, num, field, end}
use pulse_distributed_real_t.Envelope.{EventType, PulseEventEnvelope}
use pulse_distributed_real_t.Connection.{Connection, ReadyState, WebSocketLib, close, send}
use pulse_distributed_real_t.ConnectionManager.{ConnectionManager, get_all_connections}
use pulse_distributed_real_t.Node.{store_at}
use Prim.Native.Nat.{ℕ, max, min}
use pulse_distributed_real_t.Prelude.{
  ℕ, true, false, Option, String, List, Bool, none, if◌then◌else◌, map, max, some, ltb, leb, min,
  [], ◌/◌, ◌+◌, ◌∷◌,
}

pub record HeartbeatManager : Type 0 where
  pub interval_ms : ℕ
  pub timeout_ms : ℕ
  pub sweep_tick_ms : ℕ
  pub is_running : Bool

-- A sweep comes twice within the smaller of the thresholds, but not more often than each 20 ms.
unfoldable pub new_heartbeat_manager : ℕ → ℕ → Option ℕ → HeartbeatManager
new_heartbeat_manager interval_ms timeout_ms none = record {
  interval_ms = interval_ms;
  timeout_ms = timeout_ms;
  sweep_tick_ms = max 20 (min interval_ms timeout_ms / 2);
  is_running = false;
}
new_heartbeat_manager interval_ms timeout_ms (some sweep_tick_ms) = record {
  interval_ms = interval_ms;
  timeout_ms = timeout_ms;
  sweep_tick_ms = sweep_tick_ms;
  is_running = false;
}

unfoldable pub start : HeartbeatManager → HeartbeatManager
start h = record h { is_running = true }

unfoldable pub stop : HeartbeatManager → HeartbeatManager
stop h = record h { is_running = false }

-- What `terminate` of the library makes of a socket, `none` if it throws.
abbrev pub Terminator : Type 0
Terminator = ReadyState → Option ReadyState

-- An error of the library is logged and swallowed.
unfoldable pub terminate : Terminator → Connection → Connection
terminate kill c = elim (kill c.socket.ready_state) [
  | none ↦ c
  | some state ↦ record c { socket = record (c.socket) { ready_state = state } }
]

abbrev pub ping_envelope : String → ℕ → PulseEventEnvelope
ping_envelope event_id now = record {
  event_id = event_id;
  type = EventType.sys_ping;
  timestamp = whole now;
  sender_id = "system";
  seq = none;
  target = none;
  payload = field "timestamp" (num (whole now)) end;
  correlation_id = none;
  ack_required = false;
  origin_instance_id = none;
  origin_timestamp_ms = none;
}

-- Nothing was heard of the connection for longer than the interval and the timeout.
abbrev pub is_stale : HeartbeatManager → Connection → ℕ → Bool
is_stale h c now = ltb (c.last_seen_at + h.interval_ms + h.timeout_ms) now

abbrev pub is_quiet : HeartbeatManager → Connection → ℕ → Bool
is_quiet h c now = leb (c.last_seen_at + h.interval_ms) now

module _ (ws : WebSocketLib) (kill : Terminator) where
  -- The body of the loop for one connection.
  unfoldable pub check_connection : HeartbeatManager → Connection → ℕ → String → Connection
  unfolding terminate close send
  check_connection h c now ping_id =
      if is_stale h c now
      then (if c.is_heartbeat_timed_out
          then terminate kill c
          else close ws (record c { is_heartbeat_timed_out = true }) 1002)
      else if is_quiet h c now
      then (send ws c (ping_envelope ping_id now)).0
      else c

  -- The timer that a timed out connection gets, 150 ms later.
  unfoldable pub fallback : Connection → Connection
  unfolding terminate
  fallback c = elim c.socket.ready_state [
    | ReadyState.closing ↦ terminate kill c
    | ReadyState.open_state ↦ terminate kill c
    | _ ↦ c
  ]

  unfoldable pub sweep :
      HeartbeatManager
      → List String
      → (String → Connection)
      → ℕ
      → (String → String)
      → String
      → Connection
  unfolding check_connection
  sweep h [] store now ping_id = store
  sweep h (id ∷ ids) store now ping_id =
      sweep h ids (store_at store id (check_connection h (store id) now (ping_id id))) now ping_id

  unfoldable pub check_heartbeats :
      HeartbeatManager
      → ConnectionManager
      → (String → Connection)
      → ℕ
      → (String → String)
      → String
      → Connection
  unfolding sweep get_all_connections
  check_heartbeats h m store now ping_id =
      sweep h (map (λ c. c.connection_id) (get_all_connections m)) store now ping_id
