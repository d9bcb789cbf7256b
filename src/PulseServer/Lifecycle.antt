-- ===== src/PulseServer/Lifecycle.antt =====
-- src/core/PulseServer.ts: the close of a connection, draining, stopping, and the health routes.
use pulse_distributed_real_t.Prelude.{
  ℕ, String, List, [], ◌∷◌, Option, none, some, Bool, true, false, not, ◌&&◌, ◌||◌, ◌==◌,
  if◌then◌else◌, truthy, is_some,
}
use pulse_distributed_real_t.Json.{Fields, field, end, str, num, whole}
use pulse_distributed_real_t.Envelope.{EventType, PulseEventEnvelope}
use pulse_distributed_real_t.Connection.{
  Connection, WebSocketLib, close, touch, get_rooms, mark_cleaned_up,
}
use pulse_distributed_real_t.ConnectionManager.{
  ConnectionRef, remove_connection, get_all_connections,
}
use pulse_distributed_real_t.ConnectionManager
use pulse_distributed_real_t.RoomManager.{remove_connection_from_all_rooms}
use pulse_distributed_real_t.RoomManager
use pulse_distributed_real_t.IdempotencyManager
use pulse_distributed_real_t.OriginMatcher.{UrlLib, cut}
use pulse_distributed_real_t.Node.{Node, Env, put_connection, system_envelope, send_to}
use pulse_distributed_real_t.PulseServer.{PulseServer, PresenceCall, ServerMetric, call_presence}

unfoldable pub close_reason : UrlLib → Connection → ℕ → String → String
unfolding cut
close_reason url c code reason =
    let of_heartbeat =
      code == 4000
      || c.is_heartbeat_timed_out
      || is_some (cut "heartbeat" (url.to_lower_case reason)) in
    if code == 1008
    then "slow_consumer"
    else if code == 1001
    then "server_shutdown"
    else if of_heartbeat
    then "heartbeat_timeout"
    else "client_close"

-- A connection that was registered is marked as cleaned up.
unfoldable pub unregister : Node → String → Node
unfolding remove_connection mark_cleaned_up
unregister n id =
    let r = remove_connection n.connection_manager id in
    let removed : Node = record n { connection_manager = r.0 } in
    if is_some r.1 then put_connection removed id (mark_cleaned_up (n.store id)) else removed

unfoldable pub on_socket_close : UrlLib → PulseServer → String → ℕ → String → PulseServer
unfolding close_reason unregister remove_connection_from_all_rooms get_rooms
on_socket_close url s id code reason =
    let c = s.node.store id in
    let n = unregister s.node id in
    let swept = (remove_connection_from_all_rooms n.room_manager id (get_rooms c)).0 in
    let t : PulseServer = record s {
      node = record n { room_manager = swept };
      server_counted =
          ServerMetric.connections_closed (close_reason url c code reason) ∷ s.server_counted;
    } in
    if truthy c.user_id then call_presence t (PresenceCall.presence_removed c.user_id id) else t

-- A ping or a pong of the transport.
unfoldable pub on_transport_sign : PulseServer → String → ℕ → PulseServer
unfolding touch
on_transport_sign s id now = record s {
  node = put_connection s.node id (touch (s.node.store id) now);
}

abbrev pub shutdown_payload : Node → ℕ → Fields
shutdown_payload n timeout = field "reason" (str "Server shutting down gracefully") (
    field "instanceId" (str n.config.instance_id)
      (field "drainTimeoutMs" (num (whole timeout)) end))

abbrev pub shutdown_envelope : Node → Env → ℕ → PulseEventEnvelope
shutdown_envelope n env timeout =
    system_envelope env EventType.sys_shutdown none none (shutdown_payload n timeout)

unfoldable pub timeout_or : ℕ → Option ℕ → ℕ
timeout_or default none = default
timeout_or default (some timeout) = timeout

module _ (ws : WebSocketLib) where
  unfoldable pub send_to_all : Node → List ConnectionRef → PulseEventEnvelope → Node
  unfolding send_to
  send_to_all n [] e = n
  send_to_all n (c ∷ connections) e = send_to_all (send_to ws n c.connection_id e).0 connections e

  unfoldable pub drain : PulseServer → Env → Option ℕ → PulseServer
  unfolding send_to_all get_all_connections timeout_or
  drain s env timeout =
      let e = shutdown_envelope s.node env (timeout_or s.config.drain_timeout_ms timeout) in
      if s.is_shutting_down then s else record s {
        is_shutting_down = true;
        node = send_to_all s.node (get_all_connections s.node.connection_manager) e;
      }

  -- Up to the wait for the clients to go.
  unfoldable pub begin_stop : PulseServer → Env → Option ℕ → PulseServer
  unfolding drain timeout_or
  begin_stop s env grace =
      if not s.is_running
      then s
      else drain s env (some (timeout_or s.config.drain_timeout_ms grace))

  unfoldable pub close_all : Node → List ConnectionRef → ℕ → Node
  unfolding close
  close_all n [] code = n
  close_all n (c ∷ connections) code =
      let id = c.connection_id in
      close_all (put_connection n id (close ws (n.store id) code)) connections code

  -- After that wait.
  unfoldable pub force_close : PulseServer → PulseServer
  unfolding close_all get_all_connections
  force_close s = record s {
    node = close_all s.node (get_all_connections s.node.connection_manager) 1001;
  }

-- The registry's and the pub/sub manager's ends stand with those components.
unfoldable pub cleanup_and_finalize : PulseServer → PulseServer
unfolding ConnectionManager.clear RoomManager.clear IdempotencyManager.clear
cleanup_and_finalize s = record s {
  node = record (s.node) {
    connection_manager = ConnectionManager.clear s.node.connection_manager;
    room_manager = RoomManager.clear s.node.room_manager;
    idempotency_manager = IdempotencyManager.clear s.node.idempotency_manager;
  };
  is_running = false;
  is_shutting_down = false;
}

pub data Health : Type 0 where
  ok degraded draining not_ready : Health

-- The status of a health route and its HTTP code. `redis` is the pub/sub manager's connection, if
-- there is a manager.
unfoldable pub health : PulseServer → Option Bool → Health × ℕ
health s redis = if s.is_shutting_down then (Health.draining, 503) else elim redis [
  | none ↦ (ok, 200)
  | some connected ↦ if connected then (ok, 200) else (degraded, 200)
]

abbrev pub is_up : Option Bool → Bool
is_up none = false
is_up (some connected) = connected

unfoldable pub readiness : PulseServer → Bool → Option Bool → Health × ℕ
readiness s redis_enabled redis =
    if s.is_shutting_down
    then (Health.draining, 503)
    else if redis_enabled && not (is_up redis)
    then (not_ready, 503)
    else (ok, 200)
