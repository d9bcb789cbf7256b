-- ===== src/PulseServer.antt =====
-- src/core/PulseServer.ts: upgrades of the HTTP server, the life of a connection, draining and the
-- end. What the authenticator and the embedded gateway answer are arguments. Calls on the presence
-- manager are kept in order. The HTTP routes but for health and readiness are left out.
pub mod Lifecycle
pub mod Slots
pub mod Balance
pub mod Cleanup
pub mod Drain
use pulse_distributed_real_t.Prelude.{
  ℕ, String, List, [], ◌∷◌, ◌++◌, Option, none, some, Bool, true, false, not, ◌&&◌, ◌||◌, ◌+◌, ◌*◌,
  ◌==◌, ◌+ₛ◌, ◌=ₛ◌, if◌then◌else◌, truthy, trim, drop_prefix, map,
}
use pulse_distributed_real_t.JsMap.{JsMap, JsSet, contains}
use pulse_distributed_real_t.Json.{Fields, field, end, str, num, whole}
use pulse_distributed_real_t.Envelope.{EventType, PulseEventEnvelope}
use pulse_distributed_real_t.TokenBucket.{new_token_bucket, token}
use pulse_distributed_real_t.Connection.{
  Connection, Socket, ReadyState, WebSocketLib, send, close, touch, get_rooms, is_alive,
}
use pulse_distributed_real_t.ConnectionManager.{
  ConnectionManager, ConnectionRef, try_acquire_slot, release_pending_slot, add_connection,
  remove_connection, get_all_connections,
}
use pulse_distributed_real_t.ConnectionManager
use pulse_distributed_real_t.RoomManager.{remove_connection_from_all_rooms}
use pulse_distributed_real_t.RoomManager
use pulse_distributed_real_t.IdempotencyManager
use pulse_distributed_real_t.OriginMatcher.{UrlLib, is_allowed, first_part}
use pulse_distributed_real_t.Node.{Node, Env, put_connection, system_envelope, send_to, store_at}

pub data PresenceCall : Type 0 where
  presence_registered presence_removed : String → String → PresenceCall

-- The counters of the server, with their label.
pub data ServerMetric : Type 0 where
  connections_rejected connections_total connections_closed : String → ServerMetric

pub record ServerConfig : Type 0 where
  pub allowed_origins : Option (List String)
  pub trust_proxy : Bool
  pub trusted_proxies : Option (List String)
  pub max_buffered_amount_bytes : ℕ
  pub inbound_rate_limit_burst : ℕ
  pub inbound_rate_limit_max : ℕ
  pub drain_timeout_ms : ℕ

-- `claimed` is the `slotClaimed` of each upgrade that was let through, `upgrades` their number.
pub record PulseServer : Type 0 where
  pub config : ServerConfig
  pub node : Node
  pub is_running : Bool
  pub is_shutting_down : Bool
  pub claimed : ℕ → Bool
  pub upgrades : ℕ
  pub presence_calls : List PresenceCall
  pub server_counted : List ServerMetric

-- What the authenticator makes of a request.
pub data AuthResult : Type 0 where
  unauthenticated : AuthResult
  authenticated : String → AuthResult

pub record UpgradeRequest : Type 0 where
  pub origin : Option String
  pub auth : AuthResult

-- The HTTP status that ends an upgrade, or the number of one that goes on.
pub data UpgradeOutcome : Type 0 where
  draining forbidden full unauthorized : UpgradeOutcome
  handshake : ℕ → UpgradeOutcome

abbrev pub count_server : PulseServer → ServerMetric → PulseServer
count_server s m = record s { server_counted = m ∷ s.server_counted }

abbrev pub put_manager : PulseServer → ConnectionManager → PulseServer
put_manager s m = record s { node = record (s.node) { connection_manager = m } }

abbrev pub put_claim : (ℕ → Bool) → ℕ → Bool → ℕ → Bool
put_claim claimed i b j = if i == j then b else claimed j

-- A slot is taken before the authentication and given back when that fails.
unfoldable pub authenticate_upgrade : PulseServer → AuthResult → PulseServer × UpgradeOutcome
authenticate_upgrade s unauthenticated = (
  count_server
      (count_server (put_manager s (release_pending_slot s.node.connection_manager))
        (connections_total "rejected"))
      (connections_rejected "auth_failed"),
  unauthorized,
)
authenticate_upgrade s (authenticated user_id) = (
  record (count_server s (connections_total "success")) {
    claimed = put_claim s.claimed s.upgrades true;
    upgrades = s.upgrades + 1;
  },
  handshake s.upgrades,
)

unfoldable pub admit_upgrade : PulseServer → AuthResult → PulseServer × UpgradeOutcome
unfolding authenticate_upgrade
admit_upgrade s auth =
    let slot = try_acquire_slot s.node.connection_manager in
    if not slot.1
    then (count_server s (connections_rejected "max_connections"), full)
    else authenticate_upgrade (put_manager s slot.0) auth

-- Without an embedded gateway. One that does not take the request goes on with `admit_upgrade` when
-- it has answered.
unfoldable pub handle_upgrade : UrlLib → PulseServer → UpgradeRequest → PulseServer × UpgradeOutcome
unfolding admit_upgrade is_allowed
handle_upgrade url s request =
    if s.is_shutting_down
    then (count_server s (connections_rejected "draining"), draining)
    else if not (is_allowed url request.origin s.config.allowed_origins)
    then (count_server s (connections_rejected "origin_forbidden"), forbidden)
    else admit_upgrade s request.auth

-- The socket of an upgrade closes or fails before the handshake has ended.
unfoldable pub on_early_close : PulseServer → ℕ → PulseServer
on_early_close s i =
    if s.claimed i
    then record (put_manager s (release_pending_slot s.node.connection_manager)) {
      claimed = put_claim s.claimed i false;
    }
    else s

abbrev pub default_trusted : List String
default_trusted = "127.0.0.1" ∷ "::1" ∷ "::ffff:127.0.0.1" ∷ []

-- ip.startsWith('::ffff:') ? ip.slice(7) : ip
unfoldable pub normalize_ip : String → String
normalize_ip ip = elim (drop_prefix "::ffff:" ip) [ none ↦ ip | some rest ↦ rest ]

abbrev pub or_default : Option (List String) → List String
or_default none = default_trusted
or_default (some proxies) = proxies

-- `forwarded` is the header x-forwarded-for, if it is one text.
unfoldable pub remote_address : ServerConfig → String → Option String → String
unfolding normalize_ip
remote_address config immediate none = immediate
remote_address config immediate (some forwarded) =
    let trusted = map normalize_ip (or_default config.trusted_proxies) in
    let first = trim (first_part "," forwarded) in
    let is_trusted = contains (normalize_ip immediate) trusted || contains immediate trusted in
    if config.trust_proxy && is_trusted && truthy (trim forwarded) && truthy first
    then first
    else immediate

unfoldable pub new_connection : ServerConfig → Socket → String → String → ℕ → Connection
new_connection config socket connection_id user_id now = record {
  connection_id = connection_id;
  user_id = user_id;
  last_seen_at = now;
  last_seen_seq = 0;
  socket = socket;
  max_buffered_amount_bytes = config.max_buffered_amount_bytes;
  token_bucket =
      new_token_bucket (config.inbound_rate_limit_burst * token)
        (config.inbound_rate_limit_max * token) now;
  rooms = [];
  is_cleaned_up = false;
  is_heartbeat_timed_out = false;
  counted = [];
}

abbrev pub connected_payload : Node → Connection → ℕ → Fields
connected_payload n c now = field "connectionId" (str c.connection_id) (
    field "userId" (str c.user_id)
      (field "instanceId" (str n.config.instance_id) (field "connectedAt" (num (whole now)) end)))

abbrev pub call_presence : PulseServer → PresenceCall → PulseServer
call_presence s call =
    if s.node.config.has_presence
    then record s { presence_calls = s.presence_calls ++ call ∷ [] }
    else s

-- The end of a handshake: `env.fresh_id` names the connection.
module _ (ws : WebSocketLib) where
  unfoldable pub handle_authenticated_connection : PulseServer → Env → Socket → String → PulseServer
  unfolding new_connection add_connection send_to
  handle_authenticated_connection s env socket user_id =
      let id = env.fresh_id in
      let c = new_connection s.config socket id user_id env.now in
      let n = put_connection s.node id c in
      let reference : ConnectionRef = record { connection_id = id; user_id = user_id } in
      let m = add_connection n.connection_manager reference in
      let ack =
        system_envelope env EventType.sys_connect_ack none none (connected_payload n c env.now) in
      let sent = (send_to ws (record n { connection_manager = m }) id ack).0 in
      call_presence (record s { node = sent }) (presence_registered user_id id)

  -- The library calls back at most once, and while the socket is open.
  unfoldable pub on_upgraded : PulseServer → ℕ → Env → Socket → String → PulseServer
  unfolding handle_authenticated_connection
  on_upgraded s i env socket user_id =
      if s.claimed i
      then handle_authenticated_connection (record s { claimed = put_claim s.claimed i false }) env
          socket user_id
      else s
