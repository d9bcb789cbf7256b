-- ===== src/Tests/Server.antt =====
-- The server at concrete states.
use pulse_distributed_real_t.Prelude.{
  String, [], ◌∷◌, ◌++◌, none, some, true, false, if◌then◌else◌, ◌≡◌, ◌=ₛ◌, ◌+ₛ◌, ◌↔◌, ◌&&◌, refl,
  truthy,
}
use pulse_distributed_real_t.JsMap.{contains}
use pulse_distributed_real_t.Connection.Laws.{takes, sent_if}
use pulse_distributed_real_t.ConnectionManager.{
  new_connection_manager, get_connection, get_all_connections,
}
use pulse_distributed_real_t.RoomManager.{is_connection_in_room}
use pulse_distributed_real_t.HeartbeatManager.Reaping.{ids_of}
use pulse_distributed_real_t.OriginMatcher.{UrlLib, matches_wildcard, first_part, cut}
use pulse_distributed_real_t.OriginMatcher.Wildcards.{matches_wildcard-host, has_code}
use pulse_distributed_real_t.PulseServer.{
  PulseServer, ServerConfig, AuthResult, UpgradeRequest, PresenceCall, handle_upgrade, on_upgraded,
}
use pulse_distributed_real_t.PulseServer.Lifecycle.{
  on_socket_close, drain, shutdown_envelope, timeout_or,
}
use pulse_distributed_real_t.PulseServer.Slots.{ServerStep, ServerReach}
use pulse_distributed_real_t.PulseServer.Cleanup.{on_socket_close_lem}
use pulse_distributed_real_t.PulseServer.Drain.{drain_lem}
use pulse_distributed_real_t.Tests.Data.{quick_socket, node, env, later_env, alice}

abbrev plain_urls : UrlLib
plain_urls = record { to_lower_case = λ s. s; parse = λ s. none }

abbrev server_config : ServerConfig
server_config = record {
  allowed_origins = none;
  trust_proxy = false;
  trusted_proxies = none;
  max_buffered_amount_bytes = 100;
  inbound_rate_limit_burst = 50;
  inbound_rate_limit_max = 100;
  drain_timeout_ms = 2000;
}

abbrev server : PulseServer
server = record {
  config = server_config;
  node = node;
  is_running = true;
  is_shutting_down = false;
  claimed = λ i. false;
  upgrades = 0;
  presence_calls = [];
  server_counted = [];
}

abbrev fresh_server : PulseServer
fresh_server = record server {
  node = record node { connection_manager = new_connection_manager true true (some 2) };
}

abbrev request : UpgradeRequest
request = record { origin = none; auth = AuthResult.authenticated "ann" }

abbrev requested : PulseServer
requested = (handle_upgrade plain_urls fresh_server request).0

abbrev requested_twice : PulseServer
requested_twice = (handle_upgrade plain_urls requested request).0

abbrev connected : PulseServer
connected = on_upgraded quick_socket requested_twice 0 env alice.socket "ann"

-- Two upgrades, one of which is finished.
abbrev upgrading : ServerReach plain_urls quick_socket fresh_server connected
upgrading =
    ServerReach.next
      (ServerReach.next
        (ServerReach.next ServerReach.here (ServerStep.upgrade fresh_server request))
        (ServerStep.upgrade requested request))
      (ServerStep.upgraded requested_twice 0 env alice.socket "ann")

on_socket_close_lem_example :
    let t = on_socket_close plain_urls server "c1" 1000 "bye" in
    (get_connection t.node.connection_manager "c2"
      ≡ (if "c1" =ₛ "c2" then none else get_connection server.node.connection_manager "c2"))
    × (is_connection_in_room t.node.room_manager "lobby" "c2" ≡ (
        if "c1" =ₛ "c2"
        then false
        else is_connection_in_room server.node.room_manager "lobby" "c2"))
    × (t.presence_calls ≡ (
        if truthy (server.node.store "c1").user_id && server.node.config.has_presence
        then server.presence_calls
          ++ PresenceCall.presence_removed (server.node.store "c1").user_id "c1" ∷ []
        else server.presence_calls))
on_socket_close_lem_example = on_socket_close_lem plain_urls server "c1" 1000 "bye" "c2" "lobby"

drain_lem_example :
    let e = shutdown_envelope server.node env (timeout_or 2000 none) in
    let t = drain quick_socket server env none in
    let c = server.node.store "c1" in
    ((t.node.store "c1").socket.sent ≡ (
      if contains "c1" (ids_of server.node.connection_manager)
      then sent_if (takes quick_socket c e) e c.socket.sent
      else c.socket.sent))
    × (drain quick_socket t later_env none ≡ t)
unfolding contains get_all_connections
drain_lem_example =
    drain_lem quick_socket server env later_env none none "c1" refl (refl, (refl, tt))

matches_wildcard-host_example :
    (matches_wildcard (("https" +ₛ "://") +ₛ "a.pulse.io:8443") ("https" +ₛ ("://*." +ₛ "pulse.io"))
      ≡ true)
    ↔ ((l : String) × (truthy l ≡ true)
        × (first_part ":" "a.pulse.io:8443" ≡ l +ₛ ("." +ₛ "pulse.io")))
unfolding has_code cut
matches_wildcard-host_example = matches_wildcard-host "https" "pulse.io" "a.pulse.io:8443" refl refl
