-- ===== src/Tests/Heartbeats.antt =====
-- The heartbeat sweep at concrete states.
use pulse_distributed_real_t.ConnectionManager.{get_all_connections}
use pulse_distributed_real_t.JsMap.{contains}
use pulse_distributed_real_t.Connection.{ReadyState, close}
use pulse_distributed_real_t.HeartbeatManager.{
  Terminator, HeartbeatManager, check_heartbeats, terminate,
}
use pulse_distributed_real_t.HeartbeatManager.Reaping.{check_heartbeats-reaps}
use pulse_distributed_real_t.Tests.Data.{quick_socket, two_connections, node}
use pulse_distributed_real_t.Prelude.{some, true, ◌≡◌, arith, refl}

abbrev hard_kill : Terminator
hard_kill = λ state. some ReadyState.closed

abbrev heartbeat : HeartbeatManager
heartbeat = record { interval_ms = 1000; timeout_ms = 500; sweep_tick_ms = 250; is_running = true }

check_heartbeats-reaps_example :
    let first =
      check_heartbeats quick_socket hard_kill heartbeat two_connections node.store 9000
        (λ id. id) in
    let second =
      check_heartbeats quick_socket hard_kill heartbeat two_connections first 9250 (λ id. id) in
    (first "c1"
      ≡ close quick_socket (record (node.store "c1") { is_heartbeat_timed_out = true }) 1002)
    × (second "c1" ≡ terminate hard_kill (first "c1"))
unfolding contains get_all_connections
check_heartbeats-reaps_example =
    check_heartbeats-reaps quick_socket hard_kill heartbeat two_connections node.store 9000 9250
      (λ id. id) "c1" (refl, (refl, tt)) refl refl refl (omega arith)
