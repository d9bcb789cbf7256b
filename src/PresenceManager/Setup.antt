-- ===== src/PresenceManager/Setup.antt =====
-- src/redis/PresenceManager.ts: the constructor, the setters and the switch of the renewal loop.
use pulse_distributed_real_t.PresenceLuaScripts.{default_key_safeguard_ttl_sec}
use pulse_distributed_real_t.PresenceManager.{
  PresenceManager, ℕ, String, some, Bool, true, false, ◌+◌,
}
use pulse_distributed_real_t.Prelude.{
  ℕ, String, some, Bool, true, false, ◌+◌, Option, List, [], none,
}
use mathlib.Core.Option.{none}

unfoldable default_to : ℕ → Option ℕ → ℕ
default_to n none = n
default_to n (some given) = given

-- The defaults of the constructor: leases of a minute, and keys that are kept for two.
unfoldable pub new_presence_manager : String → Option ℕ → Option ℕ → PresenceManager
unfolding default_to
new_presence_manager instance_id presence_ttl_ms key_safeguard_ttl_sec = record {
  instance_id = instance_id;
  presence_ttl_ms = default_to 60000 presence_ttl_ms;
  key_safeguard_ttl_sec = default_to default_key_safeguard_ttl_sec key_safeguard_ttl_sec;
  local_connections = [];
  rooms_provider = none;
  local_roster_provider = none;
  is_connected = false;
  pub_sub_counts = none;
  gauges = none;
  is_flushing = false;
  published = [];
  events_published = 0;
  total_lease_renewals = 0;
  events_received = 0;
  is_renewal_loop_running = false;
}

-- `shown` is what the new gauges show; the counts are not written to them before the next change.
unfoldable pub set_metrics_registry : PresenceManager → ℕ × ℕ → PresenceManager
set_metrics_registry m shown = record m { gauges = some shown }

unfoldable pub set_pub_sub_manager : PresenceManager → ℕ × ℕ → Bool → PresenceManager
set_pub_sub_manager m shown is_connected = record m {
  pub_sub_counts = some shown;
  is_connected = is_connected;
}

unfoldable pub set_rooms_provider : PresenceManager → (String → List String) → PresenceManager
set_rooms_provider m provider = record m { rooms_provider = some provider }

unfoldable pub set_local_roster_provider :
    PresenceManager → (String → List String) → PresenceManager
set_local_roster_provider m provider = record m { local_roster_provider = some provider }

-- A loop that runs is replaced by a new one.
unfoldable pub start_renewal_loop : PresenceManager → PresenceManager
start_renewal_loop m = record m { is_renewal_loop_running = true }

unfoldable pub stop_renewal_loop : PresenceManager → PresenceManager
stop_renewal_loop m = record m { is_renewal_loop_running = false }

unfoldable pub record_inbound_event : PresenceManager → PresenceManager
record_inbound_event m = record m { events_received = m.events_received + 1 }
