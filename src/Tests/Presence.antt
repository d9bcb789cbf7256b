-- ===== src/Tests/Presence.antt =====
-- The presence scripts and the presence manager at concrete states.
use pulse_distributed_real_t.RedisStore.Leases.{Entries, entries_store, entries_store-IsRedis}
use pulse_distributed_real_t.PresenceLuaScripts.Transitions.{IsOffline, is_live}
use pulse_distributed_real_t.PresenceLuaScripts.Rosters.{online_of}
use pulse_distributed_real_t.PresenceManager.Roster.{
  get_room_roster, get_room_roster_lem, IsRosterOf, local_members,
}
use pulse_distributed_real_t.JsMap.{contains, set, get}
use pulse_distributed_real_t.PresenceManager.{PresenceManager, users_of}
use pulse_distributed_real_t.PresenceManager.Counts.{IsCounted}
use Prim.Native.String.{String}
use pulse_distributed_real_t.PresenceLuaScripts.{get_room_members_key}
use pulse_distributed_real_t.Prelude.{
  ◌∷◌, [], List, inl, none, ◌≡◌, inr, String, true, arith, some, refl, false, trim,
}

-- Ann has a lease up to 500, and she and Bob are in the lobby.
abbrev entries : Entries
entries = record {
  leases = ("pulse:presence:user:ann", "n1:c1", 500) ∷ [];
  members = ("pulse:room:lobby:members", "ann") ∷ ("pulse:room:lobby:members", "bob") ∷ [];
}

abbrev manager : PresenceManager
manager = record {
  instance_id = "n1";
  presence_ttl_ms = 60000;
  key_safeguard_ttl_sec = 120;
  local_connections = ("c1", "ann") ∷ [];
  rooms_provider = none;
  local_roster_provider = none;
  is_connected = true;
  pub_sub_counts = some (1, 1);
  gauges = none;
  is_flushing = false;
  published = [];
  events_published = 0;
  total_lease_renewals = 0;
  events_received = 0;
  is_renewal_loop_running = false;
}

-- Nobody else writes.
abbrev alone : Entries → Entries
alone s = s

-- At 600 the lease of Ann is over.
ann-IsOffline : IsOffline entries_store entries_store-IsRedis entries "pulse:presence:user:ann" 600
unfolding entries_store is_live
ann-IsOffline m = ground arith

get_room_roster_lem_example :
    let (t, roster) = get_room_roster entries_store manager entries " lobby" 100 true in
    let (u, fallback) = get_room_roster entries_store manager entries " lobby" 100 false in
    let listed : List String = "ann" ∷ [] in
    IsRosterOf "lobby" listed roster
    × ((n : String)
        → contains n (entries_store.smembers t "pulse:room:lobby:members") ≡ contains n listed)
    × (u ≡ entries)
    × IsRosterOf "lobby" [] fallback
unfolding trim get_room_members_key entries_store online_of local_members
get_room_roster_lem_example =
    get_room_roster_lem entries_store entries_store-IsRedis manager entries " lobby"
      "pulse:room:lobby:members" 100 refl refl
      (((refl, (refl, (refl, tt))), refl), (((refl, (refl, (refl, tt))), refl), tt))

manager-IsCounted : IsCounted manager
unfolding get users_of set
manager-IsCounted = record { distinct = (refl, tt); gauges = inl refl; pub_sub = inr refl }
