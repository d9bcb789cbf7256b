-- ===== src/PresenceManager/Flush.antt =====
-- src/redis/PresenceManager.ts: the renewal of the leases of the local connections, and the users of
-- rooms.
use pulse_distributed_real_t.RedisStore.{RedisStore}
use pulse_distributed_real_t.JsMap.{keys}
use pulse_distributed_real_t.PresenceLuaScripts.{
  ◌>>=◌, get_presence_user_key, format_presence_member, get_room_members_key,
}
use pulse_distributed_real_t.Prelude.{
  String, List, Option, Bool, false, ℕ, if◌then◌else◌, some, ◌==◌, none, ◌+◌, [], true, not, truthy,
  ◌||◌, ◌∷◌, length, map, trim,
}
use pulse_distributed_real_t.PresenceManager.{PresenceManager, users_of}

-- What the provider answers, or the local connections: users and connection ids.
unfoldable pub get_local_active_connections :
    PresenceManager → Option (List (String × String)) → List (String × String)
get_local_active_connections m (some provided) = provided
get_local_active_connections m none = map (λ c. (c.1, c.0)) m.local_connections

-- The keys and members of the pipeline; `none` where the code throws.
unfoldable pub renewals : String → List (String × String) → Option (List (String × String))
unfolding get_presence_user_key format_presence_member
renewals instance_id [] = some []
renewals instance_id ((user_id, connection_id) ∷ active) = do
  user_key ← get_presence_user_key user_id
  member ← format_presence_member instance_id connection_id
  rest ← renewals instance_id active
  some ((user_key, member) ∷ rest)

-- A flush up to its await: the commands, if it comes that far. One that is under way keeps others
-- from starting.
unfoldable pub start_flush :
    PresenceManager
    → Option (List (String × String))
    → PresenceManager × Option (List (String × String))
unfolding get_local_active_connections renewals
start_flush m provided =
    let active = get_local_active_connections m provided in
    if m.is_flushing
    then (m, none)
    else if length active == 0
    then (m, none)
    else elim (renewals m.instance_id active) [
      | none ↦ (m, none)
      | some commands ↦ (record m { is_flushing = true }, some commands)
    ]

module _ {S : Type 0} (r : RedisStore S) where
  unfoldable pub add_leases : ℕ → List (String × String) → S → S
  add_leases expire_at [] s = s
  add_leases expire_at ((user_key, member) ∷ commands) s =
      add_leases expire_at commands (r.zadd s user_key expire_at member)

  unfoldable pub extend_keys : ℕ → List String → S → S
  extend_keys ttl [] s = s
  extend_keys ttl (user_key ∷ user_keys) s = extend_keys ttl user_keys (r.expire s user_key ttl)

  -- The pipeline: a lease for each connection, and an expiry for each key once.
  unfoldable pub run_pipeline : PresenceManager → ℕ → List (String × String) → S → S
  unfolding add_leases extend_keys users_of
  run_pipeline m now commands s =
      extend_keys m.key_safeguard_ttl_sec (keys (users_of (map (λ c. c.0) commands)))
        (add_leases (now + m.presence_ttl_ms) commands s)

  -- The flush from its await on, and how many leases it renewed.
  unfoldable pub finish_flush :
      PresenceManager → S → ℕ → List (String × String) → Bool → PresenceManager × S × ℕ
  unfolding run_pipeline
  finish_flush m s now commands answers =
      if answers
      then (
        record m {
          is_flushing = false;
          total_lease_renewals = m.total_lease_renewals + length commands;
        },
        run_pipeline m now commands s,
        length commands,
      )
      else (record m { is_flushing = false }, s, 0)

  unfoldable pub add_room_member : S → String → String → Bool → S
  unfolding get_room_members_key
  add_room_member s room_id user_id answers =
      if not (truthy (trim room_id)) || not (truthy (trim user_id)) || not answers
      then s
      else elim (get_room_members_key (trim room_id)) [
        | none ↦ s
        | some room_key ↦ r.sadd s room_key (trim user_id)
      ]

  unfoldable pub remove_room_member : S → String → String → Bool → S
  unfolding get_room_members_key
  remove_room_member s room_id user_id answers =
      if not (truthy (trim room_id)) || not (truthy (trim user_id)) || not answers
      then s
      else elim (get_room_members_key (trim room_id)) [
        | none ↦ s
        | some room_key ↦ r.srem s room_key (trim user_id)
      ]
