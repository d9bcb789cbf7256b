-- ===== src/PresenceManager/Renewal.antt =====
-- src/redis/PresenceManager.ts: the renewal of the leases of the local connections.
use pulse_distributed_real_t.RedisStore.{RedisStore, IsRedis}
use pulse_distributed_real_t.PresenceLuaScripts.{get_presence_user_key, format_presence_member}
use pulse_distributed_real_t.PresenceManager.{PresenceManager, String}
use pulse_distributed_real_t.Prelude.{String, ◌≢◌, ℕ, none, ◌≡◌, some}

-- A connection that has a key and a member.
abbrev pub IsNamed : String → String × String → Type 0
IsNamed instance_id (user_id, connection_id) =
    (get_presence_user_key user_id ≢ none)
    × (format_presence_member instance_id connection_id ≢ none)

module _ {S : Type 0} (r : RedisStore S) (laws : IsRedis r) where
  -- The connection's lease ends at `expire_at`.
  unfoldable pub IsLeased : S → String → ℕ → String × String → Type 0
  IsLeased s instance_id expire_at (user_id, connection_id) =
      (user_key member : String)
      → get_presence_user_key user_id ≡ some user_key
      → format_presence_member instance_id connection_id ≡ some member
      → r.zscore s user_key member ≡ some expire_at
