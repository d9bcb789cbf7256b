-- ===== src/PresenceManager/Runs.antt =====
-- src/redis/PresenceManager.ts: calls with ids that Redis answers each time, up to their end.
use pulse_distributed_real_t.RedisStore.{RedisStore}
use pulse_distributed_real_t.PresenceLuaScripts.{
  get_presence_user_key, format_presence_member, execute_register_presence, execute_remove_presence,
  register_presence, remove_presence,
}
use pulse_distributed_real_t.PresenceManager.{
  PresenceManager, Answers, String, true, finish_registration, update_active_metrics,
  register_connection, answered, remove_connection, finish_removal, expire_at_of, delete,
}
use pulse_distributed_real_t.Prelude.{String, true, List, ◌≡◌, ℕ, Option, truthy, some, refl}

abbrev pub all_answer : Answers
all_answer = record { script = true; count = true; publication = true }

module _ {S : Type 0} (r : RedisStore S) where
  pub execute_register_presence_run :
      (s : S) (user_id instance_id connection_id user_key member : String) (expire_at now ttl : ℕ)
      → get_presence_user_key user_id ≡ some user_key
      → format_presence_member instance_id connection_id ≡ some member
      → execute_register_presence r s user_id instance_id connection_id expire_at now ttl
        ≡ some (register_presence r s user_key member expire_at now ttl)
  unfolding execute_register_presence
  execute_register_presence_run s user_id instance_id connection_id user_key member expire_at now
        ttl keyed formed =
      rw keyed (rw formed refl)

  pub execute_remove_presence_run :
      (s : S) (user_id instance_id connection_id user_key member : String) (now ttl : ℕ)
      → get_presence_user_key user_id ≡ some user_key
      → format_presence_member instance_id connection_id ≡ some member
      → execute_remove_presence r s user_id instance_id connection_id now ttl
        ≡ some (remove_presence r s user_key member now ttl)
  unfolding execute_remove_presence
  execute_remove_presence_run s user_id instance_id connection_id user_key member now ttl keyed
        formed =
      rw keyed (rw formed refl)

  pub register_connection_run :
      (m : PresenceManager) (s : S) (between : S → S) (user_id connection_id : String)
      (expire_at : Option ℕ) (now : ℕ) (rooms : Option (List String))
      → (truthy user_id ≡ true) × (truthy connection_id ≡ true)
      → register_connection r m s between user_id connection_id expire_at now rooms all_answer
        ≡ some (
            finish_registration r m s between user_id connection_id now rooms all_answer (
              execute_register_presence r s user_id m.instance_id connection_id
                (expire_at_of m expire_at now)
                now
                m.key_safeguard_ttl_sec))
  unfolding register_connection answered
  register_connection_run m s between user_id connection_id expire_at now rooms (named, connected) =
      rw named (rw connected refl)

  pub remove_connection_run :
      (m : PresenceManager) (s : S) (between : S → S) (user_id connection_id : String) (now : ℕ)
      (rooms : Option (List String))
      → (truthy user_id ≡ true) × (truthy connection_id ≡ true)
      → remove_connection r m s between user_id connection_id now rooms all_answer
        ≡ some (
            finish_removal r
              (update_active_metrics
                (record m { local_connections = delete connection_id m.local_connections }))
              s
              between
              user_id
              now
              rooms
              all_answer
              (execute_remove_presence r s user_id m.instance_id connection_id now
                m.key_safeguard_ttl_sec))
  unfolding remove_connection answered
  remove_connection_run m s between user_id connection_id now rooms (named, connected) =
      rw named (rw connected refl)
