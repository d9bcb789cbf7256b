-- ===== src/PresenceManager/Queries.antt =====
-- src/redis/PresenceManager.ts: the list of a user's connections and the pruning of a user's leases.
use pulse_distributed_real_t.Prelude.{none, some, if◌then◌else◌, [], ◌-◌, ◌∷◌}
use pulse_distributed_real_t.RedisStore.{RedisStore}
use pulse_distributed_real_t.PresenceLuaScripts.{get_presence_user_key, parse_presence_member}
use pulse_distributed_real_t.Prelude.{List, String, ℕ, Bool}

-- The members that can be read; others are passed over.
unfoldable pub parse_members : List String → List (String × String)
unfolding parse_presence_member
parse_members [] = []
parse_members (member ∷ members) = elim (parse_presence_member member) [
  | none ↦ parse_members members
  | some parsed ↦ parsed ∷ parse_members members
]

module _ {S : Type 0} (r : RedisStore S) where
  -- Instance and connection ids of the leases past now.
  unfoldable pub get_user_connections : S → String → ℕ → Bool → S × List (String × String)
  unfolding get_presence_user_key parse_members
  get_user_connections s user_id now answers = elim (get_presence_user_key user_id) [
    | none ↦ (s, [])
    | some user_key ↦
        let pruned = r.zremrangebyscore s user_key now in
        if answers then (pruned, parse_members (r.zrangebyscore pruned user_key now)) else (s, [])
  ]

  -- Redis tells how many members it removed.
  unfoldable pub prune_expired : S → String → ℕ → Bool → S × ℕ
  unfolding get_presence_user_key
  prune_expired s user_id now answers = elim (get_presence_user_key user_id) [
    | none ↦ (s, 0)
    | some user_key ↦
        let pruned = r.zremrangebyscore s user_key now in
        if answers then (pruned, r.zcard s user_key - r.zcard pruned user_key) else (s, 0)
  ]
