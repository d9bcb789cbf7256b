-- ===== src/PresenceLuaScripts.antt =====
-- src/redis/PresenceLuaScripts.ts: the keys, the members and the three scripts, over the interface
-- RedisStore. A script runs as one step. Numbers that go through text to the script come back as
-- they were.
pub mod Texts
pub mod Transitions
pub mod Members
pub mod Rosters
unfoldable pub use Texts.*
use pulse_distributed_real_t.RedisStore.{RedisStore}
use Prim.Native.Nat.{ℕ}
use pulse_distributed_real_t.Prelude.{
  String, ℕ, List, Option, if◌then◌else◌, not, none, ◌==◌, ltb, ◌+ₛ◌, truthy, trim, ◌||◌, some, [],
  ◌=ₛ◌, ◌∷◌,
}

infixl 5 ◌>>=◌
abbrev pub ◌>>=◌ : {A B : Type 0} → Option A → (A → Option B) → Option B
none >>= f = none
some a >>= f = f a

abbrev pub presence_user_key_prefix : String
presence_user_key_prefix = "pulse:presence:user:"

abbrev pub presence_room_members_prefix : String
presence_room_members_prefix = "pulse:room:"

abbrev pub default_key_safeguard_ttl_sec : ℕ
default_key_safeguard_ttl_sec = 120

-- `none` where the code throws.
unfoldable pub get_presence_user_key : String → Option String
get_presence_user_key user_id =
    if not (truthy user_id)
    then none
    else if trim user_id =ₛ ""
    then none
    else some (presence_user_key_prefix +ₛ trim user_id)

unfoldable pub get_room_members_key : String → Option String
get_room_members_key room_id =
    if not (truthy room_id)
    then none
    else if trim room_id =ₛ ""
    then none
    else some (presence_room_members_prefix +ₛ trim room_id +ₛ ":members")

unfoldable pub format_presence_member : String → String → Option String
format_presence_member instance_id connection_id =
    if not (truthy instance_id) || not (truthy connection_id)
    then none
    else some (instance_id +ₛ ":" +ₛ connection_id)

unfoldable pub parse_presence_member : String → Option (String × String)
unfolding split_colon
parse_presence_member member = do
  parts ← split_colon member
  if not (truthy parts.0) || not (truthy parts.1) then none else some parts

module _ {S : Type 0} (r : RedisStore S) where
  -- REGISTER_PRESENCE_LUA
  unfoldable pub register_presence : S → String → String → ℕ → ℕ → ℕ → S × ℕ
  register_presence s key member expire_at now key_ttl =
      let pruned = r.zremrangebyscore s key now in
      let count_before = r.zcard pruned key in
      let added = r.zadd pruned key expire_at member in
      (r.expire added key key_ttl, if count_before == 0 then 1 else 0)

  -- REMOVE_PRESENCE_LUA
  unfoldable pub remove_presence : S → String → String → ℕ → ℕ → S × ℕ
  remove_presence s key member now key_ttl =
      let pruned = r.zremrangebyscore (r.zrem s key member) key now in
      let count_after = r.zcard pruned key in
      if ltb 0 count_after then (r.expire pruned key key_ttl, 0) else (r.del pruned key, 1)

  -- The loop of GET_ROOM_PRESENCE_ROSTER_LUA.
  unfoldable pub roster_loop : String → ℕ → List String → S → S × List String
  roster_loop room_key now [] s = (s, [])
  roster_loop room_key now (user_id ∷ members) s =
      let user_key = presence_user_key_prefix +ₛ user_id in
      let pruned = r.zremrangebyscore s user_key now in
      let count = r.zcard pruned user_key in
      let kept = if ltb 0 count then pruned else r.srem pruned room_key user_id in
      let (final, online) = roster_loop room_key now members kept in
      (final, if ltb 0 count then user_id ∷ online else online)

  unfoldable pub room_presence_roster : S → String → ℕ → S × List String
  unfolding roster_loop
  room_presence_roster s room_key now = roster_loop room_key now (r.smembers s room_key) s

  -- `none` where the wrapper throws before it calls Redis.
  unfoldable pub execute_register_presence :
      S → String → String → String → ℕ → ℕ → ℕ → Option (S × ℕ)
  unfolding get_presence_user_key format_presence_member register_presence
  execute_register_presence s user_id instance_id connection_id expire_at now key_ttl = do
    user_key ← get_presence_user_key user_id
    member ← format_presence_member instance_id connection_id
    some (register_presence s user_key member expire_at now key_ttl)

  unfoldable pub execute_remove_presence : S → String → String → String → ℕ → ℕ → Option (S × ℕ)
  unfolding get_presence_user_key format_presence_member remove_presence
  execute_remove_presence s user_id instance_id connection_id now key_ttl = do
    user_key ← get_presence_user_key user_id
    member ← format_presence_member instance_id connection_id
    some (remove_presence s user_key member now key_ttl)

-- list.filter(Boolean)
unfoldable pub filter_truthy : List String → List String
filter_truthy [] = []
filter_truthy (x ∷ xs) = let rest = filter_truthy xs in if truthy x then x ∷ rest else rest

unfoldable pub parse_roster : String → List String
unfolding split_commas filter_truthy
parse_roster text =
    let (part, parts) = split_commas text in
    if not (truthy text) then [] else if trim text =ₛ "" then [] else filter_truthy (part ∷ parts)

module _ {S : Type 0} (r : RedisStore S) where
  unfoldable pub execute_get_room_presence_roster : S → String → ℕ → Option (S × List String)
  unfolding get_room_members_key room_presence_roster join_commas parse_roster
  execute_get_room_presence_roster s room_id now = do
    room_key ← get_room_members_key room_id
    let (final, online) = room_presence_roster r s room_key now
    some (final, parse_roster (join_commas online))
