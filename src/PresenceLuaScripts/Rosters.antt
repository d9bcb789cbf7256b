-- ===== src/PresenceLuaScripts/Rosters.antt =====
-- src/redis/PresenceLuaScripts.ts: the roster of a room.
use text.Mathlib.TextEquality.{eq_iff}
use pulse_distributed_real_t.RedisStore.{RedisStore, IsRedis, past}
use pulse_distributed_real_t.JsMap.{contains}
use pulse_distributed_real_t.PresenceLuaScripts.{
  ◌>>=◌, parse_roster, join_commas, roster_loop, ℕ, String, presence_user_key_prefix,
  execute_get_room_presence_roster, room_presence_roster, get_room_members_key,
}
use pulse_distributed_real_t.PresenceLuaScripts.Transitions.{IsOffline, zcard-pruned}
use pulse_distributed_real_t.PresenceLuaScripts.Members.{IsPlain, parse_roster-join}
use pulse_distributed_real_t.Prelude.{
  ℕ, String, Option, Bool, ◌≡◌, List, arith, if◌then◌else◌, some, ltb, false, ◌∷◌, =ₛ_refl, sym,
  not, ◌&&◌, ◌+ₛ◌, ◌↔◌, ap, ◌=ₛ◌, ◌||◌, none, [], refl, ◌∙◌, All,
}
use mathlib.Core.Option.{none}

past_idem : (now : ℕ) (o : Option ℕ) → past now (past now o) ≡ past now o
unfolding past
past_idem now none = refl
past_idem now (some x) = ground arith

module _ {S : Type 0} (r : RedisStore S) (laws : IsRedis r) where
  user_key : String → String
  user_key user_id = presence_user_key_prefix +ₛ user_id

  -- Whether a user has a lease past `now`, as the script finds out.
  unfoldable pub is_online : S → ℕ → String → Bool
  unfolding user_key
  is_online s now user_id =
      ltb 0 (r.zcard (r.zremrangebyscore s (user_key user_id) now) (user_key user_id))

  pub is_online_lem :
      (s : S) (now : ℕ) (user_id : String)
      → (is_online s now user_id ≡ false)
        ↔ IsOffline r laws s (presence_user_key_prefix +ₛ user_id) now
  unfolding is_online user_key
  is_online_lem s now user_id = ground (arith, zcard-pruned r laws s (user_key user_id) now)

  unfoldable pub online_of : S → ℕ → List String → List String
  unfolding is_online
  online_of s now [] = []
  online_of s now (u ∷ us) =
      let rest = online_of s now us in if is_online s now u then u ∷ rest else rest

  -- The stores have the same leases past `now`.
  abbrev pub IsSame : ℕ → S → S → Type 0
  IsSame now s t = (k m : String) → past now (r.zscore s k m) ≡ past now (r.zscore t k m)

  IsSame-zcard :
      (now : ℕ) (s t : S) (k : String)
      → IsSame now s t
      → r.zcard (r.zremrangebyscore s k now) k ≡ 0
      → r.zcard (r.zremrangebyscore t k now) k ≡ 0
  IsSame-zcard now s t k same h = (laws.zcard-zero (r.zremrangebyscore t k now) k).1 (λ m. ground (
    arith,
    (laws.zcard-zero (r.zremrangebyscore s k now) k).0 h m,
    laws.zscore-zremrangebyscore s k now k m,
    laws.zscore-zremrangebyscore t k now k m,
    same k m,
    =ₛ_refl k,
  ))

  IsSame-online :
      (now : ℕ) (s t : S) (u : String) → IsSame now s t → is_online s now u ≡ is_online t now u
  unfolding is_online
  IsSame-online now s t u same = ground (
    arith,
    IsSame-zcard now s t (user_key u) same,
    IsSame-zcard now t s (user_key u) (λ k m. sym (same k m)),
  )

  IsSame-pruned : (now : ℕ) (s : S) (k : String) → IsSame now s (r.zremrangebyscore s k now)
  IsSame-pruned now s k j m =
      ground (arith, laws.zscore-zremrangebyscore s k now j m, past_idem now (r.zscore s j m))

  -- What a turn of the loop leaves.
  kept : String → ℕ → S → String → S
  unfolding is_online
  kept room_key now s u =
      let pruned = r.zremrangebyscore s (user_key u) now in
      if is_online s now u then pruned else r.srem pruned room_key u

  IsSame-kept :
      (room_key : String) (now : ℕ) (s : S) (u : String) → IsSame now s (kept room_key now s u)
  unfolding kept
  IsSame-kept room_key now s u k m =
      let pruned = r.zremrangebyscore s (user_key u) now in
      ground (arith, IsSame-pruned now s (user_key u) k m, laws.zscore-srem pruned room_key u k m)

  contains-kept :
      (room_key : String) (now : ℕ) (s : S) (u n : String)
      → contains n (r.smembers (kept room_key now s u) room_key)
        ≡ (if not (is_online s now u) && u =ₛ n then false else contains n (r.smembers s room_key))
  unfolding kept
  contains-kept room_key now s u n =
      let pruned = r.zremrangebyscore s (user_key u) now in
      ground (
        arith,
        laws.smembers-srem pruned room_key u room_key n,
        ap (contains n) (laws.smembers-zremrangebyscore s (user_key u) now room_key),
        =ₛ_refl room_key,
      )

  roster_loop-kept :
      (room_key : String) (now : ℕ) (u : String) (us : List String) (s : S)
      → let (final, online) = roster_loop r room_key now us (kept room_key now s u) in
        roster_loop r room_key now (u ∷ us) s
        ≡ (final, if is_online s now u then u ∷ online else online)
  unfolding roster_loop kept is_online user_key
  roster_loop-kept room_key now u us s = refl

  online_of-IsSame :
      (now : ℕ) (s t : S) (us : List String)
      → IsSame now s t
      → online_of s now us ≡ online_of t now us
  unfolding online_of
  online_of-IsSame now s t [] same = refl
  online_of-IsSame now s t (u ∷ us) same =
      ground (arith, IsSame-online now s t u same, online_of-IsSame now s t us same)

  roster_loop-online :
      (room_key : String) (now : ℕ) (us : List String) (s : S)
      → (roster_loop r room_key now us s).1 ≡ online_of s now us
  unfolding roster_loop online_of
  roster_loop-online room_key now [] s = refl
  roster_loop-online room_key now (u ∷ us) s =
      ap (λ x. x.1) (roster_loop-kept room_key now u us s)
      ∙ ap (λ xs. if is_online s now u then u ∷ xs else xs)
          (roster_loop-online room_key now us (kept room_key now s u)
            ∙ sym
                (online_of-IsSame now s (kept room_key now s u) us (IsSame-kept room_key now s u)))

  turn :
      (room_key : String) (now : ℕ) (u : String) (us : List String) (s : S) (n : String)
      → let t = kept room_key now s u in
        contains n (r.smembers (roster_loop r room_key now us t).0 room_key)
          ≡ (contains n (r.smembers t room_key) && (is_online t now n || not (contains n us)))
        → contains n (r.smembers (roster_loop r room_key now us t).0 room_key)
          ≡ (contains n (r.smembers s room_key) && (is_online s now n || not (contains n (u ∷ us))))
  unfolding contains
  turn room_key now u us s n h =
      let t = kept room_key now s u in
      ground (
        arith,
        h,
        contains-kept room_key now s u n,
        IsSame-online now s t n (IsSame-kept room_key now s u),
        eq_iff u n,
        ap (is_online s now) {x = u} {y = n},
      )

  -- Just the members that are not online leave the room.
  roster_loop-members :
      (room_key : String) (now : ℕ) (us : List String) (s : S) (n : String)
      → contains n (r.smembers (roster_loop r room_key now us s).0 room_key)
        ≡ (contains n (r.smembers s room_key) && (is_online s now n || not (contains n us)))
  unfolding contains roster_loop
  roster_loop-members room_key now [] s n = ground arith
  roster_loop-members room_key now (u ∷ us) s n =
      ap (λ x. contains n (r.smembers x.0 room_key)) (roster_loop-kept room_key now u us s)
      ∙ turn room_key now u us s n (roster_loop-members room_key now us (kept room_key now s u) n)

  All-online :
      (P : String → Type 0) (s : S) (now : ℕ) (us : List String)
      → All P us
      → All P (online_of s now us)
  unfolding online_of
  All-online P s now [] h = tt
  All-online P s now (u ∷ us) h = ground (arith, h, All-online P s now us h.1)

  contains-online :
      (s : S) (now : ℕ) (us : List String) (n : String)
      → contains n (online_of s now us) ≡ (contains n us && is_online s now n)
  unfolding online_of contains
  contains-online s now [] n = refl
  contains-online s now (u ∷ us) n =
      ground (arith, contains-online s now us n, eq_iff u n, ap (is_online s now) {x = u} {y = n})

  -- With members of the room that are not blank and have no comma, the roster lists, in their
  -- order, the members with a lease past now, and just these are left in the room.
  pub execute_get_room_presence_roster_lem :
      (s : S) (room_id room_key : String) (now : ℕ)
      → get_room_members_key room_id ≡ some room_key
      → All IsPlain (r.smembers s room_key)
      → let final = (room_presence_roster r s room_key now).0 in
        let online = online_of s now (r.smembers s room_key) in
        (execute_get_room_presence_roster r s room_id now ≡ some (final, online))
        × ((n : String) → contains n (r.smembers final room_key) ≡ contains n online)
  unfolding execute_get_room_presence_roster room_presence_roster
  execute_get_room_presence_roster_lem s room_id room_key now e plain =
      let all = r.smembers s room_key in
      let (final, found) = room_presence_roster r s room_key now in
      let online = roster_loop-online room_key now all s in
      (
        ap
              (λ key. key >>= λ k. some (
                (room_presence_roster r s k now).0,
                parse_roster (join_commas (room_presence_roster r s k now).1),
              ))
              e
            ∙ ap (λ xs. some (final, parse_roster (join_commas xs))) online
            ∙ ap (λ xs. some (final, xs))
                (parse_roster-join (online_of s now all) (All-online IsPlain s now all plain)),
        λ n. ground (arith, roster_loop-members room_key now all s n, contains-online s now all n),
      )
