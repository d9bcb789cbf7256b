-- ===== src/PresenceLuaScripts/Transitions.antt =====
-- src/redis/PresenceLuaScripts.ts: when a user comes online and goes offline.
use text.Mathlib.TextEquality.{eq_iff}
use pulse_distributed_real_t.RedisStore.{RedisStore, IsRedis, past}
use pulse_distributed_real_t.PresenceLuaScripts.{register_presence, remove_presence, ℕ, String}
use pulse_distributed_real_t.Prelude.{
  ℕ, String, Option, ◌≡◌, ◌≤◌, ◌=ₛ◌, Bool, none, false, ◌↔◌, arith, if◌then◌else◌, some, =ₛ_refl,
  ◌&&◌, ltb, ◌∙◌, refl, ap, Bool-cases, inl, inr,
}

-- A lease that lasts past `now`.
unfoldable pub is_live : ℕ → Option ℕ → Bool
is_live now none = false
is_live now (some x) = ltb now x

past-none : (now : ℕ) (o : Option ℕ) → (past now o ≡ none) ↔ (is_live now o ≡ false)
unfolding past is_live
past-none now none = (λ _. refl, λ _. refl)
past-none now (some x) = ground arith

module _ {S : Type 0} (r : RedisStore S) (laws : IsRedis r) where
  -- No lease of the user whose key is `key` lasts past `now`.
  abbrev pub IsOffline : S → String → ℕ → Type 0
  IsOffline s key now = (m : String) → is_live now (r.zscore s key m) ≡ false

  -- No lease but that of `member` lasts past `now`.
  abbrev pub IsLast : S → String → String → ℕ → Type 0
  IsLast s key member now =
      (m : String) → (member =ₛ m) ≡ false → is_live now (r.zscore s key m) ≡ false

  pub zcard-pruned :
      (s : S) (key : String) (now : ℕ)
      → (r.zcard (r.zremrangebyscore s key now) key ≡ 0) ↔ IsOffline s key now
  zcard-pruned s key now =
      let pruned = λ (m : String). laws.zscore-zremrangebyscore s key now key m in
      let (empty, count) = laws.zcard-zero (r.zremrangebyscore s key now) key in
      (
        λ h m. ground (arith, empty h m, pruned m, =ₛ_refl key, past-none now (r.zscore s key m)),
        λ h.
            count
              (λ m. ground (arith, h m, pruned m, =ₛ_refl key, past-none now (r.zscore s key m))),
      )

  pub register_presence_lem :
      (s : S) (key member : String) (expire_at now key_ttl : ℕ)
      → let (t, transition) = register_presence r s key member expire_at now key_ttl in
        ((transition ≡ 1) ↔ IsOffline s key now)
        × ((j n : String)
            → r.zscore t j n ≡ (
                if key =ₛ j && member =ₛ n
                then some expire_at
                else if key =ₛ j
                then past now (r.zscore s j n)
                else r.zscore s j n))
  unfolding register_presence
  register_presence_lem s key member expire_at now key_ttl =
      let pruned = r.zremrangebyscore s key now in
      let added = r.zadd pruned key expire_at member in
      (
        ground (arith, zcard-pruned s key now),
        λ j n.
            laws.zscore-expire added key key_ttl j n
            ∙ laws.zscore-zadd pruned key expire_at member j n
            ∙ ap (λ o. if key =ₛ j && member =ₛ n then some expire_at else o)
                (laws.zscore-zremrangebyscore s key now j n),
      )

  -- What is left for a lookup when the member is gone and the others are pruned.
  unfoldable pub left_of : S → String → String → ℕ → String → String → Option ℕ
  left_of s key member now j n =
      if key =ₛ j then (if member =ₛ n then none else past now (r.zscore s j n)) else r.zscore s j n

  zscore-pruned :
      (s : S) (key member : String) (now : ℕ) (j n : String)
      → r.zscore (r.zremrangebyscore (r.zrem s key member) key now) j n
        ≡ left_of s key member now j n
  unfolding left_of past
  zscore-pruned s key member now j n = ground (
    arith,
    laws.zscore-zremrangebyscore (r.zrem s key member) key now j n,
    laws.zscore-zrem s key member j n,
  )

  zcard-removed :
      (s : S) (key member : String) (now : ℕ)
      → (r.zcard (r.zremrangebyscore (r.zrem s key member) key now) key ≡ 0)
        ↔ IsLast s key member now
  unfolding left_of
  zcard-removed s key member now =
      let pruned = λ (m : String). zscore-pruned s key member now key m in
      let (empty, count) = laws.zcard-zero (r.zremrangebyscore (r.zrem s key member) key now) key in
      (
        λ h m other.
            ground
              (arith, empty h m, pruned m, other, =ₛ_refl key, past-none now (r.zscore s key m)),
        λ h.
            count
              (λ m. ground (arith, h m, pruned m, =ₛ_refl key, past-none now (r.zscore s key m))),
      )

  zscore-remove :
      (s : S) (key member : String) (now key_ttl : ℕ) (j n : String)
      → r.zscore (remove_presence r s key member now key_ttl).0 j n ≡ left_of s key member now j n
  unfolding remove_presence
  zscore-remove s key member now key_ttl j n =
      let pruned = r.zremrangebyscore (r.zrem s key member) key now in
      let same = zscore-pruned s key member now j n in
      elim (Bool-cases (ltb 0 (r.zcard pruned key))) [
        | inl some_left ↦ rw some_left (laws.zscore-expire pruned key key_ttl j n ∙ same)
        | inr none_left ↦ ground (
          arith,
          none_left,
          same,
          (laws.zcard-zero pruned key).0 (ground arith) n,
          laws.zscore-del pruned key j n,
          eq_iff key j,
        )
      ]

  pub remove_presence_lem :
      (s : S) (key member : String) (now key_ttl : ℕ)
      → let (t, transition) = remove_presence r s key member now key_ttl in
        ((transition ≡ 1) ↔ IsLast s key member now)
        × ((j n : String) → r.zscore t j n ≡ left_of s key member now j n)
  unfolding remove_presence
  remove_presence_lem s key member now key_ttl =
      (ground (arith, zcard-removed s key member now), zscore-remove s key member now key_ttl)

  still-IsOffline :
      (s : S) (key member : String) (now later key_ttl : ℕ)
      → IsOffline s key now
      → IsOffline (remove_presence r s key member now key_ttl).0 key later
  unfolding left_of is_live
  still-IsOffline s key member now later key_ttl h m = ground (
    arith,
    h m,
    zscore-remove s key member now key_ttl key m,
    past-none now (r.zscore s key m),
    =ₛ_refl key,
  )

  -- If no lease of a user lasts past now, a removal for the user tells a transition, and a later
  -- one tells it again.
  pub remove_presence_again :
      (s : S) (key member : String) (now later key_ttl : ℕ)
      → IsOffline s key now
      → now ≤ later
      → let (t, first) = remove_presence r s key member now key_ttl in
        let (u, second) = remove_presence r t key member later key_ttl in (first ≡ 1) × (second ≡ 1)
  remove_presence_again s key member now later key_ttl h le =
      let t = (remove_presence r s key member now key_ttl).0 in
      (
        (remove_presence_lem s key member now key_ttl).0.1 (λ m _. h m),
        (remove_presence_lem t key member later key_ttl).0.1
            (λ m _. still-IsOffline s key member now later key_ttl h m),
      )
