-- ===== src/RedisStore.antt =====
-- The commands of Redis that the presence scripts of src/redis/PresenceLuaScripts.ts and
-- src/redis/PresenceManager.ts call, as an interface, with what Redis documents of them as laws.
pub mod Leases
use pulse_distributed_real_t.Prelude.{
  ℕ, String, List, Bool, Option, some, ◌≡◌, if◌then◌else◌, ltb, ◌=ₛ◌, none, ◌&&◌, ◌↔◌, false, leb,
}
use pulse_distributed_real_t.JsMap.{contains}

pub record RedisStore (S : Type 0) : Type 0 where
  pub zadd : S → String → ℕ → String → S
  pub zrem : S → String → String → S
  -- ZREMRANGEBYSCORE key -inf max
  pub zremrangebyscore : S → String → ℕ → S
  pub zcard : S → String → ℕ
  pub zscore : S → String → String → Option ℕ
  -- ZRANGEBYSCORE key min +inf
  pub zrangebyscore : S → String → ℕ → List String
  pub expire : S → String → ℕ → S
  pub del : S → String → S
  pub sadd : S → String → String → S
  pub srem : S → String → String → S
  pub smembers : S → String → List String

-- A score that is past `now`.
unfoldable pub past : ℕ → Option ℕ → Option ℕ
past now none = none
past now (some x) = if ltb now x then some x else none

-- A score that is `least` or more.
unfoldable pub is_from : ℕ → Option ℕ → Bool
is_from least none = false
is_from least (some x) = leb least x

pub record IsRedis {S : Type 0} (r : RedisStore S) : Type 0 where
  pub zscore-zadd :
      (s : S) (k : String) (x : ℕ) (m j n : String)
      → r.zscore (r.zadd s k x m) j n ≡ (if k =ₛ j && m =ₛ n then some x else r.zscore s j n)
  pub zscore-zrem :
      (s : S) (k m j n : String)
      → r.zscore (r.zrem s k m) j n ≡ (if k =ₛ j && m =ₛ n then none else r.zscore s j n)
  pub zscore-zremrangebyscore :
      (s : S) (k : String) (now : ℕ) (j n : String)
      → r.zscore (r.zremrangebyscore s k now) j n
        ≡ (if k =ₛ j then past now (r.zscore s j n) else r.zscore s j n)
  pub zscore-expire :
      (s : S) (k : String) (ttl : ℕ) (j n : String)
      → r.zscore (r.expire s k ttl) j n ≡ r.zscore s j n
  pub zscore-del :
      (s : S) (k j n : String)
      → r.zscore (r.del s k) j n ≡ (if k =ₛ j then none else r.zscore s j n)
  pub zscore-srem : (s : S) (k m j n : String) → r.zscore (r.srem s k m) j n ≡ r.zscore s j n
  -- A sorted set is empty just when none of its members has a score.
  pub zcard-zero : (s : S) (k : String) → (r.zcard s k ≡ 0) ↔ ((m : String) → r.zscore s k m ≡ none)
  pub contains-zrangebyscore :
      (s : S) (k : String) (least : ℕ) (m : String)
      → contains m (r.zrangebyscore s k least) ≡ is_from least (r.zscore s k m)
  pub smembers-srem :
      (s : S) (k m j n : String)
      → contains n (r.smembers (r.srem s k m) j)
        ≡ (if k =ₛ j && m =ₛ n then false else contains n (r.smembers s j))
  pub smembers-zremrangebyscore :
      (s : S) (k : String) (now : ℕ) (j : String)
      → r.smembers (r.zremrangebyscore s k now) j ≡ r.smembers s j
