-- ===== src/TokenBucket.antt =====
-- src/utils/TokenBucket.ts. Tokens are counted in millionths and the rate in thousandths of a token
-- a second, so that milliseconds times the rate are millionths; the rounding of doubles is left out.
-- The clock is an argument `now`, in milliseconds.
pub mod Rate
pub mod Violations
use pulse_distributed_real_t.Prelude.{
  ℕ, ◌+◌, ◌-◌, ◌*◌, Bool, true, false, if◌then◌else◌, ltb, leb, min, max,
}

pub record TokenBucket : Type 0 where
  pub capacity : ℕ
  pub refill_rate : ℕ
  pub tokens : ℕ
  pub last_refill_time : ℕ
  pub violation_count : ℕ
  pub last_violation_time : ℕ

-- One token.
abbrev pub token : ℕ
token = 1_000_000

-- Math.max(1, capacity) and Math.max(0.1, refillRate)
unfoldable pub new_token_bucket : ℕ → ℕ → ℕ → TokenBucket
new_token_bucket capacity refill_rate now = record {
  capacity = max token capacity;
  refill_rate = max 100 refill_rate;
  tokens = max token capacity;
  last_refill_time = now;
  violation_count = 0;
  last_violation_time = 0;
}

-- A clock that has not moved, or has moved back, changes nothing.
unfoldable pub refill : TokenBucket → ℕ → TokenBucket
refill b now =
    if ltb b.last_refill_time now
    then record b {
      tokens = min b.capacity (b.tokens + (now - b.last_refill_time) * b.refill_rate);
      last_refill_time = now;
    }
    else b

unfoldable pub try_consume : TokenBucket → ℕ → ℕ → TokenBucket × Bool
unfolding refill
try_consume b cost now =
    let r = refill b now in
    if leb cost r.tokens then (record r { tokens = r.tokens - cost }, true) else (r, false)

-- now - this.lastViolationTime > windowMs
unfoldable pub record_violation : TokenBucket → ℕ → ℕ → ℕ → TokenBucket × Bool
record_violation b threshold window_ms now =
    let count = if ltb (b.last_violation_time + window_ms) now then 1 else b.violation_count + 1 in
    (record b { violation_count = count; last_violation_time = now }, leb threshold count)

unfoldable pub get_tokens : TokenBucket → ℕ → TokenBucket × ℕ
unfolding refill
get_tokens b now = (refill b now, (refill b now).tokens)

unfoldable pub reset : TokenBucket → ℕ → TokenBucket
reset b now = record b {
  tokens = b.capacity;
  last_refill_time = now;
  violation_count = 0;
  last_violation_time = 0;
}
