-- ===== src/TokenBucket/Rate.antt =====
-- The bucket never holds more than its capacity, and grants no more than it held and was refilled.
use pulse_distributed_real_t.TokenBucket.{TokenBucket, try_consume}
use pulse_distributed_real_t.Prelude.{
  ℕ, ◌+◌, ◌-◌, ◌*◌, ◌≤◌, arith, List, [], ◌∷◌, true, ◌≡◌, All, ap, ◌↔◌, if◌then◌else◌, max, min,
}

abbrev pub IsWithin : TokenBucket → Type 0
IsWithin b = b.tokens ≤ b.capacity

pub try_consume-IsWithin :
    (b : TokenBucket) (cost now : ℕ) → IsWithin b → IsWithin (try_consume b cost now).0
unfolding try_consume
try_consume-IsWithin b cost now h = ground arith

-- A consumer makes its attempts at some times, each for some cost.
pub attempts : TokenBucket → List (ℕ × ℕ) → TokenBucket × ℕ
attempts b [] = (b, 0)
attempts b ((cost, now) ∷ rest) =
    let (b', granted) = try_consume b cost now in
    let (final, total) = attempts b' rest in (final, (if granted then cost else 0) + total)

-- Nothing is granted out of nothing: what is spent and what is left were there or were refilled.
try_consume-spent :
    (b : TokenBucket) (cost now : ℕ)
    → let t = try_consume b cost now in
      (t.0.tokens + (if t.1 then cost else 0)
        ≤ b.tokens + (t.0.last_refill_time - b.last_refill_time) * b.refill_rate)
      × (b.last_refill_time ≤ t.0.last_refill_time)
      × (t.0.refill_rate ≡ b.refill_rate)
      × (t.0.last_refill_time ≤ max b.last_refill_time now)
unfolding try_consume
try_consume-spent b cost now = ground arith

-- No attempt is later than this.
abbrev pub EndsBy : ℕ → List (ℕ × ℕ) → Type 0
EndsBy end = All (λ a. a.1 ≤ end)

add_intervals : (rate a b c : ℕ) → a ≤ b → b ≤ c → (b - a) * rate + (c - b) * rate ≡ (c - a) * rate
add_intervals rate a b c h k =
    let whole : c - a ≡ (b - a) + (c - b) = omega arith in
    omega (arith, ap (λ (t : ℕ). t * rate) whole)

attempts-spent :
    (b : TokenBucket) (tries : List (ℕ × ℕ)) (end : ℕ)
    → b.last_refill_time ≤ end
    → EndsBy end tries
    → (attempts b tries).0.tokens + (attempts b tries).1
      ≤ b.tokens + (end - b.last_refill_time) * b.refill_rate
unfolding attempts
attempts-spent b [] end h k = omega arith
attempts-spent b ((cost, now) ∷ tries) end h k =
    let next = (try_consume b cost now).0 in
    let (spent, older, same, newer) = try_consume-spent b cost now in
    let ih : (attempts next tries).0.tokens + (attempts next tries).1
        ≤ next.tokens + (end - next.last_refill_time) * b.refill_rate =
      rw same at (attempts-spent next tries end (omega arith) k.1) in
    omega (
      arith,
      add_intervals b.refill_rate b.last_refill_time next.last_refill_time end older (omega arith),
    )

-- Over any list of attempts none of which is later than `end`, with a bucket whose last refill is
-- not later either, the cost granted is at most the tokens held and what the rate gives from the
-- last refill to `end`.
pub attempts-bounded :
    (b : TokenBucket) (tries : List (ℕ × ℕ)) (end : ℕ)
    → b.last_refill_time ≤ end
    → EndsBy end tries
    → (attempts b tries).1 ≤ b.tokens + (end - b.last_refill_time) * b.refill_rate
attempts-bounded b tries end h k = omega (arith, attempts-spent b tries end h k)

-- A bucket that holds no more than its capacity grants an attempt just when the cost is at most the
-- balance after the refill, which is capped at the capacity.
pub try_consume-granted :
    (b : TokenBucket) (cost now : ℕ)
    → IsWithin b
    → ((try_consume b cost now).1 ≡ true)
      ↔ (cost ≤ min b.capacity (b.tokens + (now - b.last_refill_time) * b.refill_rate))
unfolding try_consume
try_consume-granted b cost now h = ground arith
