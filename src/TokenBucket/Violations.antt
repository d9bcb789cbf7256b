-- ===== src/TokenBucket/Violations.antt =====
-- The abuse counter.
use pulse_distributed_real_t.TokenBucket.{TokenBucket, record_violation}
use pulse_distributed_real_t.Prelude.{
  ℕ, zero, suc, ◌+◌, ◌≤◌, ◌<◌, arith, List, [], ◌∷◌, Bool, true, false, ◌≡◌, refl, leb,
}

-- Violations at the given times: the bucket afterwards, and the last answer.
pub violations : TokenBucket → ℕ → ℕ → Bool → List ℕ → TokenBucket × Bool
violations b threshold window_ms answer [] = (b, answer)
violations b threshold window_ms answer (now ∷ times) =
    let (b', answer') = record_violation b threshold window_ms now in
    violations b' threshold window_ms answer' times

-- Times that are `gap` apart.
pub spaced : ℕ → ℕ → ℕ → List ℕ
spaced zero gap from = []
spaced (suc n) gap from = from ∷ spaced n gap (from + gap)

violations-spaced :
    (b : TokenBucket) (threshold window_ms n from : ℕ) (answer : Bool)
    → from ≤ b.last_violation_time + window_ms
    → answer ≡ leb threshold b.violation_count
    → (violations b threshold window_ms answer (spaced n window_ms from)).1
      ≡ leb threshold (b.violation_count + n)
unfolding violations spaced record_violation
violations-spaced b threshold window_ms zero from answer h k = ground arith
violations-spaced b threshold window_ms (suc n) from answer h k =
    let next = record_violation b threshold window_ms from in
    let ih : (violations next.0 threshold window_ms next.1
          (spaced n window_ms (from + window_ms))).1
        ≡ leb threshold (next.0.violation_count + n) =
      violations-spaced next.0 threshold window_ms n (from + window_ms) next.1 (omega arith) refl in
    ground (arith, ih)

-- At a threshold of `n + 1`, with the first of `n + 1` violations later than a window after the
-- last one before, violations that are each a whole window apart end with the answer that the
-- threshold is met.
pub record_violation-spaced :
    (b : TokenBucket) (window_ms n from : ℕ)
    → b.last_violation_time + window_ms < from
    → (violations b (suc n) window_ms false (spaced (suc n) window_ms from)).1 ≡ true
unfolding violations spaced record_violation
record_violation-spaced b window_ms n from h =
    let first = record_violation b (suc n) window_ms from in
    let rest : (violations first.0 (suc n) window_ms first.1
          (spaced n window_ms (from + window_ms))).1
        ≡ leb (suc n) (first.0.violation_count + n) =
      violations-spaced first.0 (suc n) window_ms n (from + window_ms) first.1 (omega arith) refl in
    ground (arith, rest)
