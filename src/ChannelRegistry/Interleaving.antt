-- ===== src/ChannelRegistry/Interleaving.antt =====
-- Counts under any interleaving of calls and answers of Redis.
use text.Mathlib.TextEquality.{eq_iff}
use pulse_distributed_real_t.JsMap.Laws.{get-delete_self, get-set, get-delete}
use pulse_distributed_real_t.ChannelRegistry.{
  ChannelRegistry, subscribe, answered, awaiting, get_ref_count, increment_subscription,
  decrement_subscription, settle_subscribe, settle_unsubscribe, suc,
}
use pulse_distributed_real_t.Prelude.{
  ℕ, ◌+◌, ◌-◌, String, arith, ◌≡◌, refl, Bool, true, false, List, [], ◌∷◌, ◌∙◌, if◌then◌else◌, ap,
  ◌=ₛ◌, =ₛ_refl, zero,
}

pub get_ref_count-increment :
    (r : ChannelRegistry) (channel c : String)
    → get_ref_count (increment_subscription r channel).0 c
      ≡ (if channel =ₛ c then get_ref_count r c + 1 else get_ref_count r c)
unfolding get_ref_count increment_subscription
get_ref_count-increment r channel c =
    ground (
      arith,
      get-set c channel (get_ref_count r channel + 1) r.channel_ref_counts,
      eq_iff channel c,
    )

pub get_ref_count-decrement :
    (r : ChannelRegistry) (channel c : String)
    → get_ref_count (decrement_subscription r channel).0 c
      ≡ (if channel =ₛ c then get_ref_count r c - 1 else get_ref_count r c)
unfolding get_ref_count decrement_subscription
get_ref_count-decrement r channel c = ground (
  arith,
  get-set c channel (get_ref_count r channel - 1) r.channel_ref_counts,
  get-delete c channel r.channel_ref_counts,
  eq_iff channel c,
)

-- What happens to one registry: calls begin, and Redis answers those that wait.
pub data Event : Type 0 where
  subscribes unsubscribes : String → Event
  subscribe_settled unsubscribe_settled : (channel : String) (ok : Bool) → Event

unfoldable pub handle_event : ChannelRegistry → Event → ChannelRegistry
handle_event r (subscribes channel) = (increment_subscription r channel).0
handle_event r (unsubscribes channel) = (decrement_subscription r channel).0
handle_event r (subscribe_settled channel ok) = (settle_subscribe r channel ok).0
handle_event r (unsubscribe_settled channel ok) = (settle_unsubscribe r channel ok).0

unfoldable pub handle_events : ChannelRegistry → List Event → ChannelRegistry
unfolding handle_event
handle_events r [] = r
handle_events r (e ∷ es) = handle_events (handle_event r e) es

-- The number of subscribers that a channel should have: it never falls below zero.
unfoldable pub wanted : String → ℕ → List Event → ℕ
wanted c n [] = n
wanted c n (subscribes channel ∷ es) = wanted c (if channel =ₛ c then n + 1 else n) es
wanted c n (unsubscribes channel ∷ es) = wanted c (if channel =ₛ c then n - 1 else n) es
wanted c n (_ ∷ es) = wanted c n es

-- Redis refuses nothing.
abbrev pub Succeeds : List Event → Type 0
Succeeds [] = Unit {0}
Succeeds (subscribe_settled channel ok ∷ es) = (ok ≡ true) × Succeeds es
Succeeds (unsubscribe_settled channel ok ∷ es) = (ok ≡ true) × Succeeds es
Succeeds (_ ∷ es) = Succeeds es

-- If Redis refuses nothing, the count of a channel after any interleaving of calls and answers is
-- the number of subscribers that the calls leave, never below zero.
pub get_ref_count-handle_events :
    (r : ChannelRegistry) (c : String) (es : List Event)
    → Succeeds es
    → get_ref_count (handle_events r es) c ≡ wanted c (get_ref_count r c) es
unfolding handle_events wanted settle_subscribe settle_unsubscribe
get_ref_count-handle_events r c [] h = refl
get_ref_count-handle_events r c (subscribes channel ∷ es) h =
    get_ref_count-handle_events (increment_subscription r channel).0 c es h
    ∙ ap (λ n. wanted c n es) (get_ref_count-increment r channel c)
get_ref_count-handle_events r c (unsubscribes channel ∷ es) h =
    get_ref_count-handle_events (decrement_subscription r channel).0 c es h
    ∙ ap (λ n. wanted c n es) (get_ref_count-decrement r channel c)
get_ref_count-handle_events r c (subscribe_settled channel true ∷ es) h =
    get_ref_count-handle_events r c es h.1
get_ref_count-handle_events r c (unsubscribe_settled channel true ∷ es) h =
    get_ref_count-handle_events r c es h.1
get_ref_count-handle_events r c (subscribe_settled channel false ∷ es) h = cc h.0
get_ref_count-handle_events r c (unsubscribe_settled channel false ∷ es) h = cc h.0

-- The same channel is subscribed a number of times.
unfoldable pub repeated : ℕ → String → List Event
repeated zero channel = []
repeated (suc n) channel = subscribes channel ∷ repeated n channel

wanted-repeated : (c : String) (n k : ℕ) → wanted c k (repeated n c) ≡ k + n
unfolding wanted repeated
wanted-repeated c zero k = omega arith
wanted-repeated c (suc n) k = ground (arith, =ₛ_refl c, wanted-repeated c n (k + 1))

repeated-Succeeds : (c : String) (n : ℕ) → Succeeds (repeated n c)
unfolding repeated
repeated-Succeeds c zero = tt
repeated-Succeeds c (suc n) = repeated-Succeeds c n

-- Of `n + 1` subscribers to a channel without any, the first waits for Redis, a later one is
-- answered at once, and the count is `n + 1`. If Redis then refuses the first, the count is 0.
pub subscribe_settled-drops :
    (r : ChannelRegistry) (channel : String) (n : ℕ)
    → get_ref_count r channel ≡ 0
    → let joined = handle_events r (repeated (suc n) channel) in
      ((increment_subscription r channel).1 ≡ awaiting (subscribe channel))
      × ((increment_subscription joined channel).1 ≡ answered false)
      × (get_ref_count joined channel ≡ suc n)
      × (get_ref_count (handle_event joined (subscribe_settled channel false)) channel ≡ 0)
unfolding increment_subscription
subscribe_settled-drops r channel n h =
    let joined = handle_events r (repeated (suc n) channel) in
    let count : get_ref_count joined channel ≡ suc n =
      get_ref_count-handle_events r channel (repeated (suc n) channel)
        (repeated-Succeeds channel (suc n))
      ∙ wanted-repeated channel (suc n) (get_ref_count r channel)
      ∙ omega arith in
    (
      ground arith,
      ground (arith, count),
      count,
      unfold handle_event settle_subscribe get_ref_count in
          rw (get-delete_self channel joined.channel_ref_counts),
    )
