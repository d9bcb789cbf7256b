-- ===== src/PresenceEventTracker/Laws.antt =====
-- What `recordEvent` accepts and keeps.
use pulse_distributed_real_t.Prelude.{
  truthy, ◌-◌, =ₛ_refl, if-holds, ◌≤◌, String, [], ◌∷◌, some, Bool, true, false, not, ◌≡◌, refl,
  arith, ◌+◌, if◌then◌else◌, ◌||◌,
}
use pulse_distributed_real_t.JsMap.{JsMap, get, set, delete, size, IsDistinct}
use pulse_distributed_real_t.JsMap.Laws.{
  get-set_self, delete_of_none, length-set, length-delete, set-IsDistinct, delete-IsDistinct,
}
use pulse_distributed_real_t.Json.{Number, finite, infinite, nan, le_number}
use pulse_distributed_real_t.PresenceEventTracker.{
  PresenceEventTracker, is_nan, is_passed, is_stale, evict_first, make_room, record_event,
}

-- No user twice, and no more users than the bound.
pub record IsValid (t : PresenceEventTracker) : Type 0 where
  pub distinct : IsDistinct t.last_seen_timestamps
  pub bounded : size t.last_seen_timestamps ≤ t.max_users

le_number_refl : (n : Number) → is_nan n ≡ false → le_number n n ≡ true
unfolding le_number
le_number_refl (finite true m s) h = ground arith
le_number_refl (finite false m s) h = ground arith
le_number_refl (infinite true) h = refl
le_number_refl (infinite false) h = refl
le_number_refl nan h = cc

-- Recording a presence event answers whether it was not stale, sets the user's last timestamp if so
-- and leaves it if not, and afterwards an event of the user with the same timestamp is stale.
pub record_event_lem :
    (t : PresenceEventTracker) (user_id : String) (timestamp : Number)
    → let r = record_event t user_id timestamp in
      (r.1 ≡ not (is_stale t user_id timestamp))
      × (get user_id r.0.last_seen_timestamps
          ≡ (if r.1 then some timestamp else get user_id t.last_seen_timestamps))
      × (is_stale r.0 user_id timestamp ≡ true)
unfolding record_event is_stale
record_event_lem t user_id timestamp =
    let kept = get-set_self user_id timestamp (make_room t user_id) in
    let again = le_number_refl timestamp in
    (ground arith, ground (arith, kept), ground (arith, kept, again))

evict_first-IsDistinct :
    (m : JsMap Number)
    → IsDistinct m
    → IsDistinct (evict_first m) × (size (evict_first m) ≡ size m - 1)
unfolding delete
evict_first-IsDistinct [] d = (tt, refl)
evict_first-IsDistinct ((k, v) ∷ m) d =
    (ground (arith, =ₛ_refl k, delete_of_none k m), ground (arith, =ₛ_refl k, delete_of_none k m))

make_room-IsDistinct :
    (t : PresenceEventTracker) (user_id : String)
    → IsValid t
    → 1 ≤ t.max_users
    → IsDistinct (make_room t user_id) × (size (make_room t user_id) + 1 ≤ t.max_users)
unfolding make_room
make_room-IsDistinct t user_id v h =
    let evicted = evict_first-IsDistinct t.last_seen_timestamps v.distinct in
    let deleted = length-delete user_id t.last_seen_timestamps v.distinct in
    (
      ground (arith, delete-IsDistinct user_id t.last_seen_timestamps v.distinct),
      ground (arith, evicted, deleted, v.bounded),
    )

-- With a bound of 1 or more, recording an event keeps the users within the bound and listed once.
pub record_event-IsValid :
    (t : PresenceEventTracker) (user_id : String) (timestamp : Number)
    → IsValid t
    → 1 ≤ t.max_users
    → IsValid (record_event t user_id timestamp).0
unfolding record_event
record_event-IsValid t user_id timestamp v h =
    let room = make_room-IsDistinct t user_id v h in
    let accepted : IsValid
        (record t { last_seen_timestamps = set user_id timestamp (make_room t user_id) }) =
      record {
        distinct = set-IsDistinct user_id timestamp (make_room t user_id) room.0;
        bounded = ground (arith, length-set user_id timestamp (make_room t user_id), room.1);
      } in
    let fresh : PresenceEventTracker × Bool =
      (record t { last_seen_timestamps = set user_id timestamp (make_room t user_id) }, true) in
    if-holds (λ (p : PresenceEventTracker × Bool). IsValid p.0)
      (not (truthy user_id) || is_nan timestamp) (t, false)
      (if is_passed timestamp (get user_id t.last_seen_timestamps) then (t, false) else fresh)
      (λ _. v)
      (λ _.
        if-holds (λ (p : PresenceEventTracker × Bool). IsValid p.0)
          (is_passed timestamp (get user_id t.last_seen_timestamps)) (t, false) fresh (λ _. v)
          (λ _. accepted))
