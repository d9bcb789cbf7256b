-- ===== src/ChannelRegistry/Rooms.antt =====
-- The registry as the room manager drives it: a room's channel has as many subscribers as the room
-- has members.
use text.Mathlib.TextEquality.{eq_iff}
use pulse_distributed_real_t.JsMap.{JsSet, get, delete, has, add}
use pulse_distributed_real_t.JsMap.Laws.{
  get-set, get-delete, length-set, length-delete, AllValues-get,
}
use pulse_distributed_real_t.RoomManager.{
  RoomManager, ChannelCall, members_of, join_room, leave_room, leave_members, leave_each,
  remove_connection_from_all_rooms, join_rooms, get_connection_count_in_room, get_all_room_ids,
  new_room_manager,
}
use pulse_distributed_real_t.RoomManager.Validity.{
  Operation, join, leave, join_all, remove, clear_all, run_operation,
}
use pulse_distributed_real_t.RoomManager.Validity.{
  IsValid, IsInhabited, join_room-IsValid, leave_members-IsValid, Operation, run_operation, join,
  new_room_manager-IsValid, leave, join_all, remove,
}
use pulse_distributed_real_t.ChannelRegistry.{
  ChannelRegistry, new_channel_registry, subscribe_room, unsubscribe_room, get_ref_count,
  get_room_channel, channel_prefix_room, truthy,
}
use pulse_distributed_real_t.ChannelRegistry.Interleaving.{
  get_ref_count-increment, get_ref_count-decrement,
}
use pulse_distributed_real_t.Prelude.{
  ◌+◌, ◌-◌, String, arith, some, ◌≡◌, refl, Bool, true, List, [], ◌∷◌, ◌++◌, trim, ◌=ₛ◌, ◌+ₛ◌,
  if◌then◌else◌, ◌∙◌, =ₛ-append, ap, Option-cases, truthy, is_some, inl, trim_idem, Bool-cases, inr,
  truthy-ne-nil,
}

abbrev pub channel_of : String → String
channel_of r = channel_prefix_room +ₛ r

-- A room id that the channel is named after as it stands: not blank, and trimmed.
abbrev pub IsName : String → Type 0
IsName r = get_room_channel r ≡ some (channel_of r)

pub apply_call : ChannelRegistry → ChannelCall → ChannelRegistry
apply_call g (ChannelCall.subscribe_room r) = (subscribe_room g r).0
apply_call g (ChannelCall.unsubscribe_room r) = (unsubscribe_room g r).0

pub apply_calls : ChannelRegistry → List ChannelCall → ChannelRegistry
unfolding apply_call
apply_calls g [] = g
apply_calls g (c ∷ cs) = apply_calls (apply_call g c) cs

apply_calls-append :
    (g : ChannelRegistry) (cs : List ChannelCall) (c : ChannelCall)
    → apply_calls g (cs ++ c ∷ []) ≡ apply_call (apply_calls g cs) c
unfolding apply_calls
apply_calls-append g [] c = refl
apply_calls-append g (x ∷ cs) c = apply_calls-append (apply_call g x) cs c

get_ref_count-subscribe :
    (g : ChannelRegistry) (r c : String)
    → IsName r
    → get_ref_count (apply_call g (ChannelCall.subscribe_room r)) (channel_of c)
      ≡ (if r =ₛ c then get_ref_count g (channel_of c) + 1 else get_ref_count g (channel_of c))
unfolding apply_call subscribe_room
get_ref_count-subscribe g r c h =
    rw (h, apply_call, subscribe_room)
      (get_ref_count-increment g (channel_of r) (channel_of c)
        ∙ rw (=ₛ-append channel_prefix_room r c))

get_ref_count-unsubscribe :
    (g : ChannelRegistry) (r c : String)
    → IsName r
    → get_ref_count (apply_call g (ChannelCall.unsubscribe_room r)) (channel_of c)
      ≡ (if r =ₛ c then get_ref_count g (channel_of c) - 1 else get_ref_count g (channel_of c))
unfolding apply_call unsubscribe_room
get_ref_count-unsubscribe g r c h =
    rw (h, apply_call, unsubscribe_room)
      (get_ref_count-decrement g (channel_of r) (channel_of c)
        ∙ rw (=ₛ-append channel_prefix_room r c))

-- The rooms are names, and the counts are the numbers of members.
pub record IsCounted (m : RoomManager) : Type 0 where
  pub valid : IsValid m
  pub attached : m.has_channel_registry ≡ true
  pub named : (r : String) → has r m.rooms ≡ true → IsName r
  pub counted :
      (r : String)
      → IsName r
      → get_ref_count (apply_calls new_channel_registry m.calls) (channel_of r)
        ≡ get_connection_count_in_room m r

join_room-counted :
    (m : RoomManager) (r c x : String)
    → IsCounted m
    → IsName r
    → IsName x
    → get_ref_count (apply_calls new_channel_registry (join_room m r c).0.calls) (channel_of x)
      ≡ get_connection_count_in_room (join_room m r c).0 x
unfolding join_room get_connection_count_in_room
join_room-counted m r c x v h k =
    let members = members_of (get r m.rooms) in
    let before = apply_calls new_channel_registry m.calls in
    ground (
      arith,
      v.attached,
      v.counted x k,
      apply_calls-append new_channel_registry m.calls (ChannelCall.subscribe_room r),
      get_ref_count-subscribe before r x h,
      get-set x r (add c members) m.rooms,
      length-set c tt members,
      eq_iff r x,
    )

join_room-IsCounted :
    (m : RoomManager) (r c : String) → IsCounted m → IsName r → IsCounted (join_room m r c).0
join_room-IsCounted m r c v h = record {
  valid = join_room-IsValid m r c v.valid;
  attached = unfold join_room in v.attached;
  named = λ x e.
      unfold join_room in
      ground
        (arith, v.named x, get-set x r (add c (members_of (get r m.rooms))) m.rooms, eq_iff r x);
  counted = λ x k. join_room-counted m r c x v h k;
}

leave_members-counted :
    (m : RoomManager) (r c x : String) (members : JsSet)
    → get r m.rooms ≡ some members
    → IsCounted m
    → IsName x
    → get_ref_count
        (apply_calls new_channel_registry (leave_members m r c members).0.calls)
        (channel_of x)
      ≡ get_connection_count_in_room (leave_members m r c members).0 x
unfolding leave_members get_connection_count_in_room
leave_members-counted m r c x members e v k =
    let before = apply_calls new_channel_registry m.calls in
    let distinct = (AllValues-get IsInhabited r members m.rooms v.valid.inhabited e).1 in
    ground (
      arith,
      v.attached,
      v.counted x k,
      v.named r (ap is_some e),
      apply_calls-append new_channel_registry m.calls (ChannelCall.unsubscribe_room r),
      get_ref_count-unsubscribe before r x (v.named r (ap is_some e)),
      get-set x r (delete c members) m.rooms,
      get-delete x r m.rooms,
      length-delete c members distinct,
      eq_iff r x,
    )

leave_members-IsCounted :
    (m : RoomManager) (r c : String) (members : JsSet)
    → get r m.rooms ≡ some members
    → IsCounted m
    → IsCounted (leave_members m r c members).0
unfolding leave_members
leave_members-IsCounted m r c members e v = record {
  valid = leave_members-IsValid m r c members e v.valid;
  attached = v.attached;
  named = λ x h. ground (
    arith,
    v.named x,
    v.named r (ap is_some e),
    get-set x r (delete c members) m.rooms,
    get-delete x r m.rooms,
    eq_iff r x,
  );
  counted = λ x k. leave_members-counted m r c x members e v k;
}

leave_room-IsCounted :
    (m : RoomManager) (r c : String) → IsCounted m → IsCounted (leave_room m r c).0
unfolding leave_room
leave_room-IsCounted m r c v = elim (Option-cases (get r m.rooms)) [
  | inl e ↦ rw (e, leave_room) v
  | inr (members, e) ↦ rw (e, leave_room) (leave_members-IsCounted m r c members e v)
]

leave_each-IsCounted :
    (m : RoomManager) (c : String) (rs : List String)
    → IsCounted m
    → IsCounted (leave_each m c rs).0
unfolding leave_each
leave_each-IsCounted m c [] v = v
leave_each-IsCounted m c (r ∷ rs) v =
    leave_each-IsCounted (leave_room m r c).0 c rs (leave_room-IsCounted m r c v)

trim-IsName : (r : String) → truthy (trim r) ≡ true → IsName (trim r)
unfolding get_room_channel
trim-IsName r h =
    ground (arith, trim_idem r, truthy-ne-nil (trim r) h, truthy-ne-nil (trim (trim r)))

join_rooms-IsCounted :
    (m : RoomManager) (rs : List String) (c : String)
    → IsCounted m
    → IsCounted (join_rooms m rs c).0
unfolding join_rooms
join_rooms-IsCounted m [] c v = v
join_rooms-IsCounted m (r ∷ rs) c v =
    join_rooms-IsCounted (if truthy (trim r) then (join_room m (trim r) c).0 else m) rs c
      (elim (Bool-cases (truthy (trim r))) [
        | inl ink ↦ rw ink (join_room-IsCounted m (trim r) c v (trim-IsName r ink))
        | inr blank ↦ rw blank v
      ])

-- A history without `clear`, in which a room joined by its bare id is a name.
abbrev pub IsTracked : List Operation → Type 0
IsTracked [] = Unit {0}
IsTracked (join r c ∷ os) = IsName r × IsTracked os
IsTracked (clear_all ∷ os) = ⊥
IsTracked (_ ∷ os) = IsTracked os

pub run_operations : RoomManager → List Operation → RoomManager
run_operations m [] = m
run_operations m (o ∷ os) = run_operations (run_operation m o) os

run_operations-IsCounted :
    (m : RoomManager) (os : List Operation)
    → IsTracked os
    → IsCounted m
    → IsCounted (run_operations m os)
unfolding run_operations run_operation remove_connection_from_all_rooms
run_operations-IsCounted m [] t v = v
run_operations-IsCounted m (join r c ∷ os) t v =
    run_operations-IsCounted (join_room m r c).0 os t.1 (join_room-IsCounted m r c v t.0)
run_operations-IsCounted m (leave r c ∷ os) t v =
    run_operations-IsCounted (leave_room m r c).0 os t (leave_room-IsCounted m r c v)
run_operations-IsCounted m (join_all c rs ∷ os) t v =
    run_operations-IsCounted (join_rooms m rs c).0 os t (join_rooms-IsCounted m rs c v)
run_operations-IsCounted m (remove c rs ∷ os) t v =
    let known = (leave_each m c rs).0 in
    run_operations-IsCounted (leave_each known c (get_all_room_ids known)).0 os t
      (leave_each-IsCounted known c (get_all_room_ids known) (leave_each-IsCounted m c rs v))
run_operations-IsCounted m (clear_all ∷ os) t v = absurd t

new-IsCounted : (b : Bool) → IsCounted (new_room_manager true b)
unfolding new_room_manager get_connection_count_in_room get get_ref_count apply_calls
new-IsCounted b = record {
  valid = new_room_manager-IsValid true b;
  attached = refl;
  named = λ r h. cc;
  counted = λ r k. refl;
}

-- After any history of room operations on a new room manager with a registry, without `clear` and
-- with each room that is joined singly named without blanks at its ends, the registry that gets the
-- manager's calls counts for such a room's channel as many subscribers as the room has members.
pub get_ref_count-run_operations :
    (has_metrics : Bool) (os : List Operation) (r : String)
    → IsTracked os
    → IsName r
    → let m = run_operations (new_room_manager true has_metrics) os in
      get_ref_count (apply_calls new_channel_registry m.calls) (channel_of r)
      ≡ get_connection_count_in_room m r
get_ref_count-run_operations b os r t k =
    (run_operations-IsCounted (new_room_manager true b) os t (new-IsCounted b)).counted r k
