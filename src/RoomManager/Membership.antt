-- ===== src/RoomManager/Membership.antt =====
-- Rooms as a relation between rooms and connections: what each operation does to it.
use text.Mathlib.TextEquality.{eq_iff}
use pulse_distributed_real_t.JsMap.{JsSet, get, delete, has, add, size}
use pulse_distributed_real_t.JsMap.Laws.{get-set, get-delete}
use pulse_distributed_real_t.RoomManager.{
  RoomManager, members_of, join_room, leave_room, leave_members, is_connection_in_room,
}
use pulse_distributed_real_t.Prelude.{
  [], ◌∷◌, ◌≡◌, refl, some, String, true, false, arith, if◌then◌else◌, ◌=ₛ◌, ◌&&◌, not,
  Option-cases, inl, inr,
}

-- Joining adds the one pair of room and connection and changes no other, and the answer says
-- whether it was missing.
pub join_room_lem :
    (m : RoomManager) (room_id connection_id r c : String)
    → (is_connection_in_room (join_room m room_id connection_id).0 r c
        ≡ (if room_id =ₛ r && connection_id =ₛ c then true else is_connection_in_room m r c))
      × ((join_room m room_id connection_id).1
          ≡ not (is_connection_in_room m room_id connection_id))
unfolding join_room is_connection_in_room get
join_room_lem m room_id connection_id r c = (
  ground (
    arith,
    get-set r room_id (add connection_id (members_of (get room_id m.rooms))) m.rooms,
    get-set c connection_id tt (members_of (get room_id m.rooms)),
    eq_iff room_id r,
  ),
  refl,
)

empty-has : (c : String) (members : JsSet) → size members ≡ 0 → has c members ≡ false
unfolding get
empty-has c [] h = refl
empty-has c (x ∷ members) h = absurd (omega arith)

leave_members_lem :
    (m : RoomManager) (room_id connection_id r c : String) (members : JsSet)
    → get room_id m.rooms ≡ some members
    → (is_connection_in_room (leave_members m room_id connection_id members).0 r c
        ≡ (if room_id =ₛ r && connection_id =ₛ c then false else is_connection_in_room m r c))
unfolding leave_members is_connection_in_room get
leave_members_lem m room_id connection_id r c members h = ground (
  arith,
  get-set r room_id (delete connection_id members) m.rooms,
  get-delete r room_id m.rooms,
  get-delete c connection_id members,
  empty-has c (delete connection_id members),
  eq_iff room_id r,
)

-- Leaving removes the one pair of room and connection and changes no other, and the answer says
-- whether it was there.
pub leave_room_lem :
    (m : RoomManager) (room_id connection_id r c : String)
    → (is_connection_in_room (leave_room m room_id connection_id).0 r c
        ≡ (if room_id =ₛ r && connection_id =ₛ c then false else is_connection_in_room m r c))
      × ((leave_room m room_id connection_id).1 ≡ is_connection_in_room m room_id connection_id)
unfolding leave_room is_connection_in_room get
leave_room_lem m room_id connection_id r c = elim (Option-cases (get room_id m.rooms)) [
  | inl e ↦ (ground (arith, eq_iff room_id r), ground arith)
  | inr (members, e) ↦ (
    rw (e, leave_room) (leave_members_lem m room_id connection_id r c members e),
    rw (e, leave_room) (ground arith),
  )
]
