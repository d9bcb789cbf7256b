-- ===== src/RoomManager/Validity.antt =====
-- No room is empty, nobody is in a room twice, and the gauge tells the number of rooms.
use pulse_distributed_real_t.JsMap.{JsSet, get, set, delete, add, size, IsDistinct, AllValues}
use pulse_distributed_real_t.JsMap.Laws.{
  length-set, set-IsDistinct, delete-IsDistinct, AllValues-get, AllValues-set, AllValues-delete,
}
use pulse_distributed_real_t.RoomManager.{
  RoomManager, members_of, join_room, leave_room, leave_members, leave_each,
  remove_connection_from_all_rooms, clear, join_rooms, new_room_manager, get_all_room_ids,
}
use pulse_distributed_real_t.Prelude.{
  [], ◌∷◌, ◌≡◌, none, some, String, arith, List, Bool, ◌≤◌, ◌⊎◌, Option-cases, trim, inl, inr,
  if◌then◌else◌, truthy,
}

abbrev pub IsInhabited : JsSet → Type 0
IsInhabited members = (1 ≤ size members) × IsDistinct members

pub record IsValid (m : RoomManager) : Type 0 where
  pub distinct : IsDistinct m.rooms
  pub inhabited : AllValues IsInhabited m.rooms
  pub gauged : (m.rooms_active ≡ none) ⊎ (m.rooms_active ≡ some (size m.rooms))

pub new_room_manager-IsValid :
    (has_channel_registry has_metrics : Bool)
    → IsValid (new_room_manager has_channel_registry has_metrics)
unfolding new_room_manager
new_room_manager-IsValid r b = record { distinct = tt; inhabited = tt; gauged = ground arith }

pub members-IsDistinct :
    (m : RoomManager) (r : String) → IsValid m → IsDistinct (members_of (get r m.rooms))
members-IsDistinct m r v = elim (Option-cases (get r m.rooms)) [
  | inl e ↦ rw e tt
  | inr (s, e) ↦ rw e (AllValues-get IsInhabited r s m.rooms v.inhabited e).1
]

size-add : (c : String) (s : JsSet) → 1 ≤ size (add c s)
unfolding set
size-add c [] = omega arith
size-add c ((d, u) ∷ s) = ground arith

pub join_room-IsValid : (m : RoomManager) (r c : String) → IsValid m → IsValid (join_room m r c).0
unfolding join_room get
join_room-IsValid m r c v =
    let members = members_of (get r m.rooms) in
    let d = set-IsDistinct c tt members (members-IsDistinct m r v) in
    record {
      distinct = set-IsDistinct r (add c members) m.rooms v.distinct;
      inhabited =
          AllValues-set IsInhabited r (add c members) m.rooms v.inhabited (size-add c members, d);
      gauged = ground (arith, length-set r (add c members) m.rooms);
    }

pub leave_members-IsValid :
    (m : RoomManager) (r c : String) (members : JsSet)
    → get r m.rooms ≡ some members
    → IsValid m
    → IsValid (leave_members m r c members).0
unfolding leave_members
leave_members-IsValid m r c members e v =
    let d =
      delete-IsDistinct c members (AllValues-get IsInhabited r members m.rooms v.inhabited e).1 in
    record {
      distinct = ground (
        arith,
        set-IsDistinct r (delete c members) m.rooms v.distinct,
        delete-IsDistinct r m.rooms v.distinct,
      );
      inhabited = ground (
        arith,
        d,
        AllValues-set IsInhabited r (delete c members) m.rooms v.inhabited,
        AllValues-delete IsInhabited r m.rooms v.inhabited,
      );
      gauged = ground (arith, length-set r (delete c members) m.rooms);
    }

pub leave_room-IsValid : (m : RoomManager) (r c : String) → IsValid m → IsValid (leave_room m r c).0
unfolding leave_room
leave_room-IsValid m r c v = elim (Option-cases (get r m.rooms)) [
  | inl e ↦ rw (e, leave_room) v
  | inr (members, e) ↦ rw (e, leave_room) (leave_members-IsValid m r c members e v)
]

join_rooms-IsValid :
    (m : RoomManager) (rs : List String) (c : String) → IsValid m → IsValid (join_rooms m rs c).0
unfolding join_rooms
join_rooms-IsValid m [] c v = v
join_rooms-IsValid m (r ∷ rs) c v =
    join_rooms-IsValid (if truthy (trim r) then (join_room m (trim r) c).0 else m) rs c
      (ground (arith, join_room-IsValid m (trim r) c v))

leave_each-IsValid :
    (m : RoomManager) (c : String) (rs : List String) → IsValid m → IsValid (leave_each m c rs).0
unfolding leave_each
leave_each-IsValid m c [] v = v
leave_each-IsValid m c (r ∷ rs) v =
    leave_each-IsValid (leave_room m r c).0 c rs (leave_room-IsValid m r c v)

-- The operations of the manager.
pub data Operation : Type 0 where
  join leave : (room_id connection_id : String) → Operation
  join_all remove : (connection_id : String) (room_ids : List String) → Operation
  clear_all : Operation

unfoldable pub run_operation : RoomManager → Operation → RoomManager
run_operation m (join r c) = (join_room m r c).0
run_operation m (leave r c) = (leave_room m r c).0
run_operation m (join_all c rs) = (join_rooms m rs c).0
run_operation m (remove c rs) = (remove_connection_from_all_rooms m c rs).0
run_operation m clear_all = clear m

-- Every operation keeps each room inhabited and listed once with no member twice, and the gauge, if
-- there is one, at the number of rooms.
pub run_operation-IsValid :
    (m : RoomManager) (o : Operation) → IsValid m → IsValid (run_operation m o)
unfolding run_operation remove_connection_from_all_rooms clear
run_operation-IsValid m (join r c) v = join_room-IsValid m r c v
run_operation-IsValid m (leave r c) v = leave_room-IsValid m r c v
run_operation-IsValid m (join_all c rs) v = join_rooms-IsValid m rs c v
run_operation-IsValid m (remove c rs) v =
    leave_each-IsValid (leave_each m c rs).0 c (get_all_room_ids (leave_each m c rs).0)
      (leave_each-IsValid m c rs v)
run_operation-IsValid m clear_all v = record {
  distinct = tt;
  inhabited = tt;
  gauged = ground arith;
}
