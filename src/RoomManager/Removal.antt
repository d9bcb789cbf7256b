-- ===== src/RoomManager/Removal.antt =====
-- `removeConnectionFromAllRooms` leaves no trace of the connection.
use pulse_distributed_real_t.JsMap.{get, contains}
use pulse_distributed_real_t.JsMap.Laws.{contains-keys}
use pulse_distributed_real_t.RoomManager.{
  RoomManager, leave_room, leave_each, is_connection_in_room, remove_connection_from_all_rooms,
  get_all_room_ids,
}
use pulse_distributed_real_t.RoomManager.Membership.{leave_room_lem}
use pulse_distributed_real_t.Prelude.{
  [], ◌∷◌, ◌≡◌, refl, String, true, false, arith, List, if◌then◌else◌, ◌=ₛ◌, ◌&&◌,
}

leave_each_lem :
    (m : RoomManager) (connection_id r c : String) (room_ids : List String)
    → is_connection_in_room (leave_each m connection_id room_ids).0 r c
      ≡ (if contains r room_ids && connection_id =ₛ c then false else is_connection_in_room m r c)
unfolding leave_each contains
leave_each_lem m connection_id r c [] = refl
leave_each_lem m connection_id r c (room_id ∷ room_ids) = ground (
  arith,
  leave_each_lem (leave_room m room_id connection_id).0 connection_id r c room_ids,
  (leave_room_lem m room_id connection_id r c).0,
)

in_room-contains :
    (m : RoomManager) (r c : String)
    → is_connection_in_room m r c ≡ true
    → contains r (get_all_room_ids m) ≡ true
unfolding is_connection_in_room get_all_room_ids get
in_room-contains m r c h = ground (arith, contains-keys r m.rooms)

-- Whatever list of rooms is given, the connection is then in no room, and every other connection is
-- in the rooms where it was.
pub remove_connection_from_all_rooms_lem :
    (m : RoomManager) (connection_id : String) (room_ids : List String) (r c : String)
    → is_connection_in_room (remove_connection_from_all_rooms m connection_id room_ids).0 r c
      ≡ (if connection_id =ₛ c then false else is_connection_in_room m r c)
unfolding remove_connection_from_all_rooms
remove_connection_from_all_rooms_lem m connection_id room_ids r c =
    let known = (leave_each m connection_id room_ids).0 in
    ground (
      arith,
      leave_each_lem m connection_id r c room_ids,
      leave_each_lem known connection_id r c (get_all_room_ids known),
      in_room-contains known r c,
    )
