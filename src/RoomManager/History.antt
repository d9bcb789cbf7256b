-- ===== src/RoomManager/History.antt =====
-- src/core/RoomManager.ts: the rooms as a relation between rooms and connections, after any history.
use pulse_distributed_real_t.JsMap.{get}
use pulse_distributed_real_t.RoomManager.{
  RoomManager, List, String, join_rooms, is_connection_in_room, join_room, clear, get, leave_room,
}
use pulse_distributed_real_t.RoomManager.Membership.{join_room_lem, leave_room_lem}
use pulse_distributed_real_t.RoomManager.Removal.{remove_connection_from_all_rooms_lem}
use pulse_distributed_real_t.RoomManager.Validity.{
  Operation, join, leave, join_all, remove, clear_all, run_operation,
}
use pulse_distributed_real_t.Prelude.{
  List, String, Bool, ◌∷◌, false, ◌≡◌, if◌then◌else◌, [], truthy, ◌=ₛ◌, ◌∙◌, ◌&&◌, trim, true, ap,
  ◌||◌, refl, arith, not,
}

-- Whether a batch names a room.
unfoldable pub names_room : List String → String → Bool
names_room [] r = false
names_room (room_id ∷ room_ids) r =
    truthy (trim room_id) && trim room_id =ₛ r || names_room room_ids r

-- What an operation means for one pair of room and connection.
unfoldable pub effect : Operation → String → String → Bool → Bool
unfolding names_room
effect (join room_id connection_id) r c b = if room_id =ₛ r && connection_id =ₛ c then true else b
effect (leave room_id connection_id) r c b = if room_id =ₛ r && connection_id =ₛ c then false else b
effect (join_all connection_id room_ids) r c b =
    if names_room room_ids r && connection_id =ₛ c then true else b
effect (remove connection_id room_ids) r c b = if connection_id =ₛ c then false else b
effect clear_all r c b = false

unfoldable pub effects : List Operation → String → String → Bool → Bool
unfolding effect
effects [] r c b = b
effects (o ∷ os) r c b = effects os r c (effect o r c b)

unfoldable pub run_history : RoomManager → List Operation → RoomManager
unfolding run_operation
run_history m [] = m
run_history m (o ∷ os) = run_history (run_operation m o) os

join_rooms_lem :
    (m : RoomManager) (room_ids : List String) (connection_id r c : String)
    → is_connection_in_room (join_rooms m room_ids connection_id).0 r c
      ≡ (if names_room room_ids r && connection_id =ₛ c then true else is_connection_in_room m r c)
unfolding join_rooms names_room
join_rooms_lem m [] connection_id r c = refl
join_rooms_lem m (room_id ∷ room_ids) connection_id r c =
    let joined = (join_room m (trim room_id) connection_id).0 in
    ground (
      arith,
      join_rooms_lem joined room_ids connection_id r c,
      join_rooms_lem m room_ids connection_id r c,
      (join_room_lem m (trim room_id) connection_id r c).0,
    )

clear-empties : (m : RoomManager) (r c : String) → is_connection_in_room (clear m) r c ≡ false
unfolding clear is_connection_in_room get
clear-empties m r c = refl

run_operation-effect :
    (m : RoomManager) (o : Operation) (r c : String)
    → is_connection_in_room (run_operation m o) r c ≡ effect o r c (is_connection_in_room m r c)
unfolding run_operation effect
run_operation-effect m (join room_id connection_id) r c =
    (join_room_lem m room_id connection_id r c).0
run_operation-effect m (leave room_id connection_id) r c =
    (leave_room_lem m room_id connection_id r c).0
run_operation-effect m (join_all connection_id room_ids) r c =
    join_rooms_lem m room_ids connection_id r c
run_operation-effect m (remove connection_id room_ids) r c =
    remove_connection_from_all_rooms_lem m connection_id room_ids r c
run_operation-effect m clear_all r c = clear-empties m r c

run_history-effects :
    (m : RoomManager) (os : List Operation) (r c : String)
    → is_connection_in_room (run_history m os) r c ≡ effects os r c (is_connection_in_room m r c)
unfolding run_history effects
run_history-effects m [] r c = refl
run_history-effects m (o ∷ os) r c =
    run_history-effects (run_operation m o) os r c
    ∙ ap (effects os r c) (run_operation-effect m o r c)

-- After any history of operations a connection is in a room just as the history says when each
-- operation is read as a change to that one pair, and the answers of a join and a leave that follow
-- tell so.
pub run_history_lem :
    (m : RoomManager) (os : List Operation) (r c : String)
    → let final = run_history m os in
      let joined = effects os r c (is_connection_in_room m r c) in
      (is_connection_in_room final r c ≡ joined)
      × ((join_room final r c).1 ≡ not joined)
      × ((leave_room final r c).1 ≡ joined)
run_history_lem m os r c =
    let final = run_history m os in
    let same = run_history-effects m os r c in
    (same, (join_room_lem final r c r c).1 ∙ ap not same, (leave_room_lem final r c r c).1 ∙ same)
