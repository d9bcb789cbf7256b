-- ===== src/Handlers/Joining.antt =====
-- `handleRoomJoin`, `handleRoomBatchJoin` and `handleRoomLeave`, each cut where it awaits the
-- presence manager. That manager swallows its errors, so what is awaited always comes back.
use Prim.Native.Char.{code}
use pulse_distributed_real_t.Prelude.{
  ℕ, ◌+◌, suc, String, List, [], ◌∷◌, ◌++◌, Option, none, some, Bool, true, false, not, ◌=ₛ◌, ◌&&◌,
  ◌||◌, if◌then◌else◌, leb, ◌==◌, truthy, trim, length,
}
use pulse_distributed_real_t.Json.{
  Json, Items, nil, item, items, Fields, field, end, str, num, arr, obj, whole, get_field,
}
use pulse_distributed_real_t.Envelope.{EventType, PulseEventEnvelope}
use pulse_distributed_real_t.ConnectionManager.{ConnectionRef, get_connections_by_user_id}
use pulse_distributed_real_t.RoomManager
use pulse_distributed_real_t.RoomManager.{get_connection_count_in_room}
use pulse_distributed_real_t.Connection
use pulse_distributed_real_t.Connection.{Connection, WebSocketLib, Metric, has_room, get_rooms}
use pulse_distributed_real_t.Node.{
  Node, Env, send_to, put_connection, count_metric, correlation_of, system_envelope, room_target,
  accept_seq,
}
use pulse_distributed_real_t.Handlers.Messaging.{error_payload, room_id_of}

-- The snapshot that the presence manager gives.
pub record Roster : Type 0 where
  pub room_id : String
  pub members : List String
  pub total_online : ℕ

-- Where a handler waits: for the presence manager to add or remove a member, or for the roster.
pub data Pending : Type 0 where
  joining rostering : (sender_id : String) → PulseEventEnvelope → (room_id : String) → Pending
  batch_joining :
      (sender_id : String)
      → PulseEventEnvelope
      → (current_count newly_added : ℕ) → (joined rest : List Json) → Pending
  leaving : (sender_id : String) → PulseEventEnvelope → (room_id : String) → Pending

abbrev pub Progress : Type 0
Progress = Node × Option Pending

-- The characters of /^[a-zA-Z0-9:_\.\-]+$/
pub is_room_char : ℕ → Bool
is_room_char c =
    (leb b'a' c && leb c b'z')
    || (leb b'A' c && leb c b'Z')
    || (leb b'0' c && leb c b'9')
    || c == b':'
    || c == b'_'
    || c == b'.'
    || c == b'-'

pub all_room_chars : String → Bool
unfolding is_room_char
all_room_chars String.[] = true
all_room_chars (String.◌∷◌ c s) = is_room_char (code c) && all_room_chars s

pub text_length : String → ℕ
text_length String.[] = 0
text_length (String.◌∷◌ c s) = suc (text_length s)

-- Not empty, not too long, and of these characters only.
unfoldable pub is_valid_room_id : ℕ → String → Bool
unfolding all_room_chars text_length
is_valid_room_id limit room_id =
    truthy room_id && leb (text_length room_id) limit && all_room_chars room_id

abbrev pub texts : List String → Items
texts [] = nil
texts (s ∷ ss) = item (str s) (texts ss)

abbrev roster_fields : Option Roster → Fields
roster_fields none = end
roster_fields (some r) = field "members" (arr (texts r.members)) (
    field "totalOnline" (num (whole r.total_online)) (
      field "roster"
        (obj (
          field "roomId" (str r.room_id) (
            field "members" (arr (texts r.members))
              (field "totalOnline" (num (whole r.total_online)) end))))
        end))

-- Both sides of a membership: the room's and the connection's.
unfoldable pub enter_room : Node → String → String → Node
enter_room n sender_id room_id =
    put_connection
      (record n { room_manager = (RoomManager.join_room n.room_manager room_id sender_id).0 })
      sender_id (Connection.join_room (n.store sender_id) room_id)

unfoldable pub exit_room : Node → String → String → Node
exit_room n sender_id room_id =
    put_connection
      (record n { room_manager = (RoomManager.leave_room n.room_manager room_id sender_id).0 })
      sender_id (Connection.leave_room (n.store sender_id) room_id)

-- this.presenceManager && sender.userId
abbrev pub tells_presence : Node → String → Bool
tells_presence n sender_id = n.config.has_presence && truthy (n.store sender_id).user_id

module _ (ws : WebSocketLib) where
  abbrev refuse : Env → Node → String → PulseEventEnvelope → String → Node
  refuse env n sender_id e code =
      (send_to ws n sender_id
        (system_envelope env EventType.sys_error (correlation_of e) none (error_payload code))).0

  abbrev refuse_room : Env → Node → String → PulseEventEnvelope → String → String → Node
  refuse_room env n sender_id e room_id code =
      (send_to ws n sender_id (
        system_envelope env EventType.sys_error (correlation_of e) (room_target room_id)
          (error_payload code))).0

  abbrev reply : Node → String → PulseEventEnvelope → Node
  reply n sender_id ack =
      count_metric (send_to ws n sender_id ack).0 (Metric.acknowledged "success")

  -- The join's ACK, with the number of members as it is now.
  unfoldable pub finish_room_join :
      Env → Node → String → PulseEventEnvelope → String → Option Roster → Node
  finish_room_join env n sender_id e room_id roster = reply n sender_id (
      system_envelope env EventType.room_join_ack (correlation_of e) (room_target room_id) (
        field "roomId" (str room_id) (
          field "status" (str "JOINED") (
            field "memberCount" (num (whole (get_connection_count_in_room n.room_manager room_id)))
              (roster_fields roster)))))

  -- After the member is added: the sequence number, then the roster.
  unfoldable pub continue_room_join : Env → Node → String → PulseEventEnvelope → String → Progress
  unfolding finish_room_join
  continue_room_join env n sender_id e room_id =
      let accepted = accept_seq n sender_id e in
      if n.config.has_presence
      then (accepted, some (rostering sender_id e room_id))
      else (finish_room_join env accepted sender_id e room_id none, none)

  unfoldable pub handle_room_join : Env → Node → String → PulseEventEnvelope → Progress
  unfolding continue_room_join is_valid_room_id enter_room
  handle_room_join env n sender_id e =
      let room_id = room_id_of e in
      let sender = n.store sender_id in
      if not (is_valid_room_id n.config.max_room_id_length room_id)
      then (refuse_room env n sender_id e room_id "INVALID_ROOM_ID", none)
      else if not (has_room sender room_id)
          && leb n.config.max_rooms_per_connection (length (get_rooms sender))
      then (refuse_room env n sender_id e room_id "MAX_ROOMS_EXCEEDED", none)
      else let entered = enter_room n sender_id room_id in
        if tells_presence entered sender_id
        then (entered, some (joining sender_id e room_id))
        else continue_room_join env entered sender_id e room_id

  abbrev pub list_items : List Json → Items
  list_items [] = nil
  list_items (v ∷ vs) = item v (list_items vs)

  unfoldable pub finish_batch_join : Env → Node → String → PulseEventEnvelope → List Json → Node
  finish_batch_join env n sender_id e joined = reply (accept_seq n sender_id e) sender_id (
      system_envelope env EventType.room_batch_join_ack (correlation_of e) none (
        field "joinedRooms" (arr (list_items joined))
          (field "totalJoined" (num (whole (length joined))) end)))

  -- The name that an entry gives: its trimmed text.
  abbrev pub name_of : Json → String
  name_of (str s) = trim s
  name_of _ = ""

  -- The loop over the rooms: an entry that is no valid name is passed over, and the loop ends where
  -- one room more would be too many. Rooms that the connection is in already are joined again.
  unfoldable pub batch_join_loop :
      Env → Node → String → PulseEventEnvelope → ℕ → ℕ → List Json → List Json → Progress
  unfolding finish_batch_join is_valid_room_id enter_room
  batch_join_loop env n sender_id e current added joined [] =
      (finish_batch_join env n sender_id e joined, none)
  batch_join_loop env n sender_id e current added joined (v ∷ vs) =
      let room_id = name_of v in
      let is_new = not (has_room (n.store sender_id) room_id) in
      let added' = if is_new then added + 1 else added in
      let entered = enter_room n sender_id room_id in
      elim (is_valid_room_id n.config.max_room_id_length room_id) [
        | false ↦ batch_join_loop env n sender_id e current added joined vs
        | true ↦ elim (is_new && leb n.config.max_rooms_per_connection (current + added)) [
          | true ↦ (finish_batch_join env n sender_id e joined, none)
          | false ↦ elim (tells_presence n sender_id) [
            | true ↦ (
              entered,
              some (batch_joining sender_id e current added' (joined ++ str room_id ∷ []) vs),
            )
            | false ↦
                batch_join_loop env entered sender_id e current added' (joined ++ str room_id ∷ [])
                  vs
          ]
        ]
      ]

  handle_rooms : Env → Node → String → PulseEventEnvelope → Option Json → Progress
  unfolding batch_join_loop
  handle_rooms env n sender_id e (some (arr rooms)) =
      let current = length (get_rooms (n.store sender_id)) in
      if leb n.config.max_rooms_per_connection current
      then (refuse env n sender_id e "MAX_ROOMS_EXCEEDED", none)
      else batch_join_loop env n sender_id e current 0 [] (items rooms)
  handle_rooms env n sender_id e _ = (n, none)

  unfoldable pub handle_room_batch_join : Env → Node → String → PulseEventEnvelope → Progress
  unfolding handle_rooms
  handle_room_batch_join env n sender_id e =
      handle_rooms env n sender_id e (get_field "rooms" e.payload)

  unfoldable pub finish_room_leave : Env → Node → String → PulseEventEnvelope → String → Node
  finish_room_leave env n sender_id e room_id = reply (accept_seq n sender_id e) sender_id (
      system_envelope env EventType.room_leave_ack (correlation_of e) (room_target room_id)
        (field "roomId" (str room_id) (field "status" (str "LEFT") end)))

  -- Another connection of the same user is in the room.
  unfoldable pub has_other : Node → String → String → List ConnectionRef → Bool
  has_other n sender_id room_id [] = false
  has_other n sender_id room_id (c ∷ cs) =
      (not (c.connection_id =ₛ sender_id) && has_room (n.store c.connection_id) room_id)
      || has_other n sender_id room_id cs

  unfoldable pub handle_room_leave : Env → Node → String → PulseEventEnvelope → Progress
  unfolding finish_room_leave exit_room has_other
  handle_room_leave env n sender_id e =
      let room_id = room_id_of e in
      let left = exit_room n sender_id room_id in
      let others =
        get_connections_by_user_id left.connection_manager (left.store sender_id).user_id in
      if tells_presence left sender_id && not (has_other left sender_id room_id others)
      then (left, some (leaving sender_id e room_id))
      else (finish_room_leave env left sender_id e room_id, none)

  -- What is awaited has come; for a join's second wait it is the roster.
  unfoldable pub resume : Env → Node → Pending → Option Roster → Progress
  unfolding continue_room_join finish_room_join batch_join_loop finish_room_leave
  resume env n (joining sender_id e room_id) roster = continue_room_join env n sender_id e room_id
  resume env n (rostering sender_id e room_id) roster =
      (finish_room_join env n sender_id e room_id roster, none)
  resume env n (batch_joining sender_id e current added joined rest) roster =
      batch_join_loop env n sender_id e current added joined rest
  resume env n (leaving sender_id e room_id) roster =
      (finish_room_leave env n sender_id e room_id, none)
