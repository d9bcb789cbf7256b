-- ===== src/RoomManager.antt =====
-- src/core/RoomManager.ts. A room is a non-empty set of connection ids. The calls that the manager
-- makes on its channel registry are not awaited there: they are kept, in order, in `calls`, and
-- `ChannelRegistry` says what becomes of them. The logger is left out.
pub mod History
pub mod Membership
pub mod Validity
pub mod Removal
use pulse_distributed_real_t.Prelude.{
  ℕ, zero, suc, String, List, [], ◌∷◌, ◌++◌, Option, none, some, Bool, true, false, not, ◌&&◌, ◌==◌,
  if◌then◌else◌, truthy, trim, map,
}
use pulse_distributed_real_t.JsMap.{JsMap, JsSet, get, set, delete, has, add, size, keys}

pub data ChannelCall : Type 0 where
  subscribe_room unsubscribe_room : String → ChannelCall

-- `rooms_active` is the gauge of that name, if a metrics registry is attached.
pub record RoomManager : Type 0 where
  pub rooms : JsMap JsSet
  pub has_channel_registry : Bool
  pub rooms_active : Option ℕ
  pub calls : List ChannelCall

unfoldable pub new_room_manager : Bool → Bool → RoomManager
new_room_manager has_channel_registry has_metrics = record {
  rooms = [];
  has_channel_registry = has_channel_registry;
  rooms_active = if has_metrics then some 0 else none;
  calls = [];
}

-- this.metricsRegistry?.getGauge('pulse_rooms_active')?.set(n)
abbrev pub set_gauge : ℕ → Option ℕ → Option ℕ
set_gauge n none = none
set_gauge n (some _) = some n

abbrev pub issue : Bool → ChannelCall → List ChannelCall → List ChannelCall
issue attached call calls = if attached then calls ++ call ∷ [] else calls

-- The members of a room, none if there is no such room.
abbrev pub members_of : Option JsSet → JsSet
members_of none = []
members_of (some members) = members

unfoldable pub join_room : RoomManager → String → String → RoomManager × Bool
join_room m room_id connection_id =
    let members = members_of (get room_id m.rooms) in
    let is_new = not (has connection_id members) in
    let rooms = set room_id (add connection_id members) m.rooms in
    (
      record m {
        rooms = rooms;
        rooms_active = if is_new then set_gauge (size rooms) m.rooms_active else m.rooms_active;
        calls = issue (is_new && m.has_channel_registry) (subscribe_room room_id) m.calls;
      },
      is_new,
    )

unfoldable pub leave_members : RoomManager → String → String → JsSet → RoomManager × Bool
leave_members m room_id connection_id members =
    let removed = has connection_id members in
    let remaining = delete connection_id members in
    let is_empty = size remaining == 0 in
    let rooms = if is_empty then delete room_id m.rooms else set room_id remaining m.rooms in
    (
      record m {
        rooms = rooms;
        rooms_active = if is_empty then set_gauge (size rooms) m.rooms_active else m.rooms_active;
        calls = issue (removed && m.has_channel_registry) (unsubscribe_room room_id) m.calls;
      },
      removed,
    )

unfoldable pub leave_room : RoomManager → String → String → RoomManager × Bool
unfolding leave_members
leave_room m room_id connection_id = elim (get room_id m.rooms) [
  | none ↦ (m, false)
  | some members ↦ leave_members m room_id connection_id members
]

-- Blank names are skipped; the answer lists the trimmed names, also of rooms joined before.
unfoldable pub join_rooms : RoomManager → List String → String → RoomManager × List String
join_rooms m [] connection_id = (m, [])
join_rooms m (room_id ∷ room_ids) connection_id =
    let trimmed = trim room_id in
    let (m', joined) =
      join_rooms (if truthy trimmed then (join_room m trimmed connection_id).0 else m) room_ids
        connection_id in
    (m', if truthy trimmed then trimmed ∷ joined else joined)

unfoldable pub get_room_connection_ids : RoomManager → String → List String
get_room_connection_ids m room_id = keys (members_of (get room_id m.rooms))

unfoldable pub get_connection_count_in_room : RoomManager → String → ℕ
get_connection_count_in_room m room_id = size (members_of (get room_id m.rooms))

unfoldable pub is_connection_in_room : RoomManager → String → String → Bool
is_connection_in_room m room_id connection_id = has connection_id (members_of (get room_id m.rooms))

unfoldable pub get_all_room_ids : RoomManager → List String
get_all_room_ids m = keys m.rooms

-- One loop of `removeConnectionFromAllRooms`: leave each room, and list those that were left.
unfoldable pub leave_each : RoomManager → String → List String → RoomManager × List String
leave_each m connection_id [] = (m, [])
leave_each m connection_id (room_id ∷ room_ids) =
    let (left, removed) = leave_room m room_id connection_id in
    let (m', rooms) = leave_each left connection_id room_ids in
    (m', if removed then room_id ∷ rooms else rooms)

-- First the rooms that the connection knows of, then a sweep over all rooms. The sweep's own test
-- for membership is the one that `leave_room` answers by.
unfoldable pub remove_connection_from_all_rooms :
    RoomManager → String → List String → RoomManager × List String
unfolding leave_each get_all_room_ids
remove_connection_from_all_rooms m connection_id room_ids =
    let (known, first) = leave_each m connection_id room_ids in
    let (swept, second) = leave_each known connection_id (get_all_room_ids known) in
    (swept, first ++ second)

unfoldable pub clear : RoomManager → RoomManager
clear m = record m { rooms = []; rooms_active = set_gauge 0 m.rooms_active }
