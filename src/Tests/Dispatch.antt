-- ===== src/Tests/Dispatch.antt =====
-- The dispatcher at a node with alice and bob in the lobby.
use pulse_distributed_real_t.MessageDispatcher.Relayed.{
  handle_inbound_redis_event-own, handle_inbound_redis_event-relayed, frame_of,
}
use pulse_distributed_real_t.Handlers.Inbound.{handle_inbound_redis_event}
use pulse_distributed_real_t.Tests.Events.{lobby_message-IsPrintable, lobby_message-IsWellFormed}
use pulse_distributed_real_t.Prelude.{
  ◌<◌, String, [], ◌∷◌, none, true, ◌≡◌, refl, arith, if◌then◌else◌, ◌=ₛ◌, false, trim,
}
use pulse_distributed_real_t.JsMap.{get, set}
use pulse_distributed_real_t.Json.{whole, is_finite}
use pulse_distributed_real_t.Connection.{send, get_rooms, has_room}
use pulse_distributed_real_t.Node.{Node, accept_seq, send_to}
use pulse_distributed_real_t.EventValidator.Distributed.{stamp_for_distribution}
use pulse_distributed_real_t.Handlers.Messaging.{
  handle_room_message, handle_ping, room_ack, deliver_to_members,
}
use pulse_distributed_real_t.Handlers.Joining.{handle_room_join, resume, joining, is_valid_room_id}
use pulse_distributed_real_t.Handlers.JoinLaws.{
  handle_room_join_lem, handle_room_join-IsAgreed, IsAgreed, Joined,
}
use pulse_distributed_real_t.Handlers.LateJoin.{late_join-lowers, seq_at}
use pulse_distributed_real_t.MessageDispatcher.{handle_valid, replay_of}
use pulse_distributed_real_t.MessageDispatcher.Broadcast.{handle_room_message_lem}
use pulse_distributed_real_t.MessageDispatcher.Replay.{handle_room_message-retry}
use pulse_distributed_real_t.Tests.Data.{
  quick_socket, text_hash, env, later_env, node, bob, stranger, lobby_message, lobby_join, ping,
  lobby_rooms,
}
use pulse_distributed_real_t.Tests.Managers.{lobby_rooms-IsValid}
use pulse_distributed_real_t.RoomManager.{is_connection_in_room, get_room_connection_ids, join_room}
use pulse_distributed_real_t.ConnectionManager.{get_connection}
use pulse_distributed_real_t.IdempotencyManager.{check}

handle_room_message_lem_example :
    let m = handle_room_message quick_socket text_hash env node "c1" lobby_message in
    (m.store "c2" ≡ (send quick_socket bob lobby_message).0)
    × (m.published
        ≡ ("pulse:room:lobby", stamp_for_distribution lobby_message "n1" (whole 50)) ∷ [])
    × (m.room_manager ≡ lobby_rooms)
unfolding send has_room get is_connection_in_room get_connection
handle_room_message_lem_example =
    handle_room_message_lem quick_socket text_hash env node "c1" lobby_message "c2"
      lobby_rooms-IsValid refl

handle_room_message-retry_example :
    let once = handle_room_message quick_socket text_hash env node "c1" lobby_message in
    let ack = room_ack quick_socket text_hash env lobby_message 1 in
    let k = (handle_valid quick_socket text_hash later_env once "c1" lobby_message).0 in
    ((j : String)
      → k.store j ≡ (
          if "c1" =ₛ j
          then (send quick_socket
              (once.store "c1")
              (replay_of quick_socket text_hash lobby_message ack)).0
          else once.store j))
    × (k.published ≡ once.published)
    × (k.room_manager ≡ once.room_manager)
unfolding has_room get deliver_to_members get_room_connection_ids get_connection accept_seq send_to
    send
handle_room_message-retry_example =
    let once = handle_room_message quick_socket text_hash env node "c1" lobby_message in
    handle_room_message-retry quick_socket text_hash env later_env node once "c1" lobby_message
      lobby_message refl refl refl refl refl (omega arith)

-- Eve joins the lobby.
handle_room_join_lem_example :
    let m = (handle_room_join quick_socket env node "c3" lobby_join).0 in
    Joined node "c3" "lobby" "c3" (m.store "c3").rooms m.room_manager true
unfolding set is_valid_room_id join_room has_room get get_rooms
handle_room_join_lem_example = handle_room_join_lem quick_socket env node "c3" "c3" lobby_join

-- A node on which nobody is in a room.
abbrev quiet_node : Node
quiet_node = record node {
  store = λ id. stranger;
  room_manager = record lobby_rooms { rooms = []; rooms_active = none };
}

quiet_node-IsAgreed : IsAgreed quiet_node
unfolding is_connection_in_room has_room get
quiet_node-IsAgreed j r = refl

handle_room_join-IsAgreed_example :
    IsAgreed (handle_room_join quick_socket env quiet_node "c3" lobby_join).0
handle_room_join-IsAgreed_example =
    handle_room_join-IsAgreed quick_socket env quiet_node "c3" lobby_join quiet_node-IsAgreed

late_join-lowers_example :
    let pinged = handle_ping quick_socket env node "c1" ping in
    let back = (resume quick_socket later_env pinged (joining "c1" lobby_join "lobby") none).0 in
    (seq_at pinged "c1" ≡ 9) × (seq_at back "c1" ≡ 3) × (seq_at back "c1" < seq_at pinged "c1")
late_join-lowers_example =
    late_join-lowers quick_socket env later_env node "c1" "lobby" lobby_join ping 3 9 none refl refl
      (omega arith)

handle_inbound_redis_event-own_example :
    handle_inbound_redis_event quick_socket text_hash env node "pulse:room:lobby"
      (frame_of quick_socket text_hash lobby_message "n1" (whole 40))
    ≡ (node, false)
unfolding is_finite trim
handle_inbound_redis_event-own_example =
    handle_inbound_redis_event-own quick_socket text_hash env node "pulse:room:lobby" (whole 40)
      lobby_message lobby_message-IsPrintable refl refl lobby_message-IsWellFormed refl refl refl

handle_inbound_redis_event-relayed_example :
    let stamped = stamp_for_distribution lobby_message "n2" (whole 40) in
    let m =
      handle_inbound_redis_event quick_socket text_hash env node "pulse:room:lobby"
        (frame_of quick_socket text_hash lobby_message "n2" (whole 40)) in
    (m.0.store "c2" ≡ (send quick_socket bob stamped).0) × (m.1 ≡ true)
unfolding is_finite trim check get send is_connection_in_room get_connection
handle_inbound_redis_event-relayed_example =
    handle_inbound_redis_event-relayed quick_socket text_hash env node "pulse:room:lobby" "n2"
      "lobby" (whole 40) lobby_message "c2" lobby_message-IsPrintable refl refl
      lobby_message-IsWellFormed refl refl refl lobby_rooms-IsValid refl refl refl refl refl
