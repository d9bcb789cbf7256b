-- ===== src/PulseServer/Cleanup.antt =====
-- src/core/PulseServer.ts: the managers after the close of a connection.
use pulse_distributed_real_t.Prelude.{
  ℕ, String, [], ◌∷◌, ◌++◌, none, false, if◌then◌else◌, ◌≡◌, ◌=ₛ◌, ◌∙◌, ap, arith, ◌&&◌, truthy,
}
use pulse_distributed_real_t.JsMap.{get, delete}
use pulse_distributed_real_t.JsMap.Laws.{get-delete, delete_of_none}
use pulse_distributed_real_t.Connection.{get_rooms}
use pulse_distributed_real_t.ConnectionManager.{
  ConnectionManager, remove_connection, get_connection,
}
use pulse_distributed_real_t.RoomManager.{is_connection_in_room, remove_connection_from_all_rooms}
use pulse_distributed_real_t.RoomManager.Removal.{remove_connection_from_all_rooms_lem}
use pulse_distributed_real_t.OriginMatcher.{UrlLib}
use pulse_distributed_real_t.PulseServer.{PulseServer, PresenceCall}
use pulse_distributed_real_t.PulseServer.Lifecycle.{on_socket_close, unregister}

removed-connections :
    (m : ConnectionManager) (id : String)
    → (remove_connection m id).0.connections ≡ delete id m.connections
unfolding remove_connection
removed-connections m id = ground (arith, delete_of_none id m.connections)

swept :
    (url : UrlLib) (s : PulseServer) (id : String) (code : ℕ) (reason : String)
    → let t = on_socket_close url s id code reason in
      (t.node.connection_manager ≡ (remove_connection s.node.connection_manager id).0)
      × (t.node.room_manager
          ≡ (remove_connection_from_all_rooms s.node.room_manager id
              (get_rooms (s.node.store id))).0)
      × (t.presence_calls ≡ (
          if truthy (s.node.store id).user_id && s.node.config.has_presence
          then s.presence_calls ++ PresenceCall.presence_removed (s.node.store id).user_id id ∷ []
          else s.presence_calls))
unfolding on_socket_close unregister
swept url s id code reason = (ground arith, ground arith, ground arith)

-- When a connection's socket closes, its id is no longer registered and in no room, whatever rooms
-- the connection knew of; every other id is registered and in rooms as before. If there is a
-- presence manager and the user id is not empty, it is told of the removal once.
pub on_socket_close_lem :
    (url : UrlLib) (s : PulseServer) (id : String) (code : ℕ) (reason : String) (other r : String)
    → let t = on_socket_close url s id code reason in
      (get_connection t.node.connection_manager other
        ≡ (if id =ₛ other then none else get_connection s.node.connection_manager other))
      × (is_connection_in_room t.node.room_manager r other
          ≡ (if id =ₛ other then false else is_connection_in_room s.node.room_manager r other))
      × (t.presence_calls ≡ (
          if truthy (s.node.store id).user_id && s.node.config.has_presence
          then s.presence_calls ++ PresenceCall.presence_removed (s.node.store id).user_id id ∷ []
          else s.presence_calls))
unfolding get_connection
on_socket_close_lem url s id code reason other r =
    let m = s.node.connection_manager in
    let h = swept url s id code reason in
    let rooms =
      remove_connection_from_all_rooms_lem s.node.room_manager id (get_rooms (s.node.store id))
        other r in
    (
      ap (λ n. get_connection n other) h.0
          ∙ ap (λ cs. get other cs) (removed-connections m id)
          ∙ get-delete other id m.connections,
      ap (λ n. is_connection_in_room n r other) h.1
          ∙ remove_connection_from_all_rooms_lem s.node.room_manager id
              (get_rooms (s.node.store id)) r other,
      h.2,
    )
