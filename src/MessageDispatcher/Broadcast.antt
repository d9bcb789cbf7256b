-- ===== src/MessageDispatcher/Broadcast.antt =====
-- What `handleRoomMessage` does to the node, for a member of the room and for another.
use pulse_distributed_real_t.Prelude.{
  String, List, [], ◌∷◌, ◌++◌, Bool, true, false, ◌≡◌, refl, arith, ◌&&◌, ◌=ₛ◌, is_some,
  if◌then◌else◌, ◌+ₛ◌, inl, inr, Bool-cases, ◌∙◌,
}
use text.Mathlib.TextEquality.{eq_iff}
use pulse_distributed_real_t.Json.{Fields, whole}
use pulse_distributed_real_t.JsMap.{JsSet, get, keys, contains, IsDistinct}
use pulse_distributed_real_t.JsMap.Laws.{contains-keys}
use pulse_distributed_real_t.Envelope.{PulseEventEnvelope}
use pulse_distributed_real_t.Connection.{WebSocketLib, send, has_room}
use pulse_distributed_real_t.ConnectionManager.{get_connection}
use pulse_distributed_real_t.RoomManager.{
  RoomManager, get_room_connection_ids, is_connection_in_room, members_of,
}
use pulse_distributed_real_t.RoomManager.Validity.{IsValid, members-IsDistinct}
use pulse_distributed_real_t.EventValidator.Distributed.{stamp_for_distribution}
use pulse_distributed_real_t.Node.{Node, Env, send_to, accept_seq}
use pulse_distributed_real_t.Handlers.Messaging.{
  handle_room_message, room_id_of, deliver_to_members, acknowledge, publish, room_ack,
}
use pulse_distributed_real_t.MessageDispatcher.Delivery.{
  IsUnique, deliver_to_members-store, deliver_to_members-SameManagers,
}

keys-IsUnique : (s : JsSet) → IsDistinct s → IsUnique (keys s)
unfolding get contains
keys-IsUnique [] d = tt
keys-IsUnique ((k, v) ∷ s) d = (ground (arith, contains-keys k s, d.0), keys-IsUnique s d.1)

pub room_ids-IsUnique :
    (m : RoomManager) (r : String) → IsValid m → IsUnique (get_room_connection_ids m r)
unfolding get_room_connection_ids
room_ids-IsUnique m r v = keys-IsUnique (members_of (get r m.rooms)) (members-IsDistinct m r v)

pub contains-room_ids :
    (m : RoomManager) (r j : String)
    → contains j (get_room_connection_ids m r) ≡ is_connection_in_room m r j
unfolding get_room_connection_ids is_connection_in_room
contains-room_ids m r j = contains-keys j (members_of (get r m.rooms))

-- What has been handed to Redis after a message on the channel.
abbrev pub published_after :
    Env → Node → String → PulseEventEnvelope → List (String × PulseEventEnvelope)
published_after env n channel e =
    if env.redis_connected
    then n.published
      ++ (channel, stamp_for_distribution e n.config.instance_id (whole env.now)) ∷ []
    else n.published

not_same : (i j : String) → (i =ₛ j) ≡ false → (j =ₛ i) ≡ false
not_same i j other = ground (arith, eq_iff i j, eq_iff j i)

module _ (ws : WebSocketLib) (hash : Fields → String) where
  -- The part after the broadcast loop touches the sender's connection only.
  acknowledged_others :
      (env : Env) (n : Node) (sender_id : String) (e ack : PulseEventEnvelope) (channel j : String)
      → (sender_id =ₛ j) ≡ false
      → let m = publish ws env (acknowledge ws hash env n sender_id e ack) channel e in
        (m.store j ≡ n.store j)
        × (m.published ≡ published_after env n channel e)
        × (m.room_manager ≡ n.room_manager)
        × (m.connection_manager ≡ n.connection_manager)
  unfolding publish acknowledge send_to
  acknowledged_others env n sender_id e ack channel j other =
      (ground arith, ground arith, ground arith, ground arith)

  -- Whether a message of the sender to its room comes to the connection `j`.
  abbrev pub reaches : Node → String → PulseEventEnvelope → String → Bool
  reaches n sender_id e j =
      has_room (n.store sender_id) (room_id_of e)
      && is_connection_in_room n.room_manager (room_id_of e) j
      && is_some (get_connection n.connection_manager j)

  member_others :
      (env : Env) (n : Node) (sender_id : String) (e : PulseEventEnvelope) (j : String)
      → IsValid n.room_manager
      → (sender_id =ₛ j) ≡ false
      → has_room (n.store sender_id) (room_id_of e) ≡ true
      → let m = handle_room_message ws hash env n sender_id e in
        (m.store j ≡ (
          if is_connection_in_room n.room_manager (room_id_of e) j
            && is_some (get_connection n.connection_manager j)
          then (send ws (n.store j) e).0
          else n.store j))
        × (m.published ≡ published_after env n ("pulse:room:" +ₛ room_id_of e) e)
        × (m.room_manager ≡ n.room_manager)
  unfolding handle_room_message accept_seq
  member_others env n sender_id e j v other member =
      let accepted = accept_seq n sender_id e in
      let ids = get_room_connection_ids n.room_manager (room_id_of e) in
      let told = deliver_to_members ws accepted sender_id e ids in
      let store =
        deliver_to_members-store ws accepted sender_id e ids j
          (room_ids-IsUnique n.room_manager (room_id_of e) v) in
      let same = deliver_to_members-SameManagers ws accepted sender_id e ids in
      let after =
        acknowledged_others env told.0 sender_id e (room_ack ws hash env e told.1)
          ("pulse:room:" +ₛ room_id_of e) j other in
      let found = contains-room_ids n.room_manager (room_id_of e) j in
      let other' = not_same sender_id j other in
      rw member (
        after.0 ∙ store ∙ rw (found, other') (ground arith),
        after.1 ∙ rw (same.4, same.0) refl,
        after.2 ∙ same.2,
      )

  stranger_others :
      (env : Env) (n : Node) (sender_id : String) (e : PulseEventEnvelope) (j : String)
      → (sender_id =ₛ j) ≡ false
      → has_room (n.store sender_id) (room_id_of e) ≡ false
      → let m = handle_room_message ws hash env n sender_id e in
        (m.store j ≡ n.store j) × (m.published ≡ n.published) × (m.room_manager ≡ n.room_manager)
  unfolding handle_room_message send_to
  stranger_others env n sender_id e j other stranger = (ground arith, ground arith, ground arith)

  -- With valid rooms, and for each connection but the sender's: a room message of a member is sent
  -- to it once if it is in the room and registered, and not otherwise; the message is published
  -- once if Redis is connected. A message of a connection that is not in the room is sent to nobody
  -- else and is not published. The room manager stays as it is.
  pub handle_room_message_lem :
      (env : Env) (n : Node) (sender_id : String) (e : PulseEventEnvelope) (j : String)
      → IsValid n.room_manager
      → (sender_id =ₛ j) ≡ false
      → let m = handle_room_message ws hash env n sender_id e in
        (m.store j ≡ (if reaches n sender_id e j then (send ws (n.store j) e).0 else n.store j))
        × (m.published ≡ (
            if has_room (n.store sender_id) (room_id_of e)
            then published_after env n ("pulse:room:" +ₛ room_id_of e) e
            else n.published))
        × (m.room_manager ≡ n.room_manager)
  handle_room_message_lem env n sender_id e j v other =
      elim (Bool-cases (has_room (n.store sender_id) (room_id_of e))) [
        | inl member ↦ rw member (member_others env n sender_id e j v other member)
        | inr stranger ↦ rw stranger (stranger_others env n sender_id e j other stranger)
      ]
