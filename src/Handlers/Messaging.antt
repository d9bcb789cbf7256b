-- ===== src/Handlers/Messaging.antt =====
-- `handleRoomMessage`, `handleDirectMessage`, `handlePing` and `handlePong`.
use pulse_distributed_real_t.Prelude.{
  ℕ, ◌+◌, String, List, [], ◌∷◌, ◌++◌, none, Bool, true, false, not, ◌=ₛ◌, ◌+ₛ◌, if◌then◌else◌, ltb,
  ◌&&◌, is_some,
}
use pulse_distributed_real_t.Json.{Fields, field, end, str, num, bool, whole}
use pulse_distributed_real_t.Envelope.{EventType, PulseEventEnvelope}
use pulse_distributed_real_t.ConnectionManager.{
  ConnectionRef, get_connection, get_connections_by_user_id,
}
use pulse_distributed_real_t.RoomManager.{get_room_connection_ids}
use pulse_distributed_real_t.IdempotencyManager.{record_ack}
use pulse_distributed_real_t.EventValidator.{room_of, recipient_of}
use pulse_distributed_real_t.EventValidator.Distributed.{stamp_for_distribution, text_or}
use pulse_distributed_real_t.Connection.{WebSocketLib, Metric, has_room, touch}
use pulse_distributed_real_t.Node.{
  Node, Env, send_to, put_connection, count_metric, correlation_of, system_envelope, room_target,
  recipient_target, accept_seq,
}

abbrev pub one_if : Bool → ℕ
one_if true = 1
one_if false = 0

abbrev pub error_payload : String → Fields
error_payload code = field "code" (str code) end

-- The id of a validated envelope's target: `envelope.target!.roomId!`.
abbrev pub room_id_of : PulseEventEnvelope → String
room_id_of e = text_or "" (room_of e.target)

abbrev pub recipient_id_of : PulseEventEnvelope → String
recipient_id_of e = text_or "" (recipient_of e.target)

module _ (ws : WebSocketLib) where
  -- The broadcast loop: every listed connection but the sender's that is registered.
  unfoldable pub deliver_to_members : Node → String → PulseEventEnvelope → List String → Node × ℕ
  deliver_to_members n sender_id e [] = (n, 0)
  deliver_to_members n sender_id e (id ∷ ids) =
      let known = is_some (get_connection n.connection_manager id) in
      let (n', sent) = if not (id =ₛ sender_id) && known then send_to ws n id e else (n, false) in
      let (final, count) = deliver_to_members n' sender_id e ids in (final, one_if sent + count)

  unfoldable pub deliver_to_connections : Node → PulseEventEnvelope → List ConnectionRef → Node × ℕ
  deliver_to_connections n e [] = (n, 0)
  deliver_to_connections n e (c ∷ cs) =
      let (n', sent) = send_to ws n c.connection_id e in
      let (final, count) = deliver_to_connections n' e cs in (final, one_if sent + count)

  -- Redis is told if it is connected; that publishing fails later changes nothing here.
  unfoldable pub publish : Env → Node → String → PulseEventEnvelope → Node
  publish env n channel e =
      if env.redis_connected
      then record n {
        published =
            n.published
            ++ (channel, stamp_for_distribution e n.config.instance_id (whole env.now)) ∷ [];
      }
      else n

  module _ (hash : Fields → String) where
    -- The ACK is recorded, sent and counted.
    unfoldable pub acknowledge :
        Env → Node → String → PulseEventEnvelope → PulseEventEnvelope → Node
    acknowledge env n sender_id e ack =
        let recorded = record n {
          idempotency_manager =
              record_ack hash n.idempotency_manager e.event_id ack e.payload env.now;
        } in
        count_metric (send_to ws recorded sender_id ack).0 (Metric.acknowledged "success")

    abbrev pub room_ack : Env → PulseEventEnvelope → ℕ → PulseEventEnvelope
    room_ack env e count =
        system_envelope env EventType.delivery_ack (correlation_of e) (room_target (room_id_of e)) (
          field "targetEventId" (str e.event_id)
            (field "status" (str "ACCEPTED") (field "recipientCount" (num (whole count)) end)))

    unfoldable pub handle_room_message : Env → Node → String → PulseEventEnvelope → Node
    unfolding acknowledge publish deliver_to_members
    handle_room_message env n sender_id e =
        let room_id = room_id_of e in
        if not (has_room (n.store sender_id) room_id)
        then count_metric
            (send_to ws n sender_id (
              system_envelope env EventType.sys_error (correlation_of e) (room_target room_id)
                (error_payload "UNAUTHORIZED_ROOM_ACCESS"))).0
            (Metric.acknowledged "error")
        else let accepted = accept_seq n sender_id e in
          let (told, count) =
            deliver_to_members accepted sender_id e
              (get_room_connection_ids accepted.room_manager room_id) in
          publish env (acknowledge env told sender_id e (room_ack env e count))
            ("pulse:room:" +ₛ room_id) e

    abbrev pub direct_ack : Env → PulseEventEnvelope → ℕ → PulseEventEnvelope
    direct_ack env e count =
        system_envelope env EventType.delivery_ack (correlation_of e)
          (recipient_target (recipient_id_of e))
          (field "targetEventId" (str e.event_id) (
            field "status" (str "ACCEPTED") (
              field "delivered" (bool (ltb 0 count))
                (field "recipientConnectionCount" (num (whole count)) end))))

    unfoldable pub handle_direct_message : Env → Node → String → PulseEventEnvelope → Node
    unfolding acknowledge publish deliver_to_connections
    handle_direct_message env n sender_id e =
        let accepted = accept_seq n sender_id e in
        let (told, count) =
          deliver_to_connections accepted e
            (get_connections_by_user_id accepted.connection_manager (recipient_id_of e)) in
        publish env (acknowledge env told sender_id e (direct_ack env e count))
          ("pulse:user:" +ₛ recipient_id_of e) e

  unfoldable pub handle_ping : Env → Node → String → PulseEventEnvelope → Node
  handle_ping env n sender_id e =
      (send_to ws (accept_seq n sender_id e) sender_id (
        system_envelope env EventType.sys_pong (correlation_of e) none (
          field "instanceId" (str n.config.instance_id)
            (field "receivedAt" (num (whole env.now)) end)))).0

unfoldable pub handle_pong : Env → Node → String → PulseEventEnvelope → Node
handle_pong env n sender_id e =
    let accepted = accept_seq n sender_id e in
    put_connection accepted sender_id (touch (accepted.store sender_id) env.now)
