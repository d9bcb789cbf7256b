-- ===== src/MessageDispatcher/Relayed.antt =====
-- What becomes of a published message on the node that published it, and on another.
use pulse_distributed_real_t.Prelude.{
  String, List, [], ◌∷◌, Option, some, true, false, ◌≡◌, refl, arith, ◌&&◌, ◌=ₛ◌, ◌∙◌, is_some,
  if◌then◌else◌, inl, inr, Bool-cases, truthy, trim, =ₛ_refl, ap,
}
use text.Mathlib.TextEquality.{eq_iff}
use pulse_distributed_real_t.Json.{Json, Fields, obj, Number, num, is_finite}
use pulse_distributed_real_t.JsMap.{contains}
use pulse_distributed_real_t.Envelope.{EventType, PulseEventEnvelope}
use pulse_distributed_real_t.IdempotencyManager
use pulse_distributed_real_t.IdempotencyManager.{not_duplicate, record_ack}
use pulse_distributed_real_t.ConnectionManager.{get_connection}
use pulse_distributed_real_t.RoomManager.{get_room_connection_ids, is_connection_in_room}
use pulse_distributed_real_t.RoomManager.Validity.{IsValid}
use pulse_distributed_real_t.EventValidator.{room_of, valid}
use pulse_distributed_real_t.EventValidator.Encoding.{encode}
use pulse_distributed_real_t.EventValidator.WellFormed.{IsWellFormed}
use pulse_distributed_real_t.EventValidator.Distributed.{
  stamp_for_distribution, revive_number, validate_distributed,
}
use pulse_distributed_real_t.EventValidator.Relay.{IsPrintable, validate_distributed-encode}
use pulse_distributed_real_t.Connection.{WebSocketLib, send}
use pulse_distributed_real_t.Node.{Node, Env, send_to}
use pulse_distributed_real_t.Handlers.Inbound.{
  handle_inbound_redis_event, inbound_validated, inbound_ack, inbound_valid, inbound_checked,
  inbound_event, inbound_room_message, deliver_to_ids,
}
use pulse_distributed_real_t.MessageDispatcher.Delivery.{IsUnique}
use pulse_distributed_real_t.MessageDispatcher.Broadcast.{room_ids-IsUnique, contains-room_ids}

module _ (ws : WebSocketLib) where
  deliver_to_ids-store :
      (n : Node) (e : PulseEventEnvelope) (ids : List String) (j : String)
      → IsUnique ids
      → (deliver_to_ids ws n e ids).0.store j ≡ (
          if contains j ids && is_some (get_connection n.connection_manager j)
          then (send ws (n.store j) e).0
          else n.store j)
  unfolding deliver_to_ids send_to contains
  deliver_to_ids-store n e [] j u = refl
  deliver_to_ids-store n e (id ∷ ids) j u =
      elim (Bool-cases (is_some (get_connection n.connection_manager id))) [
        | inl told ↦ rw told (elim (Bool-cases (id =ₛ j)) [
          | inl same ↦
              ground
                (arith, deliver_to_ids-store (send_to ws n id e).0 e ids j u.1, eq_iff id j, u.0)
          | inr other ↦
              ground (arith, deliver_to_ids-store (send_to ws n id e).0 e ids j u.1, eq_iff id j)
        ])
        | inr skipped ↦ rw skipped (ground (arith, deliver_to_ids-store n e ids j u.1, eq_iff id j))
      ]

  inbound_room_message-store :
      (n : Node) (channel room_id : String) (e : PulseEventEnvelope) (j : String)
      → IsValid n.room_manager
      → room_of e.target ≡ some room_id
      → truthy room_id ≡ true
      → let m = inbound_room_message ws n channel e in
        (m.0.store j ≡ (
          if is_connection_in_room n.room_manager room_id j
            && is_some (get_connection n.connection_manager j)
          then (send ws (n.store j) e).0
          else n.store j))
        × (m.1 ≡ true)
  unfolding inbound_room_message
  inbound_room_message-store n channel room_id e j v h k =
      let ids = get_room_connection_ids n.room_manager room_id in
      let store = deliver_to_ids-store n e ids j (room_ids-IsUnique n.room_manager room_id v) in
      let found = contains-room_ids n.room_manager room_id j in
      rw (h, k, inbound_room_message) (rw⁻¹ found store, refl)

  inbound_event-store :
      (n : Node) (channel room_id : String) (e : PulseEventEnvelope) (j : String) (type : EventType)
      → IsValid n.room_manager
      → type ≡ EventType.room_message
      → room_of e.target ≡ some room_id
      → truthy room_id ≡ true
      → let m = inbound_event ws n channel e type in
        (m.0.store j ≡ (
          if is_connection_in_room n.room_manager room_id j
            && is_some (get_connection n.connection_manager j)
          then (send ws (n.store j) e).0
          else n.store j))
        × (m.1 ≡ true)
  unfolding inbound_event
  inbound_event-store n channel room_id e j type v is_message h k =
      rw is_message (inbound_room_message-store n channel room_id e j v h k)

  module _ (hash : Fields → String) where
    -- The frame that a node publishes of an event.
    abbrev pub frame_of : PulseEventEnvelope → String → Number → Option Json
    frame_of e instance_id time = some (obj (encode (stamp_for_distribution e instance_id time)))

    abbrev recording : Env → Node → PulseEventEnvelope → Node
    recording env n e = record n {
      idempotency_manager =
          record_ack hash
            (IdempotencyManager.check hash n.idempotency_manager e.event_id e.payload env.now).0
            e.event_id (inbound_ack ws env e) e.payload env.now;
    }

    arrived :
        (env : Env) (n : Node) (channel instance_id : String) (time : Number)
        (e : PulseEventEnvelope)
        → validate_distributed
            (obj (encode (stamp_for_distribution e instance_id time)))
            env.fresh_id
            env.now
          ≡ valid (stamp_for_distribution e instance_id time)
        → handle_inbound_redis_event ws hash env n channel (frame_of e instance_id time)
          ≡ inbound_valid ws hash env n channel (stamp_for_distribution e instance_id time)
    unfolding handle_inbound_redis_event inbound_validated
    arrived env n channel instance_id time e passes =
        ap (inbound_validated ws hash env n channel) passes

    own_dropped :
        (env : Env) (n : Node) (channel : String) (time : Number) (e : PulseEventEnvelope)
        → inbound_valid ws hash env n channel (stamp_for_distribution e n.config.instance_id time)
          ≡ (n, false)
    unfolding inbound_valid stamp_for_distribution
    own_dropped env n channel time e = rw (=ₛ_refl n.config.instance_id) refl

    -- A well-formed event with a sender that a node with a trimmed id that is not blank stamped at
    -- a finite time and wrote as an object, with a payload and numbers that JSON prints faithfully,
    -- changes nothing when it comes back to the node, which answers that it was not processed.
    pub handle_inbound_redis_event-own :
        (env : Env) (n : Node) (channel : String) (time : Number) (e : PulseEventEnvelope)
        → IsPrintable e
        → revive_number time ≡ num time
        → is_finite time ≡ true
        → IsWellFormed e
        → truthy e.sender_id ≡ true
        → trim n.config.instance_id ≡ n.config.instance_id
        → truthy n.config.instance_id ≡ true
        → handle_inbound_redis_event ws hash env n channel (frame_of e n.config.instance_id time)
          ≡ (n, false)
    handle_inbound_redis_event-own env n channel time e p r f w s t b =
        arrived env n channel n.config.instance_id time e (
          validate_distributed-encode e n.config.instance_id time p r env.fresh_id env.now w s t b
            f)
        ∙ own_dropped env n channel time e

    -- The node after the idempotency manager was asked about a new event and has recorded it.
    new_event_delivered :
        (env : Env) (n : Node) (channel instance_id room_id : String) (time : Number)
        (e : PulseEventEnvelope) (j : String)
        → IsValid n.room_manager
        → (instance_id =ₛ n.config.instance_id) ≡ false
        → (IdempotencyManager.check hash n.idempotency_manager e.event_id e.payload env.now).1
          ≡ not_duplicate
        → e.type ≡ EventType.room_message
        → room_of e.target ≡ some room_id
        → truthy room_id ≡ true
        → let stamped = stamp_for_distribution e instance_id time in
          let m = inbound_valid ws hash env n channel stamped in
          (m.0.store j ≡ (
            if is_connection_in_room n.room_manager room_id j
              && is_some (get_connection n.connection_manager j)
            then (send ws (n.store j) stamped).0
            else n.store j))
          × (m.1 ≡ true)
    unfolding inbound_valid inbound_checked stamp_for_distribution
    new_event_delivered env n channel instance_id room_id time e j v other new is_message h k =
        let stamped = stamp_for_distribution e instance_id time in
        rw (other, new)
          (inbound_event-store (recording env n stamped) channel room_id stamped j e.type v
            is_message h k)

    -- A well-formed room message with a sender, stamped by another node at a finite time and
    -- written as an object, with a node id that is trimmed and not blank and a payload and numbers
    -- that JSON prints faithfully, arrives on a node with valid rooms to which it is new: it is
    -- sent as stamped, once, to each registered connection in the room, to nobody else, and the
    -- node answers that it was processed.
    pub handle_inbound_redis_event-relayed :
        (env : Env) (n : Node) (channel instance_id room_id : String) (time : Number)
        (e : PulseEventEnvelope) (j : String)
        → IsPrintable e
        → revive_number time ≡ num time
        → is_finite time ≡ true
        → IsWellFormed e
        → truthy e.sender_id ≡ true
        → trim instance_id ≡ instance_id
        → truthy instance_id ≡ true
        → IsValid n.room_manager
        → (instance_id =ₛ n.config.instance_id) ≡ false
        → (IdempotencyManager.check hash n.idempotency_manager e.event_id e.payload env.now).1
          ≡ not_duplicate
        → e.type ≡ EventType.room_message
        → room_of e.target ≡ some room_id
        → truthy room_id ≡ true
        → let stamped = stamp_for_distribution e instance_id time in
          let m = handle_inbound_redis_event ws hash env n channel (frame_of e instance_id time) in
          (m.0.store j ≡ (
            if is_connection_in_room n.room_manager room_id j
              && is_some (get_connection n.connection_manager j)
            then (send ws (n.store j) stamped).0
            else n.store j))
          × (m.1 ≡ true)
    handle_inbound_redis_event-relayed env n channel instance_id room_id time e j p r f w s t b v
          other new is_message h k =
        rw
          (arrived env n channel instance_id time e
            (validate_distributed-encode e instance_id time p r env.fresh_id env.now w s t b f))
          (new_event_delivered env n channel instance_id room_id time e j v other new is_message h
            k)
