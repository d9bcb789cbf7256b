-- ===== src/MessageDispatcher/Replay.antt =====
-- Duplicates and conflicts, as `dispatchRawMessage` answers them.
use pulse_distributed_real_t.Prelude.{
  ℕ, ◌+◌, ◌≤◌, String, true, ◌≡◌, refl, arith, ◌=ₛ◌, if◌then◌else◌, ◌+ₛ◌, ◌∙◌,
}
use pulse_distributed_real_t.Json.{Fields}
use pulse_distributed_real_t.Envelope.{PulseEventEnvelope}
use pulse_distributed_real_t.Connection.{WebSocketLib, send, has_room}
use pulse_distributed_real_t.IdempotencyManager
use pulse_distributed_real_t.IdempotencyManager.{duplicate, conflict, record_ack, not_duplicate}
use pulse_distributed_real_t.IdempotencyManager.Laws.{check-record_ack}
use pulse_distributed_real_t.RoomManager.{get_room_connection_ids}
use pulse_distributed_real_t.Node.{Node, Env, send_to, accept_seq}
use pulse_distributed_real_t.Handlers.Messaging.{
  handle_room_message, room_id_of, deliver_to_members, acknowledge, publish, room_ack,
}
use pulse_distributed_real_t.MessageDispatcher.{handle_valid, handle_checked, is_message, replay_of}
use pulse_distributed_real_t.MessageDispatcher.Delivery.{deliver_to_members-SameManagers}

module _ (ws : WebSocketLib) (hash : Fields → String) where
  -- The answer that a check of the event gives now.
  abbrev answer : Env → Node → PulseEventEnvelope → IdempotencyManager.IdempotencyCheckResult
  answer env n e =
      (IdempotencyManager.check hash n.idempotency_manager e.event_id e.payload env.now).1

  -- A duplicate message is answered with the cached ACK, under the new correlation id if it has
  -- one. No other connection is sent anything, nothing is published, the rooms and the
  -- sender's sequence number stay as they are.
  pub handle_valid-duplicate :
      (env : Env) (n : Node) (sender_id : String) (e cached : PulseEventEnvelope)
      → is_message e.type ≡ true
      → answer env n e ≡ duplicate cached
      → let m = (handle_valid ws hash env n sender_id e).0 in
        ((j : String)
          → m.store j ≡ (
              if sender_id =ₛ j
              then (send ws (n.store sender_id) (replay_of ws hash e cached)).0
              else n.store j))
        × (m.published ≡ n.published)
        × (m.room_manager ≡ n.room_manager)
  unfolding handle_valid handle_checked send_to
  handle_valid-duplicate env n sender_id e cached message found =
      rw (message, found) (λ j. refl, refl, refl)

  acknowledge_recorded :
      (env : Env) (n : Node) (sender_id channel : String) (e ack : PulseEventEnvelope)
      → (publish ws env (acknowledge ws hash env n sender_id e ack) channel e).idempotency_manager
        ≡ record_ack hash n.idempotency_manager e.event_id ack e.payload env.now
  unfolding acknowledge publish send_to
  acknowledge_recorded env n sender_id channel e ack = ground arith

  -- The room message's ACK is what the idempotency manager remembers of it.
  handle_room_message-recorded :
      (env : Env) (n : Node) (sender_id : String) (e : PulseEventEnvelope)
      → has_room (n.store sender_id) (room_id_of e) ≡ true
      → (handle_room_message ws hash env n sender_id e).idempotency_manager
        ≡ record_ack hash n.idempotency_manager e.event_id
            (room_ack ws hash env e
              (deliver_to_members ws
                (accept_seq n sender_id e)
                sender_id
                e
                (get_room_connection_ids n.room_manager (room_id_of e))).1)
            e.payload
            env.now
  unfolding handle_room_message send_to accept_seq
  handle_room_message-recorded env n sender_id e member =
      let accepted = accept_seq n sender_id e in
      let ids = get_room_connection_ids n.room_manager (room_id_of e) in
      let told = deliver_to_members ws accepted sender_id e ids in
      let same = deliver_to_members-SameManagers ws accepted sender_id e ids in
      let recorded =
        acknowledge_recorded env told.0 sender_id ("pulse:room:" +ₛ room_id_of e) e
          (room_ack ws hash env e told.1) in
      rw member (recorded ∙ rw same.3 refl)

  -- The number of connections that the room message was sent to.
  abbrev delivered_count : Node → String → PulseEventEnvelope → ℕ
  delivered_count n sender_id e =
      (deliver_to_members ws (accept_seq n sender_id e) sender_id e
        (get_room_connection_ids n.room_manager (room_id_of e))).1

  retry_found :
      (env later : Env) (n m : Node) (sender_id : String) (e again : PulseEventEnvelope)
      → has_room (n.store sender_id) (room_id_of e) ≡ true
      → m.idempotency_manager ≡ (handle_room_message ws hash env n sender_id e).idempotency_manager
      → again.event_id ≡ e.event_id
      → (hash e.payload =ₛ hash again.payload) ≡ true
      → later.now ≤ env.now + n.idempotency_manager.ttl_ms
      → answer later m again ≡ duplicate (room_ack ws hash env e (delivered_count n sender_id e))
  retry_found env later n m sender_id e again member kept same alike early =
      let recorded = handle_room_message-recorded env n sender_id e member in
      rw (kept, recorded, same)
        (check-record_ack hash n.idempotency_manager e.event_id
            (room_ack ws hash env e (delivered_count n sender_id e)) e.payload again.payload env.now
            later.now
          ∙ rw alike (ground arith))

  -- A member's room message was handled, and a message event with its id and a payload of the same
  -- hash comes within the time to live, while the idempotency manager is as the first handling left
  -- it. Then the sender is sent the ACK of the first handling, under the new correlation id if
  -- there is one; no other connection changes, nothing is published, and the room manager stays as
  -- it is.
  pub handle_room_message-retry :
      (env later : Env) (n m : Node) (sender_id : String) (e again : PulseEventEnvelope)
      → has_room (n.store sender_id) (room_id_of e) ≡ true
      → m.idempotency_manager ≡ (handle_room_message ws hash env n sender_id e).idempotency_manager
      → again.event_id ≡ e.event_id
      → (hash e.payload =ₛ hash again.payload) ≡ true
      → is_message again.type ≡ true
      → later.now ≤ env.now + n.idempotency_manager.ttl_ms
      → let ack = room_ack ws hash env e (delivered_count n sender_id e) in
        let k = (handle_valid ws hash later m sender_id again).0 in
        ((j : String)
          → k.store j ≡ (
              if sender_id =ₛ j
              then (send ws (m.store sender_id) (replay_of ws hash again ack)).0
              else m.store j))
        × (k.published ≡ m.published)
        × (k.room_manager ≡ m.room_manager)
  handle_room_message-retry env later n m sender_id e again member kept same alike message early =
      handle_valid-duplicate later m sender_id again
        (room_ack ws hash env e (delivered_count n sender_id e)) message
        (retry_found env later n m sender_id e again member kept same alike early)
