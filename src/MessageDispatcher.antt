-- ===== src/MessageDispatcher.antt =====
-- `dispatchRawMessage` of src/core/MessageDispatcher.ts. The frame is what `JSON.parse` makes of it,
-- `none` where it throws. The duration histogram and the logger are left out.
pub mod Delivery
pub mod Broadcast
pub mod Replay
pub mod Relayed
use pulse_distributed_real_t.Prelude.{
  ℕ, String, Option, none, some, Bool, true, false, if◌then◌else◌, ltb,
}
use pulse_distributed_real_t.Json.{Json, Fields}
use pulse_distributed_real_t.Envelope
use pulse_distributed_real_t.Envelope.{EventType, PulseEventEnvelope}
use pulse_distributed_real_t.IdempotencyManager
use pulse_distributed_real_t.IdempotencyManager.{
  IdempotencyCheckResult, not_duplicate, conflict, duplicate,
}
use pulse_distributed_real_t.EventValidator.{
  ValidationResult, valid, invalid, validate_incoming, present,
}
use pulse_distributed_real_t.EventValidator.Checks.{ErrorCode}
use pulse_distributed_real_t.Connection
use pulse_distributed_real_t.Connection.{
  WebSocketLib, Metric, touch, consume_rate_limit, record_rate_violation, close,
}
use pulse_distributed_real_t.Node.{
  Node, Env, send_to, put_connection, count_metric, correlation_of, system_envelope,
}
use pulse_distributed_real_t.Handlers.Messaging.{
  error_payload, handle_room_message, handle_direct_message, handle_ping, handle_pong,
}
use pulse_distributed_real_t.Handlers.Joining.{
  Progress, handle_room_join, handle_room_batch_join, handle_room_leave,
}

unfoldable pub code_name : ErrorCode → String
code_name ErrorCode.malformed_json = "MALFORMED_JSON"
code_name ErrorCode.invalid_envelope = "INVALID_ENVELOPE"
code_name ErrorCode.missing_event_type = "MISSING_EVENT_TYPE"
code_name ErrorCode.unrecognized_event_type = "UNRECOGNIZED_EVENT_TYPE"
code_name ErrorCode.invalid_sequence_number = "INVALID_SEQUENCE_NUMBER"
code_name ErrorCode.missing_room_id = "MISSING_ROOM_ID"
code_name ErrorCode.invalid_rooms_array = "INVALID_ROOMS_ARRAY"
code_name ErrorCode.batch_size_exceeded = "BATCH_SIZE_EXCEEDED"
code_name ErrorCode.invalid_room_id = "INVALID_ROOM_ID"
code_name ErrorCode.empty_payload = "EMPTY_PAYLOAD"
code_name ErrorCode.missing_recipient_id = "MISSING_RECIPIENT_ID"
code_name ErrorCode.invalid_origin_instance_id = "INVALID_ORIGIN_INSTANCE_ID"
code_name ErrorCode.invalid_origin_timestamp = "INVALID_ORIGIN_TIMESTAMP"
code_name ErrorCode.invalid_distributed_envelope = "INVALID_DISTRIBUTED_ENVELOPE"
code_name ErrorCode.missing_origin_instance_id = "MISSING_ORIGIN_INSTANCE_ID"

-- The events that are checked for duplicates.
abbrev pub is_message : EventType → Bool
is_message EventType.room_message = true
is_message EventType.direct_message = true
is_message _ = false

module _ (ws : WebSocketLib) (hash : Fields → String) where
  -- The bucket is empty: an error, and the end for a connection that keeps on.
  unfoldable pub limit_rate : Env → Node → String → Node
  limit_rate env n sender_id =
      let counted =
        count_metric (count_metric n Metric.rate_limited) (Metric.dropped "rate_limit_exceeded") in
      let told =
        (send_to ws counted sender_id (
          system_envelope env EventType.sys_error none none
            (error_payload "RATE_LIMIT_EXCEEDED"))).0 in
      let (sender, abusive) = record_rate_violation (told.store sender_id) env.now in
      put_connection told sender_id (if abusive then close ws sender 1008 else sender)

  unfoldable pub reject_frame : Env → Node → String → ErrorCode → Option String → Node
  unfolding code_name
  reject_frame env n sender_id code correlation_id =
      let counted =
        count_metric (count_metric n (Metric.dropped "malformed_frame"))
          (Metric.received EventType.sys_error) in
      (send_to ws counted sender_id (
        system_envelope env EventType.sys_error correlation_id none
          (error_payload (code_name code)))).0

  -- The cached ACK, under the correlation id of the new frame if it has one.
  abbrev pub replay_of : PulseEventEnvelope → PulseEventEnvelope → PulseEventEnvelope
  replay_of e cached = record cached {
    correlation_id = if present e.correlation_id then e.correlation_id else cached.correlation_id;
  }

  unfoldable pub handle_event : Env → Node → String → PulseEventEnvelope → EventType → Progress
  unfolding handle_room_join handle_room_batch_join handle_room_leave handle_room_message
      handle_direct_message handle_ping handle_pong
  handle_event env n sender_id e EventType.room_join = handle_room_join ws env n sender_id e
  handle_event env n sender_id e EventType.room_batch_join =
      handle_room_batch_join ws env n sender_id e
  handle_event env n sender_id e EventType.room_leave = handle_room_leave ws env n sender_id e
  handle_event env n sender_id e EventType.room_message =
      (handle_room_message ws hash env n sender_id e, none)
  handle_event env n sender_id e EventType.direct_message =
      (handle_direct_message ws hash env n sender_id e, none)
  handle_event env n sender_id e EventType.sys_ping = (handle_ping ws env n sender_id e, none)
  handle_event env n sender_id e EventType.sys_pong = (handle_pong env n sender_id e, none)
  handle_event env n sender_id e _ = (n, none)

  abbrev out_of_order : Option ℕ → ℕ → Bool
  out_of_order none last = false
  out_of_order (some seq) last = ltb seq last

  -- A new event: its sequence number is checked before it is handled.
  unfoldable pub handle_new : Env → Node → String → PulseEventEnvelope → Progress
  unfolding handle_event
  handle_new env n sender_id e =
      if out_of_order e.seq (n.store sender_id).last_seen_seq
      then (
        (send_to ws (count_metric n (Metric.dropped "invalid_format")) sender_id (
            system_envelope env EventType.sys_error (correlation_of e) none
              (error_payload "INVALID_SEQUENCE_ORDER"))).0,
        none,
      )
      else handle_event env n sender_id e e.type

  unfoldable pub handle_checked :
      Env → Node → String → PulseEventEnvelope → IdempotencyCheckResult → Progress
  unfolding handle_new
  handle_checked env n sender_id e not_duplicate = handle_new env n sender_id e
  handle_checked env n sender_id e conflict = (
    (send_to ws (count_metric n (Metric.dropped "duplicate")) sender_id (
        system_envelope env EventType.sys_error (correlation_of e) none
          (error_payload "EVENT_ID_CONFLICT"))).0,
    none,
  )
  handle_checked env n sender_id e (duplicate cached) = (
    count_metric
        (send_to ws (count_metric n (Metric.dropped "duplicate")) sender_id (replay_of e cached)).0
        (Metric.acknowledged "success"),
    none,
  )

  -- Duplicates are looked for before the sequence number is.
  unfoldable pub handle_valid : Env → Node → String → PulseEventEnvelope → Progress
  unfolding handle_checked
  handle_valid env n sender_id e =
      let received = count_metric n (Metric.received e.type) in
      let (manager, result) =
        IdempotencyManager.check hash n.idempotency_manager e.event_id e.payload env.now in
      if is_message e.type
      then handle_checked env (record received { idempotency_manager = manager }) sender_id e result
      else handle_new env received sender_id e

  handle_validation : Env → Node → String → ValidationResult → Progress
  unfolding handle_valid reject_frame
  handle_validation env n sender_id (valid e) = handle_valid env n sender_id e
  handle_validation env n sender_id (invalid code correlation_id) =
      (reject_frame env n sender_id code correlation_id, none)

  unfoldable pub dispatch_raw_message : Env → Node → String → Option Json → Progress
  unfolding handle_validation limit_rate
  dispatch_raw_message env n sender_id frame =
      let (sender, allowed) = consume_rate_limit (touch (n.store sender_id) env.now) env.now in
      let touched = put_connection n sender_id sender in
      if allowed
      then handle_validation env touched sender_id
          (validate_incoming frame sender.user_id env.fresh_id env.now)
      else (limit_rate env touched sender_id, none)
