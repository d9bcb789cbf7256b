-- ===== src/Envelope.antt =====
-- types/index.ts: event types, targets and the event envelope.
use pulse_distributed_real_t.Prelude.{ℕ, String, Option, Bool}
use pulse_distributed_real_t.Json.{Number, Fields}

pub data EventType : Type 0 where
  sys_connect_ack sys_ping sys_pong sys_error sys_shutdown : EventType
  room_join room_join_ack room_leave room_leave_ack room_batch_join room_batch_join_ack : EventType
  room_message direct_message presence_update room_roster delivery_ack : EventType

pub record EventTarget : Type 0 where
  pub room_id : Option String
  pub recipient_id : Option String

pub record PulseEventEnvelope : Type 0 where
  pub event_id : String
  pub type : EventType
  pub timestamp : Number
  pub sender_id : String
  pub seq : Option ℕ
  pub target : Option EventTarget
  pub payload : Fields
  pub correlation_id : Option String
  pub ack_required : Bool
  pub origin_instance_id : Option String
  pub origin_timestamp_ms : Option Number
