-- ===== src/EventValidator/Encoding.antt =====
-- An envelope as the object that `JSON.stringify` prints: a property that is undefined is left out.
use pulse_distributed_real_t.Json.{Json, num, str, bool, obj, Fields, end, field, whole, get_field}
use pulse_distributed_real_t.Envelope.{EventType, EventTarget, PulseEventEnvelope}
use pulse_distributed_real_t.EventValidator.{event_type_of}
use pulse_distributed_real_t.Prelude.{
  Option, none, some, String, refl, ◌≡◌, arith, ◌=ₛ◌, if◌then◌else◌,
}
use mathlib.Core.Option

unfoldable pub type_name : EventType → String
type_name EventType.sys_connect_ack = "SYS_CONNECT_ACK"
type_name EventType.sys_ping = "SYS_PING"
type_name EventType.sys_pong = "SYS_PONG"
type_name EventType.sys_error = "SYS_ERROR"
type_name EventType.sys_shutdown = "SYS_SHUTDOWN"
type_name EventType.room_join = "ROOM_JOIN"
type_name EventType.room_join_ack = "ROOM_JOIN_ACK"
type_name EventType.room_leave = "ROOM_LEAVE"
type_name EventType.room_leave_ack = "ROOM_LEAVE_ACK"
type_name EventType.room_batch_join = "ROOM_BATCH_JOIN"
type_name EventType.room_batch_join_ack = "ROOM_BATCH_JOIN_ACK"
type_name EventType.room_message = "ROOM_MESSAGE"
type_name EventType.direct_message = "DIRECT_MESSAGE"
type_name EventType.presence_update = "PRESENCE_UPDATE"
type_name EventType.room_roster = "ROOM_ROSTER"
type_name EventType.delivery_ack = "DELIVERY_ACK"

pub event_type_of-type_name : (t : EventType) → event_type_of (type_name t) ≡ some t
unfolding event_type_of type_name
event_type_of-type_name EventType.sys_connect_ack = refl
event_type_of-type_name EventType.sys_ping = refl
event_type_of-type_name t = refl

-- A property that may be undefined.
unfoldable pub put : String → Option Json → Fields → Fields
put k none fs = fs
put k (some v) fs = field k v fs

abbrev pub or_else {ℓ} : {A : Type ℓ} → Option A → Option A → Option A
or_else none o = o
or_else (some a) o = some a

pub get_field-put :
    (j k : String) (o : Option Json) (fs : Fields)
    → get_field j (put k o fs) ≡ (if k =ₛ j then or_else o (get_field j fs) else get_field j fs)
unfolding get_field put
get_field-put j k none fs = ground arith
get_field-put j k (some v) fs = refl

abbrev pub as_json : Option String → Option Json
as_json none = none
as_json (some s) = some (str s)

abbrev pub encode_target : Option EventTarget → Option Json
encode_target none = none
encode_target (some t) =
    some (obj (put "roomId" (as_json t.room_id) (put "recipientId" (as_json t.recipient_id) end)))

unfoldable pub encode : PulseEventEnvelope → Fields
encode e = field "eventId" (str e.event_id) (
    field "type" (str (type_name e.type)) (
      field "timestamp" (num e.timestamp) (
        field "senderId" (str e.sender_id) (
          put "seq" (Option.map (λ n. num (whole n)) e.seq) (
            put "target" (encode_target e.target) (
              field "payload" (obj e.payload) (
                put "correlationId" (as_json e.correlation_id) (
                  field "ackRequired" (bool e.ack_required) (
                    put "originInstanceId" (as_json e.origin_instance_id)
                      (put "originTimestampMs" (Option.map num e.origin_timestamp_ms) end))))))))))

-- Each property is read back from the object.
pub record IsEncoded (e : PulseEventEnvelope) (o : Fields) : Type 0 where
  pub event_id : get_field "eventId" o ≡ some (str e.event_id)
  pub type : get_field "type" o ≡ some (str (type_name e.type))
  pub timestamp : get_field "timestamp" o ≡ some (num e.timestamp)
  pub sender_id : get_field "senderId" o ≡ some (str e.sender_id)
  pub seq : get_field "seq" o ≡ Option.map (λ n. num (whole n)) e.seq
  pub target : get_field "target" o ≡ encode_target e.target
  pub payload : get_field "payload" o ≡ some (obj e.payload)
  pub correlation_id : get_field "correlationId" o ≡ as_json e.correlation_id
  pub ack_required : get_field "ackRequired" o ≡ some (bool e.ack_required)
  pub origin : get_field "originInstanceId" o ≡ as_json e.origin_instance_id
  pub origin_time : get_field "originTimestampMs" o ≡ Option.map num e.origin_timestamp_ms

pub or_else-none : (o : Option Json) → or_else o none ≡ o
or_else-none none = refl
or_else-none (some v) = refl

ruleset reading = (get_field-put, or_else-none)

pub encode-IsEncoded : (e : PulseEventEnvelope) → IsEncoded e (encode e)
unfolding encode get_field
encode-IsEncoded e = record {
  event_id = refl;
  type = refl;
  timestamp = refl;
  sender_id = refl;
  seq = simp reading;
  target = simp reading;
  payload = simp reading;
  correlation_id = simp reading;
  ack_required = simp reading;
  origin = simp reading;
  origin_time = simp reading;
}
