-- ===== src/EventValidator.antt =====
-- src/events/EventValidator.ts. `JSON.parse` is the runtime's: its result is the argument, `none`
-- where it throws. A fresh event id and the clock are arguments. Error messages are left out.
pub mod Checks
pub mod Distributed
pub mod WellFormed
pub mod Encoding
pub mod RoundTrip
pub mod Relay
use pulse_distributed_real_t.Prelude.{
  ℕ, zero, suc, String, List, [], ◌∷◌, Option, none, some, Bool, true, false, not, ◌&&◌, ◌||◌, ◌==◌,
  ◌=ₛ◌, if◌then◌else◌, ltb, leb, truthy, trim, length,
}
use pulse_distributed_real_t.Json.{
  Json, null, bool, num, str, arr, obj, Items, nil, item, Fields, end, field, Number, whole,
  get_field, as_text, is_positive, is_integer, is_below_one, is_finite, to_ℕ, items,
  is_empty_object,
}
use pulse_distributed_real_t.Envelope
use pulse_distributed_real_t.Envelope.{EventType, EventTarget, PulseEventEnvelope}
use Checks.{
  Checked, ok, err, ◌>>=◌, ◌>>◌, guard, ErrorCode, malformed_json, invalid_envelope,
  missing_event_type, unrecognized_event_type, invalid_sequence_number, missing_room_id,
  invalid_rooms_array, batch_size_exceeded, invalid_room_id, empty_payload, missing_recipient_id,
  invalid_origin_instance_id, invalid_origin_timestamp,
}

pub data ValidationResult : Type 0 where
  valid : PulseEventEnvelope → ValidationResult
  invalid : ErrorCode → (correlation_id : Option String) → ValidationResult

abbrev pub max_batch_rooms : ℕ
max_batch_rooms = 50

-- VALID_EVENT_TYPES, with the constructor of each name.
unfoldable pub event_type_of : String → Option EventType
event_type_of s =
    if s =ₛ "SYS_CONNECT_ACK"
    then some EventType.sys_connect_ack
    else if s =ₛ "SYS_PING"
    then some EventType.sys_ping
    else if s =ₛ "SYS_PONG"
    then some EventType.sys_pong
    else if s =ₛ "SYS_ERROR"
    then some EventType.sys_error
    else if s =ₛ "SYS_SHUTDOWN"
    then some EventType.sys_shutdown
    else if s =ₛ "ROOM_JOIN"
    then some EventType.room_join
    else if s =ₛ "ROOM_JOIN_ACK"
    then some EventType.room_join_ack
    else if s =ₛ "ROOM_LEAVE"
    then some EventType.room_leave
    else if s =ₛ "ROOM_LEAVE_ACK"
    then some EventType.room_leave_ack
    else if s =ₛ "ROOM_BATCH_JOIN"
    then some EventType.room_batch_join
    else if s =ₛ "ROOM_BATCH_JOIN_ACK"
    then some EventType.room_batch_join_ack
    else if s =ₛ "ROOM_MESSAGE"
    then some EventType.room_message
    else if s =ₛ "DIRECT_MESSAGE"
    then some EventType.direct_message
    else if s =ₛ "PRESENCE_UPDATE"
    then some EventType.presence_update
    else if s =ₛ "ROOM_ROSTER"
    then some EventType.room_roster
    else if s =ₛ "DELIVERY_ACK"
    then some EventType.delivery_ack
    else none

abbrev pub or_err {ℓ} : {A : Type ℓ} → Option A → ErrorCode → Checked A
or_err none e = err e
or_err (some a) e = ok a

abbrev pub non_empty : Option String → Option String
non_empty none = none
non_empty (some s) = if truthy s then some s else none

unfoldable pub type_in : Option Json → Checked EventType
unfolding event_type_of
type_in j = do
  name ← or_err (non_empty (as_text j)) missing_event_type
  or_err (event_type_of name) unrecognized_event_type

unfoldable pub check_type : Fields → Checked EventType
check_type o = type_in (get_field "type" o)

unfoldable pub event_id_of : Fields → String → String
event_id_of o fresh = elim (non_empty (as_text (get_field "eventId" o))) [
  | none ↦ fresh
  | some id ↦ id
]

abbrev pub positive_or : Number → Option Json → Number
positive_or now (some (num t)) = if is_positive t then t else now
positive_or now _ = now

unfoldable pub timestamp_of : Fields → ℕ → Number
timestamp_of o now = positive_or (whole now) (get_field "timestamp" o)

abbrev pub sequence_of : Option Json → Checked (Option ℕ)
sequence_of none = ok none
sequence_of (some (num n)) =
    if is_integer n && not (is_below_one n) then ok (some (to_ℕ n)) else err invalid_sequence_number
sequence_of (some _) = err invalid_sequence_number

unfoldable pub check_seq : Fields → Checked (Option ℕ)
check_seq o = sequence_of (get_field "seq" o)

-- An object, or the empty object.
abbrev pub object_or_empty : Option Json → Fields
object_or_empty (some (obj fs)) = fs
object_or_empty _ = end

unfoldable pub payload_of : Fields → Fields
payload_of o = object_or_empty (get_field "payload" o)

abbrev pub trimmed : Option String → Option String
trimmed none = none
trimmed (some s) = some (trim s)

abbrev pub target_in : Option Json → Option EventTarget
target_in (some (obj t)) = some (record {
  room_id = trimmed (as_text (get_field "roomId" t));
  recipient_id = trimmed (as_text (get_field "recipientId" t));
})
target_in _ = none

abbrev pub room_of : Option EventTarget → Option String
room_of none = none
room_of (some t) = t.room_id

abbrev pub recipient_of : Option EventTarget → Option String
recipient_of none = none
recipient_of (some t) = t.recipient_id

-- A text that is there and not empty.
abbrev pub present : Option String → Bool
present none = false
present (some s) = truthy s

-- The ids in the payload serve where the target has none.
abbrev pub room_from : Option String → Option EventTarget → Option EventTarget
room_from none t = t
room_from (some s) t =
    if present (room_of t)
    then t
    else some (record { room_id = some (trim s); recipient_id = recipient_of t })

abbrev pub recipient_from : Option String → Option EventTarget → Option EventTarget
recipient_from none t = t
recipient_from (some s) t =
    if present (recipient_of t)
    then t
    else some (record { room_id = room_of t; recipient_id = some (trim s) })

unfoldable pub target_of : Fields → Fields → Option EventTarget
target_of o payload =
    recipient_from (as_text (get_field "recipientId" payload))
      (room_from (as_text (get_field "roomId" payload)) (target_in (get_field "target" o)))

-- Every entry is a text that is not blank.
unfoldable pub are_room_ids : List Json → Bool
are_room_ids [] = true
are_room_ids (str s ∷ vs) = truthy (trim s) && are_room_ids vs
are_room_ids (_ ∷ vs) = false

unfoldable pub check_rooms : Option Json → Checked (Unit {0})
unfolding are_room_ids items
check_rooms (some (arr vs)) = do
  guard (not (length (items vs) == 0)) invalid_rooms_array
  guard (leb (length (items vs)) max_batch_rooms) batch_size_exceeded
  guard (are_room_ids (items vs)) invalid_room_id
check_rooms _ = err invalid_rooms_array

unfoldable pub check_requirements : EventType → Option EventTarget → Fields → Checked (Unit {0})
unfolding check_rooms
check_requirements EventType.room_join target payload =
    guard (present (room_of target)) missing_room_id
check_requirements EventType.room_leave target payload =
    guard (present (room_of target)) missing_room_id
check_requirements EventType.room_batch_join target payload =
    check_rooms (get_field "rooms" payload)
check_requirements EventType.room_message target payload = do
  guard (present (room_of target)) missing_room_id
  guard (not (is_empty_object payload)) empty_payload
check_requirements EventType.direct_message target payload =
    guard (present (recipient_of target)) missing_recipient_id
check_requirements _ target payload = ok tt

abbrev pub origin_of : Option Json → Checked (Option String)
origin_of none = ok none
origin_of (some (str s)) =
    if trim s =ₛ "" then err invalid_origin_instance_id else ok (some (trim s))
origin_of (some _) = err invalid_origin_instance_id

unfoldable pub check_origin : Fields → Checked (Option String)
check_origin o = origin_of (get_field "originInstanceId" o)

abbrev pub origin_time_of : Option Json → Checked (Option Number)
origin_time_of none = ok none
origin_time_of (some (num n)) = if is_finite n then ok (some n) else err invalid_origin_timestamp
origin_time_of (some _) = err invalid_origin_timestamp

unfoldable pub check_origin_time : Fields → Checked (Option Number)
check_origin_time o = origin_time_of (get_field "originTimestampMs" o)

abbrev pub is_true : Option Json → Bool
is_true (some (bool b)) = b
is_true _ = false

abbrev pub assemble :
    Fields
    → String
    → String
    → ℕ
    → EventType
    → Option ℕ
    → Option String
    → Option Number
    → PulseEventEnvelope
assemble o sender_id fresh now type seq origin origin_time = record {
  event_id = event_id_of o fresh;
  type = type;
  timestamp = timestamp_of o now;
  sender_id = sender_id;
  seq = seq;
  target = target_of o (payload_of o);
  payload = payload_of o;
  correlation_id = as_text (get_field "correlationId" o);
  ack_required = is_true (get_field "ackRequired" o);
  origin_instance_id = origin;
  origin_timestamp_ms = origin_time;
}

-- The checks on an object, in the order of the source.
unfoldable pub check_object : Fields → String → String → ℕ → Checked PulseEventEnvelope
unfolding check_type check_seq check_requirements check_origin check_origin_time event_id_of
    timestamp_of payload_of target_of
check_object o sender_id fresh now = do
  type ← check_type o
  seq ← check_seq o
  check_requirements type (target_of o (payload_of o)) (payload_of o)
  origin ← check_origin o
  origin_time ← check_origin_time o
  ok (assemble o sender_id fresh now type seq origin origin_time)

abbrev pub result_of : Option String → Checked PulseEventEnvelope → ValidationResult
result_of correlation_id (ok e) = valid e
result_of correlation_id (err code) = invalid code correlation_id

unfoldable pub validate_incoming : Option Json → String → String → ℕ → ValidationResult
unfolding check_object
validate_incoming none sender_id fresh now = invalid malformed_json none
validate_incoming (some (obj o)) sender_id fresh now =
    result_of (as_text (get_field "correlationId" o)) (check_object o sender_id fresh now)
validate_incoming (some _) sender_id fresh now = invalid invalid_envelope none
