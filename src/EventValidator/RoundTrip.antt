-- ===== src/EventValidator/RoundTrip.antt =====
-- An envelope that the validator let through passes again as it was printed.
use pulse_distributed_real_t.Json.{
  num, str, obj, Fields, Number, whole, get_field, as_text, is_integer, is_below_one, to_ℕ,
}
use pulse_distributed_real_t.Envelope.{EventType, EventTarget, PulseEventEnvelope}
use pulse_distributed_real_t.EventValidator.Checks.{ok}
use pulse_distributed_real_t.EventValidator.{
  valid, validate_incoming, check_object, check_type, type_in, check_seq, check_origin,
  check_origin_time, event_id_of, timestamp_of, payload_of, target_of, sequence_of, origin_of,
  origin_time_of, target_in, is_true,
}
use pulse_distributed_real_t.EventValidator.WellFormed.{
  IsWellFormed, IsNumbered, IsOrigin, IsOriginTime, retrim,
}
use pulse_distributed_real_t.EventValidator.Encoding.{
  encode, IsEncoded, encode-IsEncoded, encode_target, type_name, as_json, get_field-put,
  or_else-none,
}
use mathlib.Core.Option
use pulse_distributed_real_t.Prelude.{ℕ, String, none, some, ◌≡◌, refl, arith, Option}
use mathlib.Core.Option.{Option}

as_text-as_json : (o : Option String) → as_text (as_json o) ≡ o
as_text-as_json none = refl
as_text-as_json (some s) = refl

target_in-encode_target : (t : Option EventTarget) → target_in (encode_target t) ≡ retrim t
unfolding get_field
target_in-encode_target none = refl
target_in-encode_target (some t) = simp (get_field-put, or_else-none, as_text-as_json)

sequence_of-whole :
    (s : Option ℕ) → IsNumbered s → sequence_of (Option.map (λ n. num (whole n)) s) ≡ ok s
unfolding is_integer is_below_one to_ℕ
sequence_of-whole none h = refl
sequence_of-whole (some n) h = ground arith

origin_of-text : (o : Option String) → IsOrigin o → origin_of (as_json o) ≡ ok o
origin_of-text none h = refl
origin_of-text (some s) h = ground (arith, h)

origin_time_of-num : (t : Option Number) → IsOriginTime t → origin_time_of (Option.map num t) ≡ ok t
origin_time_of-num none h = refl
origin_time_of-num (some n) h = ground (arith, h)

type_in-type_name : (t : EventType) → type_in (some (str (type_name t))) ≡ ok t
unfolding type_in type_name
type_in-type_name EventType.sys_connect_ack = refl
type_in-type_name EventType.sys_ping = refl
type_in-type_name t = refl

module _ (e : PulseEventEnvelope) (o : Fields) (c : IsEncoded e o) (w : IsWellFormed e) where
  check_type-encoded : check_type o ≡ ok e.type
  unfolding check_type
  check_type-encoded = rw c.type (type_in-type_name e.type)

  check_seq-encoded : check_seq o ≡ ok e.seq
  unfolding check_seq
  check_seq-encoded = rw c.seq (sequence_of-whole e.seq w.numbered)

  payload_of-encoded : payload_of o ≡ e.payload
  unfolding payload_of
  payload_of-encoded = rw c.payload

  target_of-encoded : target_of o (payload_of o) ≡ e.target
  unfolding target_of
  target_of-encoded = rw (payload_of-encoded, c.target, target_in-encode_target e.target) w.targeted

  check_origin-encoded : check_origin o ≡ ok e.origin_instance_id
  unfolding check_origin
  check_origin-encoded = rw c.origin (origin_of-text e.origin_instance_id w.originated)

  check_origin_time-encoded : check_origin_time o ≡ ok e.origin_timestamp_ms
  unfolding check_origin_time
  check_origin_time-encoded =
      rw c.origin_time (origin_time_of-num e.origin_timestamp_ms w.origin_timed)

  event_id_of-encoded : (fresh : String) → event_id_of o fresh ≡ e.event_id
  unfolding event_id_of
  event_id_of-encoded fresh = rw (c.event_id, event_id_of, w.identified)

  timestamp_of-encoded : (now : ℕ) → timestamp_of o now ≡ e.timestamp
  unfolding timestamp_of
  timestamp_of-encoded now = rw (c.timestamp, w.dated)

  correlation_id-encoded : as_text (get_field "correlationId" o) ≡ e.correlation_id
  correlation_id-encoded = rw c.correlation_id (as_text-as_json e.correlation_id)

  ack_required-encoded : is_true (get_field "ackRequired" o) ≡ e.ack_required
  ack_required-encoded = rw c.ack_required

  pub check_object-encoded :
      (fresh : String) (now : ℕ) → check_object o e.sender_id fresh now ≡ ok e
  unfolding check_object
  check_object-encoded fresh now = rw (
    check_type-encoded,
    check_seq-encoded,
    target_of-encoded,
    payload_of-encoded,
    w.required,
    check_origin-encoded,
    check_origin_time-encoded,
    event_id_of-encoded fresh,
    timestamp_of-encoded now,
    correlation_id-encoded,
    ack_required-encoded,
  )

-- A well-formed envelope written as an object and validated again for the same sender passes
-- unchanged, whatever the fresh id and the clock are.
pub validate_incoming-encode :
    (e : PulseEventEnvelope) (fresh : String) (now : ℕ)
    → IsWellFormed e
    → validate_incoming (some (obj (encode e))) e.sender_id fresh now ≡ valid e
unfolding validate_incoming
validate_incoming-encode e fresh now w =
    rw (check_object-encoded e (encode e) (encode-IsEncoded e) w fresh now)
