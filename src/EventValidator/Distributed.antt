-- ===== src/EventValidator/Distributed.antt =====
-- `validateDistributed` and `stampForDistribution` of src/events/EventValidator.ts. A sender id that
-- is no text counts as missing here.
use pulse_distributed_real_t.Json.{
  Json, null, bool, num, str, arr, obj, Items, nil, item, Fields, end, field, Number, finite,
  infinite, nan, is_finite, get_field, as_text,
}
use pulse_distributed_real_t.Envelope.{PulseEventEnvelope}
use pulse_distributed_real_t.EventValidator.Checks.{
  invalid_distributed_envelope, missing_origin_instance_id,
}
use pulse_distributed_real_t.EventValidator.{
  ValidationResult, valid, invalid, validate_incoming, non_empty,
}
use pulse_distributed_real_t.Prelude.{
  ℕ, String, Option, none, some, false, if◌then◌else◌, trim, ◌=ₛ◌, zero, suc,
}

-- What `JSON.stringify` and `JSON.parse` make of a number: no infinity, and no negative zero.
abbrev pub revive_number : Number → Json
revive_number (finite negative zero shift) = num (finite false 0 shift)
revive_number (finite negative (suc m) shift) = num (finite negative (suc m) shift)
revive_number (infinite negative) = null
revive_number nan = null

unfoldable mutual
  pub revive : Json → Json
  revive (num n) = revive_number n
  revive (arr xs) = arr (revive_items xs)
  revive (obj fs) = obj (revive_fields fs)
  revive null = null
  revive (bool b) = bool b
  revive (str s) = str s

  pub revive_items : Items → Items
  revive_items nil = nil
  revive_items (item v vs) = item (revive v) (revive_items vs)

  pub revive_fields : Fields → Fields
  revive_fields end = end
  revive_fields (field k v fs) = field k (revive v) (revive_fields fs)

abbrev pub text_or : String → Option String → String
text_or d none = d
text_or d (some s) = s

abbrev pub finite_or : Option Number → Option Json → Option Number
finite_or d (some (num n)) = if is_finite n then some n else d
finite_or d _ = d

abbrev pub as_distributed : Fields → String → ValidationResult → ValidationResult
as_distributed o origin (invalid code correlation_id) = invalid code correlation_id
as_distributed o origin (valid e) = valid (record e {
  origin_instance_id = some (trim origin);
  origin_timestamp_ms = finite_or e.origin_timestamp_ms (get_field "originTimestampMs" o);
  seq = none;
})

abbrev pub validate_from : Fields → String → ℕ → Option String → ValidationResult
validate_from o fresh now none =
    invalid missing_origin_instance_id (as_text (get_field "correlationId" o))
validate_from o fresh now (some origin) =
    if trim origin =ₛ ""
    then invalid missing_origin_instance_id (as_text (get_field "correlationId" o))
    else as_distributed o origin (
        validate_incoming (some (obj (revive_fields o)))
          (text_or "unknown" (non_empty (as_text (get_field "senderId" o)))) fresh now)

unfoldable pub validate_distributed : Json → String → ℕ → ValidationResult
validate_distributed (obj o) fresh now =
    validate_from o fresh now (non_empty (as_text (get_field "originInstanceId" o)))
validate_distributed _ fresh now = invalid invalid_distributed_envelope none

-- The origin is stamped on, and the connection's own sequence number taken off.
unfoldable pub stamp_for_distribution : PulseEventEnvelope → String → Number → PulseEventEnvelope
stamp_for_distribution e instance_id origin_timestamp_ms = record e {
  origin_instance_id = some instance_id;
  origin_timestamp_ms = some origin_timestamp_ms;
  seq = none;
}
