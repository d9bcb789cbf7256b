-- ===== src/Tests/Events.antt =====
-- The validator at concrete envelopes.
use pulse_distributed_real_t.Prelude.{◌≡◌, refl, arith, trim}
use pulse_distributed_real_t.Json.{
  Fields, field, end, str, obj, num, whole, get_field, is_positive, is_finite,
}
use pulse_distributed_real_t.EventValidator.{valid, check_requirements}
use pulse_distributed_real_t.EventValidator.WellFormed.{IsWellFormed}
use pulse_distributed_real_t.EventValidator.Encoding.{encode}
use pulse_distributed_real_t.EventValidator.Distributed.{
  validate_distributed, stamp_for_distribution, revive_fields,
}
use pulse_distributed_real_t.EventValidator.Relay.{IsPrintable, validate_distributed-encode}
use pulse_distributed_real_t.Tests.Data.{lobby_message, greeting}

pub lobby_message-IsWellFormed : IsWellFormed lobby_message
unfolding is_positive get_field trim check_requirements
lobby_message-IsWellFormed = record {
  identified = refl;
  dated = refl;
  numbered = omega arith;
  targeted = refl;
  required = refl;
  originated = tt;
  origin_timed = tt;
}

-- A frame of alice that names another sender.
abbrev forged_frame : Fields
forged_frame = field "eventId" (str "e1") (
    field "type" (str "ROOM_MESSAGE") (
      field "timestamp" (num (whole 5)) (
        field "senderId" (str "mallory") (
          field "seq" (num (whole 3)) (
            field "target" (obj (field "roomId" (str "lobby") end))
              (field "payload" (obj greeting) end))))))

pub lobby_message-IsPrintable : IsPrintable lobby_message
unfolding revive_fields
lobby_message-IsPrintable = record { payload = refl; timestamp = refl }

validate_distributed-encode_example :
    validate_distributed
      (obj (encode (stamp_for_distribution lobby_message "n1" (whole 50))))
      "f1"
      60
    ≡ valid (stamp_for_distribution lobby_message "n1" (whole 50))
unfolding trim is_finite
validate_distributed-encode_example =
    validate_distributed-encode lobby_message "n1" (whole 50) lobby_message-IsPrintable refl "f1" 60
      lobby_message-IsWellFormed refl refl refl refl
