-- ===== src/EventValidator/Checks.antt =====
-- The error codes of the validator, and a check that succeeds or stops with one.
use pulse_distributed_real_t.Prelude.{Bool, true, false}

pub data ErrorCode : Type 0 where
  malformed_json invalid_envelope missing_event_type unrecognized_event_type : ErrorCode
  invalid_sequence_number missing_room_id invalid_rooms_array batch_size_exceeded : ErrorCode
  invalid_room_id empty_payload missing_recipient_id : ErrorCode
  invalid_origin_instance_id invalid_origin_timestamp : ErrorCode
  invalid_distributed_envelope missing_origin_instance_id : ErrorCode

pub data Checked {ℓ} (A : Type ℓ) : Type ℓ where
  ok : A → Checked A
  err : ErrorCode → Checked A

infixl 5 ◌>>=◌ ◌>>◌
abbrev pub ◌>>=◌ {ℓ κ} : {A : Type ℓ} {B : Type κ} → Checked A → (A → Checked B) → Checked B
err code >>= rest = err code
ok value >>= rest = rest value

abbrev pub ◌>>◌ {ℓ} : {A : Type ℓ} → Checked (Unit {0}) → Checked A → Checked A
check >> rest = check >>= λ _. rest

abbrev pub guard : Bool → ErrorCode → Checked (Unit {0})
guard true code = ok tt
guard false code = err code
