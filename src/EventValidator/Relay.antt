-- ===== src/EventValidator/Relay.antt =====
-- From one node to the next: a stamped envelope is published as JSON and validated on arrival.
use mathlib.Core.Option
use pulse_distributed_real_t.Json.{num, obj, Fields, end, field, Number, get_field, is_finite}
use pulse_distributed_real_t.Envelope.{EventTarget, PulseEventEnvelope}
use pulse_distributed_real_t.EventValidator.{valid, validate_incoming, false}
use pulse_distributed_real_t.EventValidator.Distributed.{
  validate_distributed, stamp_for_distribution, revive, revive_fields, revive_number,
}
use pulse_distributed_real_t.EventValidator.WellFormed.{IsWellFormed}
use pulse_distributed_real_t.EventValidator.Encoding.{
  encode, IsEncoded, encode-IsEncoded, encode_target, put, as_json,
}
use pulse_distributed_real_t.EventValidator.RoundTrip.{check_object-encoded}
use pulse_distributed_real_t.Prelude.{
  ℕ, String, none, some, ◌≡◌, refl, arith, true, truthy, trim, truthy-ne-nil, ◌=ₛ◌, false, ap,
  Option,
}
use mathlib.Core.Option.{Option}

get_field-revive_fields :
    (k : String) (fs : Fields) → get_field k (revive_fields fs) ≡ Option.map revive (get_field k fs)
unfolding get_field revive_fields
get_field-revive_fields k end = refl
get_field-revive_fields k (field j v fs) = ground (arith, get_field-revive_fields k fs)

map-revive-as_json : (o : Option String) → Option.map revive (as_json o) ≡ as_json o
unfolding revive
map-revive-as_json none = refl
map-revive-as_json (some s) = refl

map-revive-encode_target :
    (t : Option EventTarget) → Option.map revive (encode_target t) ≡ encode_target t
unfolding revive put
map-revive-encode_target none = refl
map-revive-encode_target (some t) = ids t.room_id t.recipient_id
  where
    ids :
        (room recipient : Option String)
        → some
            (revive (obj (put "roomId" (as_json room) (put "recipientId" (as_json recipient) end))))
          ≡ some (obj (put "roomId" (as_json room) (put "recipientId" (as_json recipient) end)))
    ids none none = refl
    ids (some r) none = refl
    ids none (some u) = refl
    ids (some r) (some u) = refl

-- Printing loses nothing of the envelope's numbers.
pub record IsPrintable (e : PulseEventEnvelope) : Type 0 where
  pub payload : revive_fields e.payload ≡ e.payload
  pub timestamp : revive_number e.timestamp ≡ num e.timestamp

module _ (e : PulseEventEnvelope) (instance_id : String) (time : Number) (p : IsPrintable e)
    (printable : revive_number time ≡ num time) where
  abbrev stamped : PulseEventEnvelope
  unfolding stamp_for_distribution
  stamped = stamp_for_distribution e instance_id time

  revived-IsEncoded : IsEncoded stamped (revive_fields (encode stamped))
  unfolding stamp_for_distribution revive
  revived-IsEncoded =
      let c = encode-IsEncoded stamped in
      record {
        event_id = rw (get_field-revive_fields, c.event_id);
        type = rw (get_field-revive_fields, c.type);
        timestamp = rw (get_field-revive_fields, c.timestamp) (ap some p.timestamp);
        sender_id = rw (get_field-revive_fields, c.sender_id);
        seq = rw (get_field-revive_fields, c.seq);
        target = rw (get_field-revive_fields, c.target) (map-revive-encode_target e.target);
        payload = rw (get_field-revive_fields, c.payload) (ap (λ fs. some (obj fs)) p.payload);
        correlation_id =
            rw (get_field-revive_fields, c.correlation_id) (map-revive-as_json e.correlation_id);
        ack_required = rw (get_field-revive_fields, c.ack_required);
        origin = rw (get_field-revive_fields, c.origin);
        origin_time = rw (get_field-revive_fields, c.origin_time) (ap some printable);
      }

  stamped-IsWellFormed :
      IsWellFormed e
      → trim instance_id ≡ instance_id
      → (instance_id =ₛ "") ≡ false
      → is_finite time ≡ true
      → IsWellFormed stamped
  unfolding stamp_for_distribution
  stamped-IsWellFormed w t b f = record {
    identified = w.identified;
    dated = w.dated;
    numbered = tt;
    targeted = w.targeted;
    required = w.required;
    originated = (t, b);
    origin_timed = f;
  }

  -- A well-formed envelope with a sender, stamped for distribution by a node whose id is trimmed
  -- and not blank at a finite time and written as an object, passes the validation of another node
  -- as it was stamped, if JSON prints its payload and numbers faithfully.
  pub validate_distributed-encode :
      (fresh : String) (now : ℕ)
      → IsWellFormed e
      → truthy e.sender_id ≡ true
      → trim instance_id ≡ instance_id
      → truthy instance_id ≡ true
      → is_finite time ≡ true
      → validate_distributed (obj (encode (stamp_for_distribution e instance_id time))) fresh now
        ≡ valid (stamp_for_distribution e instance_id time)
  unfolding validate_distributed validate_incoming stamp_for_distribution
  validate_distributed-encode fresh now w s t b f =
      let c = encode-IsEncoded stamped in
      let checked =
        check_object-encoded stamped (revive_fields (encode stamped)) revived-IsEncoded
          (stamped-IsWellFormed w t (truthy-ne-nil instance_id b) f) fresh now in
      rw (c.origin, b, t, truthy-ne-nil instance_id b, c.sender_id, s, checked, c.origin_time, f, t)
