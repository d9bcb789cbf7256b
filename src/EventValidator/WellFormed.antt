-- ===== src/EventValidator/WellFormed.antt =====
-- What the validator guarantees of an envelope that it lets through.
use Prim.Native.Nat.{◌^◌}
use native.Mathlib.Nat.{one-le-pow}
use pulse_distributed_real_t.Json.{
  Json, num, str, obj, Fields, Number, finite, infinite, nan, whole, get_field, as_text,
  is_positive, is_integer, is_below_one, is_finite, to_ℕ,
}
use pulse_distributed_real_t.Envelope.{EventType, EventTarget, PulseEventEnvelope}
use pulse_distributed_real_t.EventValidator.Checks.{Checked, ok, err, ◌>>=◌}
use pulse_distributed_real_t.EventValidator.{
  check_object, check_type, check_seq, check_requirements, check_origin, check_origin_time,
  event_id_of, timestamp_of, payload_of, target_of, sequence_of, origin_of, origin_time_of,
  positive_or, trimmed, target_in, room_from, recipient_from, non_empty, assemble,
}
use pulse_distributed_real_t.Prelude.{
  ℕ, ◌≤◌, ◌<◌, String, Option, none, some, true, false, truthy, trim, ◌=ₛ◌, ◌≡◌, refl, arith,
  Bool-cases, inl, inr, trim_idem, ap, subst,
}

abbrev pub retrim : Option EventTarget → Option EventTarget
retrim none = none
retrim (some t) =
    some (record { room_id = trimmed t.room_id; recipient_id = trimmed t.recipient_id })

-- The target that the validator reads from a target and a payload.
abbrev pub resolve : Fields → Option EventTarget → Option EventTarget
resolve payload t =
    recipient_from (as_text (get_field "recipientId" payload))
      (room_from (as_text (get_field "roomId" payload)) (retrim t))

abbrev pub IsNumbered : Option ℕ → Type 0
IsNumbered none = Unit {0}
IsNumbered (some n) = 1 ≤ n

abbrev pub IsOrigin : Option String → Type 0
IsOrigin none = Unit {0}
IsOrigin (some s) = (trim s ≡ s) × ((s =ₛ "") ≡ false)

abbrev pub IsOriginTime : Option Number → Type 0
IsOriginTime none = Unit {0}
IsOriginTime (some n) = is_finite n ≡ true

-- The id is not empty, the timestamp and the sequence number are positive, the ids in the target
-- are trimmed and those of the payload were used where it had none, the type has what it requires,
-- and the origin is trimmed and not blank.
pub record IsWellFormed (e : PulseEventEnvelope) : Type 0 where
  pub identified : truthy e.event_id ≡ true
  pub dated : is_positive e.timestamp ≡ true
  pub numbered : IsNumbered e.seq
  pub targeted : resolve e.payload e.target ≡ e.target
  pub required : check_requirements e.type e.target e.payload ≡ ok tt
  pub originated : IsOrigin e.origin_instance_id
  pub origin_timed : IsOriginTime e.origin_timestamp_ms

event_id_of-truthy :
    (o : Fields) (fresh : String) → truthy fresh ≡ true → truthy (event_id_of o fresh) ≡ true
unfolding event_id_of
event_id_of-truthy o fresh h = id_truthy (as_text (get_field "eventId" o))
  where
    id_truthy :
        (t : Option String) → truthy (elim (non_empty t) [ none ↦ fresh | some id ↦ id ]) ≡ true
    id_truthy none = h
    id_truthy (some s) = ground arith

positive_or-positive :
    (now : Number) (j : Option Json)
    → is_positive now ≡ true
    → is_positive (positive_or now j) ≡ true
positive_or-positive now (some (num t)) h = ground arith
positive_or-positive now none h = h
positive_or-positive now (some j) h = ground arith

pow-pos : (s : ℕ) → 0 < 2 ^ s
pow-pos s = one-le-pow s 2 (omega arith)

to_ℕ-pos : (n : Number) → is_integer n ≡ true → is_below_one n ≡ false → 1 ≤ to_ℕ n
unfolding is_integer is_below_one to_ℕ
to_ℕ-pos (finite negative m s) h k = ground (arith, pow-pos s)
to_ℕ-pos (infinite negative) h k = cc
to_ℕ-pos nan h k = cc

-- A property of the result, if there is one.
abbrev Ensures {ℓ κ} : {A : Type ℓ} → (A → Type κ) → Checked A → Type κ
Ensures P (ok a) = P a
Ensures P (err e) = Unit

Ensures-ok {ℓ κ} :
    {A : Type ℓ} (P : A → Type κ) (m : Checked A) (a : A) → Ensures P m → m ≡ ok a → P a
Ensures-ok P m a h e = rw e at h

sequence_of-IsNumbered : (j : Option Json) → Ensures IsNumbered (sequence_of j)
sequence_of-IsNumbered (some (num n)) = elim (Bool-cases (is_integer n)) [
  | inl whole ↦ elim (Bool-cases (is_below_one n)) [
    | inl small ↦ rw (whole, small) tt
    | inr large ↦ rw (whole, large) (to_ℕ-pos n whole large)
  ]
  | inr part ↦ rw part tt
]
sequence_of-IsNumbered none = tt
sequence_of-IsNumbered (some j) = tt

origin_of-IsOrigin : (j : Option Json) → Ensures IsOrigin (origin_of j)
origin_of-IsOrigin (some (str s)) = elim (Bool-cases (trim s =ₛ "")) [
  | inl blank ↦ rw blank tt
  | inr ink ↦ rw ink (trim_idem s, ink)
]
origin_of-IsOrigin none = tt
origin_of-IsOrigin (some j) = tt

origin_time_of-IsOriginTime : (j : Option Json) → Ensures IsOriginTime (origin_time_of j)
origin_time_of-IsOriginTime (some (num n)) = elim (Bool-cases (is_finite n)) [
  | inl good ↦ rw good good
  | inr bad ↦ rw bad tt
]
origin_time_of-IsOriginTime none = tt
origin_time_of-IsOriginTime (some j) = tt

trimmed_idem : (o : Option String) → trimmed (trimmed o) ≡ trimmed o
trimmed_idem none = refl
trimmed_idem (some s) = ap some (trim_idem s)

retrim-target_in : (j : Option Json) → retrim (target_in j) ≡ target_in j
retrim-target_in (some (obj t)) = ground (
  arith,
  trimmed_idem (as_text (get_field "roomId" t)),
  trimmed_idem (as_text (get_field "recipientId" t)),
)
retrim-target_in none = refl
retrim-target_in (some j) = refl

-- Reading the ids a second time changes nothing.
resolve_again :
    (s r : Option String) (t : Option EventTarget)
    → retrim t ≡ t
    → let u = recipient_from r (room_from s t) in recipient_from r (room_from s (retrim u)) ≡ u
resolve_again none none t h = h
resolve_again (some x) none none h = ground (arith, trim_idem x)
resolve_again (some x) none (some t) h = ground (arith, trim_idem x)
resolve_again none (some y) none h = ground (arith, trim_idem y)
resolve_again none (some y) (some t) h = ground (arith, trim_idem y)
resolve_again (some x) (some y) none h = ground (arith, trim_idem x, trim_idem y)
resolve_again (some x) (some y) (some t) h = ground (arith, trim_idem x, trim_idem y)

-- Where two checks in a row succeed, so did the first, and the second on its value.
both_passed {ℓ κ} :
    {Mid : Type ℓ} {End : Type κ} (first : Checked Mid) (second : Mid → Checked End) {end : End}
    → (first >>= second) ≡ ok end
    → (mid : Mid) × (first ≡ ok mid) × (second mid ≡ ok end)
both_passed (err code) second passed = cc passed
both_passed (ok mid) second passed = (mid, refl, passed)

-- What it takes to pass.
record Accepted (o : Fields) (sender_id fresh : String) (now : ℕ) (e : PulseEventEnvelope)
    : Type 0 where
  type : EventType
  typed : check_type o ≡ ok type
  seq : Option ℕ
  sequenced : check_seq o ≡ ok seq
  required : check_requirements type (target_of o (payload_of o)) (payload_of o) ≡ ok tt
  origin : Option String
  originated : check_origin o ≡ ok origin
  time : Option Number
  timed : check_origin_time o ≡ ok time
  built : assemble o sender_id fresh now type seq origin time ≡ e

ok_injective {ℓ} : {A : Type ℓ} (a b : A) → ok a ≡ ok b → a ≡ b
ok_injective a b h = cc

check_object-Accepted :
    (o : Fields) (sender_id fresh : String) (now : ℕ) (e : PulseEventEnvelope)
    → check_object o sender_id fresh now ≡ ok e
    → Accepted o sender_id fresh now e
unfolding check_object
check_object-Accepted o sender_id fresh now e h =
    let (type, typed, h1) = both_passed (check_type o) _ h in
    let (seq, sequenced, h2) = both_passed (check_seq o) _ h1 in
    let (_, required, h3) =
      both_passed (check_requirements type (target_of o (payload_of o)) (payload_of o)) _ h2 in
    let (origin, originated, h4) = both_passed (check_origin o) _ h3 in
    let (time, timed, h5) = both_passed (check_origin_time o) _ h4 in
    record {
      type = type;
      typed = typed;
      seq = seq;
      sequenced = sequenced;
      required = required;
      origin = origin;
      originated = originated;
      time = time;
      timed = timed;
      built = ok_injective _ _ h5;
    }

assemble-IsWellFormed :
    (o : Fields) (sender_id fresh : String) (now : ℕ) (e : PulseEventEnvelope)
    (a : Accepted o sender_id fresh now e)
    → truthy fresh ≡ true
    → 0 < now
    → IsWellFormed (assemble o sender_id fresh now a.type a.seq a.origin a.time)
unfolding check_seq check_origin check_origin_time timestamp_of is_positive target_of
assemble-IsWellFormed o sender_id fresh now e a f t = record {
  identified = event_id_of-truthy o fresh f;
  dated = positive_or-positive (whole now) (get_field "timestamp" o) (ground arith);
  numbered = Ensures-ok IsNumbered _ a.seq (sequence_of-IsNumbered (get_field "seq" o)) a.sequenced;
  targeted =
      resolve_again (as_text (get_field "roomId" (payload_of o)))
        (as_text (get_field "recipientId" (payload_of o))) (target_in (get_field "target" o))
        (retrim-target_in (get_field "target" o));
  required = a.required;
  originated =
      Ensures-ok IsOrigin _ a.origin (origin_of-IsOrigin (get_field "originInstanceId" o))
        a.originated;
  origin_timed =
      Ensures-ok IsOriginTime _ a.time
        (origin_time_of-IsOriginTime (get_field "originTimestampMs" o)) a.timed;
}

-- Whatever object comes in, an envelope that passes bears the sender that the server knows, and is
-- well formed, if the clock has started and the fresh id is not empty.
pub check_object-IsWellFormed :
    (o : Fields) (sender_id fresh : String) (now : ℕ) (e : PulseEventEnvelope)
    → truthy fresh ≡ true
    → 0 < now
    → check_object o sender_id fresh now ≡ ok e
    → IsWellFormed e × (e.sender_id ≡ sender_id)
check_object-IsWellFormed o sender_id fresh now e f t h =
    let a = check_object-Accepted o sender_id fresh now e h in
    subst (λ x. IsWellFormed x × (x.sender_id ≡ sender_id)) a.built
      (assemble-IsWellFormed o sender_id fresh now e a f t, refl)
