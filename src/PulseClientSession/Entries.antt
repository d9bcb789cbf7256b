-- ===== src/PulseClientSession/Entries.antt =====
-- src/client/PulseClientSession.ts: the invariant of a session's entries and its queue.
use text.Mathlib.TextEquality.{eq_iff}
use pulse_distributed_real_t.Prelude.{
  [], ◌∷◌, ℕ, String, some, true, false, ◌≤◌, ◌<◌, ◌≡◌, not, arith, if-holds, refl, ◌==◌,
  Bool-cases, ◌=ₛ◌, inl, inr, =ₛ_refl,
}
use pulse_distributed_real_t.JsMap.{JsMap, get, delete, size, IsDistinct}
use pulse_distributed_real_t.JsMap.Laws.{
  get-set, get-delete, set-IsDistinct, delete-IsDistinct, length-set, length-delete,
}
use pulse_distributed_real_t.Envelope.{PulseEventEnvelope}
use pulse_distributed_real_t.PulseClientSession.{
  PulseClientSession, InFlightEntry, SessionOptions, Settlement, put_entry, close_entry, with_entry,
  settle,
}
use pulse_distributed_real_t.PulseClientSession.Requests.{reject_all, all_rejected}
use pulse_distributed_real_t.PulseClientSession.Lifecycle.{is_settled}

-- The timer runs exactly while the promise is pending, and the retries are within the bound.
pub record IsTimed (options : SessionOptions) (e : InFlightEntry) : Type 0 where
  pub armed : e.is_armed ≡ not (is_settled e.settlement)
  pub retried : e.retries ≤ options.max_retries

-- What the queue holds under an id is a pending entry of that id.
pub record IsQueued (entries : ℕ → InFlightEntry) (next : ℕ) (id : String) (i : ℕ) : Type 0 where
  pub is_made : i < next
  pub is_pending : (entries i).settlement ≡ Settlement.pending
  pub is_named : (entries i).correlation_id ≡ id

pub record AreValid (options : SessionOptions) (entries : ℕ → InFlightEntry) (next : ℕ)
    (queue : JsMap ℕ) : Type 0 where
  pub timed : (i : ℕ) → i < next → IsTimed options (entries i)
  pub distinct : IsDistinct queue
  pub bounded : size queue ≤ options.queue_capacity
  pub queued : (id : String) (i : ℕ) → get id queue ≡ some i → IsQueued entries next id i

abbrev pub IsValid : PulseClientSession → Type 0
IsValid s = AreValid s.options s.entries s.next_entry s.in_flight_queue

put-IsTimed :
    (s : PulseClientSession) (i : ℕ) (e : InFlightEntry)
    → ((j : ℕ) → j < s.next_entry → IsTimed s.options (s.entries j))
    → IsTimed s.options e
    → (j : ℕ) → j < s.next_entry
    → IsTimed s.options ((put_entry s i e).entries j)
put-IsTimed s i e v t j h = if-holds (IsTimed s.options) (i == j) _ _ (λ _. t) (λ _. v j h)

-- An entry that stays pending under its id.
pub put-IsValid :
    (s : PulseClientSession) (i : ℕ) (e : InFlightEntry)
    → IsValid s
    → IsTimed s.options e
    → e.settlement ≡ (s.entries i).settlement
    → e.correlation_id ≡ (s.entries i).correlation_id
    → IsValid (put_entry s i e)
put-IsValid s i e v t same named = record {
  timed = put-IsTimed s i e v.timed t;
  distinct = v.distinct;
  bounded = v.bounded;
  queued = λ id j h.
      let q = v.queued id j h in
      record {
        is_made = q.is_made;
        is_pending = ground (arith, same, q.is_pending);
        is_named = ground (arith, named, q.is_named);
      };
}

pub settle-is_settled :
    (was outcome : Settlement) → is_settled outcome ≡ true → is_settled (settle was outcome) ≡ true
unfolding settle is_settled
settle-is_settled Settlement.pending outcome h = h
settle-is_settled (Settlement.resolved e) outcome h = refl
settle-is_settled Settlement.delivery_timeout outcome h = refl
settle-is_settled Settlement.session_closed outcome h = refl

close-IsTimed :
    (options : SessionOptions) (e : InFlightEntry) (outcome : Settlement)
    → IsTimed options e
    → is_settled outcome ≡ true
    → IsTimed options (close_entry e outcome)
unfolding close_entry
close-IsTimed options e outcome t h = record {
  armed = ground (arith, settle-is_settled e.settlement outcome h);
  retried = t.retried;
}

abbrev pub settled_in : PulseClientSession → ℕ → Settlement → PulseClientSession
settled_in s i outcome =
    let id = (s.entries i).correlation_id in
    put_entry (record s { in_flight_queue = delete id s.in_flight_queue }) i
      (close_entry (s.entries i) outcome)

-- An entry that leaves the queue under its id and settles.
pub settle-IsValid :
    (s : PulseClientSession) (i : ℕ) (outcome : Settlement)
    → IsValid s
    → i < s.next_entry
    → is_settled outcome ≡ true
    → IsValid (settled_in s i outcome)
settle-IsValid s i outcome v made h =
    let id = (s.entries i).correlation_id in
    record {
      timed =
          put-IsTimed s i (close_entry (s.entries i) outcome) v.timed
            (close-IsTimed s.options (s.entries i) outcome (v.timed i made) h);
      distinct = delete-IsDistinct id s.in_flight_queue v.distinct;
      bounded = ground (arith, length-delete id s.in_flight_queue v.distinct, v.bounded);
      queued = λ j k g.
          let kept : (get j s.in_flight_queue ≡ some k) × ((id =ₛ j) ≡ false) =
            ground (arith, g, get-delete j id s.in_flight_queue) in
          let q = v.queued j k kept.0 in
          let apart : (i == k) ≡ false = ground (arith, kept.1, q.is_named, eq_iff id j) in
          record {
            is_made = q.is_made;
            is_pending = ground (arith, apart, q.is_pending);
            is_named = ground (arith, apart, q.is_named);
          };
    }

-- A new entry: those that were made before are below its number.
pub with_entry-IsValid :
    (s : PulseClientSession) (id : String) (e : PulseEventEnvelope)
    → IsValid s
    → size s.in_flight_queue < s.options.queue_capacity
    → IsValid (with_entry s id e)
unfolding is_settled
with_entry-IsValid s id e v free =
    let i = s.next_entry in
    record {
      timed = λ j h.
          if-holds (IsTimed s.options) (i == j) _ _
            (λ _. record { armed = refl; retried = omega arith })
            (λ ne. v.timed j (ground (arith, h, ne)));
      distinct = set-IsDistinct id i s.in_flight_queue v.distinct;
      bounded = ground (arith, length-set id i s.in_flight_queue, free);
      queued = λ j k g. elim (Bool-cases (id =ₛ j)) [
        | inl same ↦
            let named = (eq_iff id j).0 same in
            let own : i ≡ k = ground (arith, get-set j id i s.in_flight_queue, g, same) in
            record {
              is_made = ground (arith, own);
              is_pending = ground (arith, own);
              is_named = ground (arith, own, named);
            }
        | inr apart ↦
            let q = v.queued j k (ground (arith, get-set j id i s.in_flight_queue, g, apart)) in
            record {
              is_made = ground (arith, q.is_made);
              is_pending = ground (arith, q.is_made, q.is_pending);
              is_named = ground (arith, q.is_made, q.is_named);
            }
      ];
    }

reject_all-IsTimed :
    (s : PulseClientSession) (rest : JsMap ℕ)
    → ((j : ℕ) → j < s.next_entry → IsTimed s.options (s.entries j))
    → ((id : String) (i : ℕ) → get id rest ≡ some i → i < s.next_entry)
    → IsDistinct rest
    → let u = reject_all s rest in (j : ℕ) → j < u.next_entry → IsTimed u.options (u.entries j)
unfolding reject_all get is_settled
reject_all-IsTimed s [] timed within d = timed
reject_all-IsTimed s ((id, i) ∷ rest) timed within d =
    let made = within id i (ground (arith, =ₛ_refl id)) in
    let e : InFlightEntry = close_entry (s.entries i) Settlement.session_closed in
    reject_all-IsTimed (put_entry s i e) rest
      (put-IsTimed s i e timed
        (close-IsTimed s.options (s.entries i) Settlement.session_closed (timed i made) refl))
      (λ j k h. ground (arith, within j k, eq_iff id j, d.0, h)) d.1

pub all_rejected-IsValid : (s : PulseClientSession) → IsValid s → IsValid (all_rejected s)
unfolding get reject_all
all_rejected-IsValid s v = record {
  timed =
      reject_all-IsTimed s s.in_flight_queue v.timed (λ id i h. (v.queued id i h).is_made)
        v.distinct;
  distinct = tt;
  bounded = ground arith;
  queued = λ id i h. absurd (ground (arith, h));
}
