-- ===== src/PulseClientSession/Moves.antt =====
-- src/client/PulseClientSession.ts: the moves by which a handler changes the entries and
-- the queue, and the handlers as such moves.
use text.Mathlib.TextEquality.{eq_iff}
use pulse_distributed_real_t.Prelude.{
  ℕ, String, [], ◌∷◌, none, some, Bool, true, if◌then◌else◌, ◌<◌, ◌≡◌, ◌+◌, not, arith, if-holds,
  leb, ltb, refl, ◌==◌, sym, subst, =ₛ_refl, ◌&&◌, suc, Option, truthy, ◌≤◌,
}
use pulse_distributed_real_t.JsMap.{JsMap, get, delete, size, IsDistinct}
use pulse_distributed_real_t.Envelope.{PulseEventEnvelope}
use pulse_distributed_real_t.PulseClientSession.{
  PulseClientSession, InFlightEntry, Settlement, put_entry, close_entry, transmit_frame,
  send_envelope, on_ack, on_ack_timeout, numbered, next_seq, id_or, is_ready, SendResult, ack_entry,
  ClientSessionState, SessionOptions, enqueue, with_entry,
}
use pulse_distributed_real_t.PulseClientSession.Lifecycle.{
  is_settled, flush_entries, flush_retry_queue, resume,
}
use pulse_distributed_real_t.PulseClientSession.Entries.{IsTimed, IsValid, settled_in}
use pulse_distributed_real_t.PulseClientSession.Requests.{all_rejected}

-- A property of the options, the entries, their number, the queue, and of whether the application
-- closed the session and a reconnection is scheduled.
abbrev pub Property : Type 1
Property = SessionOptions → (ℕ → InFlightEntry) → ℕ → JsMap ℕ → Bool → Option ℕ → Type 0

abbrev pub Holding : Property → PulseClientSession → Type 0
Holding Q s =
    Q s.options s.entries s.next_entry s.in_flight_queue s.is_explicitly_closed s.reconnect_timer

-- An entry stays as it is but for its envelope and retries, settles, is made, or all are rejected.
pub record IsKept (Q : Property) : Type 0 where
  pub valid : (s : PulseClientSession) → Holding Q s → IsValid s
  pub retried :
      (s : PulseClientSession) (i : ℕ) (e : InFlightEntry)
      → Holding Q s
      → IsTimed s.options e
      → e.settlement ≡ (s.entries i).settlement
      → e.correlation_id ≡ (s.entries i).correlation_id
      → (s.entries i).retries ≤ e.retries
      → Holding Q (put_entry s i e)
  pub settled :
      (s : PulseClientSession) (i : ℕ) (outcome : Settlement)
      → Holding Q s
      → i < s.next_entry
      → is_settled outcome ≡ true
      → Holding Q (settled_in s i outcome)
  pub made :
      (s : PulseClientSession) (id : String) (e : PulseEventEnvelope)
      → Holding Q s
      → size s.in_flight_queue < s.options.queue_capacity
      → Holding Q (with_entry s id e)
  pub rejected : (s : PulseClientSession) → Holding Q s → Holding Q (all_rejected s)

module _ (Q : Property) (laws : IsKept Q) where
  abbrev pub Holds : PulseClientSession → Type 0
  Holds s = Holding Q s

  abbrev HoldsFirst : PulseClientSession × SendResult → Type 0
  HoldsFirst r = Holds r.0

  pub transmit_frame-keeps :
      (s : PulseClientSession) (e : PulseEventEnvelope) → Holds s → Holds (transmit_frame s e)
  unfolding transmit_frame
  transmit_frame-keeps s e v = if-holds Holds (is_ready s.socket) _ _ (λ _. v) (λ _. v)

  pub send_envelope-keeps :
      (s : PulseClientSession) (e : PulseEventEnvelope) (fresh_id : String)
      → Holds s
      → Holds (send_envelope s e fresh_id).0
  unfolding send_envelope enqueue
  send_envelope-keeps s e fresh_id v =
      let t : PulseClientSession = record s { current_seq = next_seq s e.seq } in
      let n = numbered s e fresh_id in
      let dropped = transmit_frame-keeps t n v in
      if-holds HoldsFirst (leb s.options.queue_capacity (size s.in_flight_queue)) _ _ (λ _. v)
        (λ free.
          if-holds HoldsFirst (not n.ack_required) _ _ (λ _. dropped)
            (λ _.
              transmit_frame-keeps (with_entry t (id_or fresh_id e.correlation_id) n) n
                (laws.made t (id_or fresh_id e.correlation_id) n v (ground (arith, free)))))

  pub on_ack_timeout-keeps : (s : PulseClientSession) (i : ℕ) → Holds s → Holds (on_ack_timeout s i)
  unfolding on_ack_timeout transmit_frame is_settled
  on_ack_timeout-keeps s i v =
      let e = s.entries i in
      let again : InFlightEntry = record e { retries = suc e.retries } in
      if-holds Holds (not (e.is_armed && ltb i s.next_entry)) _ _ (λ _. v)
        (λ due.
          let made : i < s.next_entry = ground (arith, due) in
          if-holds Holds (ltb e.retries s.options.max_retries) _ _
            (λ more.
              let timed : IsTimed s.options again = record {
                armed = ((laws.valid s v).timed i made).armed;
                retried = ground (arith, more);
              } in
              let w = laws.retried s i again v timed refl refl (omega arith) in
              if-holds (λ t. Holds (put_entry t i again)) (is_ready s.socket) _ _ (λ _. w) (λ _. w))
            (λ _. laws.settled s i Settlement.delivery_timeout v made refl))

  ack_entry-keeps :
      (s : PulseClientSession) (ack : PulseEventEnvelope) (id : String) (found : Option ℕ)
      → Holds s
      → ((i : ℕ) → found ≡ some i → get id s.in_flight_queue ≡ some i)
      → Holds (ack_entry s ack id found)
  unfolding ack_entry is_settled
  ack_entry-keeps s ack id none v within = v
  ack_entry-keeps s ack id (some i) v within =
      let q = (laws.valid s v).queued id i (within i refl) in
      subst
        (λ k. Holds (
          put_entry (record s { in_flight_queue = delete k s.in_flight_queue }) i
            (close_entry (s.entries i) (Settlement.resolved ack))))
        q.is_named (laws.settled s i (Settlement.resolved ack) v q.is_made refl)

  pub on_ack-keeps :
      (s : PulseClientSession) (ack : PulseEventEnvelope) (id : Option String)
      → Holds s
      → Holds (on_ack s ack id)
  unfolding on_ack
  on_ack-keeps s ack none v = v
  on_ack-keeps s ack (some id) v =
      ack_entry-keeps s ack id (if truthy id then get id s.in_flight_queue else none) v
        (λ i h. ground (arith, h))

  flush_entries-keeps :
      (s : PulseClientSession) (rest : JsMap ℕ)
      → Holds s
      → IsDistinct rest
      → ((id : String) (i : ℕ) → get id rest ≡ some i → get id s.in_flight_queue ≡ some i)
      → Holds (flush_entries s rest)
  unfolding flush_entries get is_settled transmit_frame
  flush_entries-keeps s [] v d within = v
  flush_entries-keeps s ((id, i) ∷ rest) v d within =
      let q = (laws.valid s v).queued id i (within id i (ground (arith, =ₛ_refl id))) in
      let e : PulseEventEnvelope = record (s.entries i).envelope {
        seq = some (s.current_seq + 1);
      } in
      let u : PulseClientSession = record s { current_seq = s.current_seq + 1 } in
      let sent : InFlightEntry = record (s.entries i) {
        correlation_id = id;
        envelope = e;
        is_armed = true;
      } in
      let timed : IsTimed s.options sent = record {
        armed = ground (arith, q.is_pending);
        retried = ((laws.valid s v).timed i q.is_made).retried;
      } in
      let w = laws.retried u i sent v timed refl (sym q.is_named) (omega arith) in
      let t : PulseClientSession = transmit_frame (put_entry u i sent) e in
      flush_entries-keeps t rest (transmit_frame-keeps (put_entry u i sent) e w) d.1
        (λ j k h. ground (arith, within j k, eq_iff id j, d.0, h))

  pub resume-keeps : (s : PulseClientSession) → Holds s → Holds (resume s)
  unfolding resume flush_retry_queue
  resume-keeps s v =
      let t : PulseClientSession = record s { state = ClientSessionState.flush_retry_queue } in
      if-holds (λ u. Holds (record u { state = ClientSessionState.connected }))
        (size s.in_flight_queue == 0) _ _ (λ _. v)
        (λ _. flush_entries-keeps t s.in_flight_queue v (laws.valid s v).distinct (λ id i h. h))
