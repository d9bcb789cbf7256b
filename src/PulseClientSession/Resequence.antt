-- ===== src/PulseClientSession/Resequence.antt =====
-- src/client/PulseClientSession.ts: what a flush sends and how it numbers it.
use pulse_distributed_real_t.Prelude.{
  ℕ, List, [], ◌∷◌, ◌++◌, some, Bool, true, false, if◌then◌else◌, ◌≡◌, ◌+◌, ◌==◌, arith, refl, ap,
  ◌∙◌, sym, subst, append_assoc, append-nil, if-holds, length, suc,
}
use pulse_distributed_real_t.JsMap.{JsMap, size}
use pulse_distributed_real_t.Envelope.{PulseEventEnvelope}
use pulse_distributed_real_t.PulseClientSession.{
  PulseClientSession, ClientSessionState, InFlightEntry, transmit_frame, put_entry, is_ready,
}
use pulse_distributed_real_t.PulseClientSession.Lifecycle.{flush_entries, flush_retry_queue}

abbrev with_seq : ℕ → PulseEventEnvelope → PulseEventEnvelope
with_seq n e = record e { seq = some n }

-- The queue's frames in its order, numbered from the number after `n`.
unfoldable pub resent : (ℕ → InFlightEntry) → ℕ → JsMap ℕ → List PulseEventEnvelope
resent entries n [] = []
resent entries n ((id, i) ∷ rest) =
    with_seq (n + 1) (entries i).envelope ∷ resent entries (n + 1) rest

-- The numbers that the frames had do not matter.
own_index : (i j : ℕ) → (i == j) ≡ true → i ≡ j
own_index i j h = ground (arith, h)

resent-cong :
    (f g : ℕ → InFlightEntry) (n : ℕ) (m : JsMap ℕ)
    → ((i : ℕ) → with_seq 0 (f i).envelope ≡ with_seq 0 (g i).envelope)
    → resent f n m ≡ resent g n m
unfolding resent
resent-cong f g n [] same = refl
resent-cong f g n ((id, i) ∷ rest) same =
    let head : with_seq (n + 1) (f i).envelope ≡ with_seq (n + 1) (g i).envelope =
      ap (with_seq (n + 1)) (same i) in
    let tail = resent-cong f g (n + 1) rest same in cc

abbrev with_transmitted : PulseClientSession → List PulseEventEnvelope → PulseClientSession
with_transmitted s frames = record s { transmitted = frames }

if-with_transmitted :
    (b : Bool) (s : PulseClientSession) (frames : List PulseEventEnvelope)
    → (if b then with_transmitted s frames else s)
      ≡ with_transmitted s (if b then frames else s.transmitted)
if-with_transmitted true s frames = refl
if-with_transmitted false s frames = refl

transmit_frame_lem :
    (s : PulseClientSession) (e : PulseEventEnvelope)
    → transmit_frame s e
      ≡ with_transmitted s (if is_ready s.socket then s.transmitted ++ (e ∷ []) else s.transmitted)
unfolding transmit_frame
transmit_frame_lem s e = if-with_transmitted (is_ready s.socket) s (s.transmitted ++ (e ∷ []))

if-append :
    (b : Bool) (xs : List PulseEventEnvelope) (e : PulseEventEnvelope)
    (ys : List PulseEventEnvelope)
    → (if b then (if b then xs ++ (e ∷ []) else xs) ++ ys else (if b then xs ++ (e ∷ []) else xs))
      ≡ (if b then xs ++ (e ∷ ys) else xs)
if-append true xs e ys = append_assoc xs (e ∷ []) ys
if-append false xs e ys = refl

abbrev Flushed : PulseClientSession → JsMap ℕ → List PulseEventEnvelope → Type 0
Flushed s m frames =
    let t = flush_entries s m in
    (t.current_seq ≡ s.current_seq + size m)
    × (t.transmitted ≡ (if is_ready s.socket then s.transmitted ++ frames else s.transmitted))

flush_entries_lem :
    (s : PulseClientSession) (m : JsMap ℕ) → Flushed s m (resent s.entries s.current_seq m)
unfolding flush_entries resent
flush_entries_lem s [] = (omega arith, ground (arith, append-nil s.transmitted))
flush_entries_lem s ((id, i) ∷ rest) =
    let seq = s.current_seq + 1 in
    let e : PulseEventEnvelope = with_seq seq (s.entries i).envelope in
    let u : PulseClientSession =
      put_entry (record s { current_seq = seq }) i
        (record (s.entries i) { correlation_id = id; envelope = e; is_armed = true }) in
    let t : PulseClientSession =
      with_transmitted u (if is_ready s.socket then s.transmitted ++ (e ∷ []) else s.transmitted) in
    let same : resent u.entries seq rest ≡ resent s.entries seq rest =
      resent-cong u.entries s.entries seq rest (λ j.
        if-holds (λ (x : InFlightEntry). with_seq 0 x.envelope ≡ with_seq 0 (s.entries j).envelope)
          (i == j) _ _ (λ own. ap (λ k. with_seq 0 (s.entries k).envelope) (own_index i j own))
          (λ _. refl)) in
    let ih = flush_entries_lem t rest in
    subst
      (λ v.
        let w = flush_entries v rest in
        (w.current_seq ≡ s.current_seq + suc (length rest))
        × (w.transmitted ≡ (
            if is_ready s.socket
            then s.transmitted ++ (e ∷ resent s.entries seq rest)
            else s.transmitted)))
      (sym (transmit_frame_lem u e))
      (
        ground (arith, ih.0),
        ih.1
            ∙ if-append (is_ready s.socket) s.transmitted e (resent t.entries seq rest)
            ∙ ap (λ ys. if is_ready s.socket then s.transmitted ++ (e ∷ ys) else s.transmitted)
                same,
      )

resent_nothing :
    (entries : ℕ → InFlightEntry) (n : ℕ) (m : JsMap ℕ)
    → (size m == 0) ≡ true
    → (resent entries n m ≡ []) × (size m ≡ 0)
unfolding resent
resent_nothing entries n [] h = (refl, refl)
resent_nothing entries n ((id, i) ∷ rest) h = absurd (ground (arith, h))

-- A flush sends the queued frames again in the queue's order, numbered consecutively after the
-- session's current number, which ends at the last of these. With a socket that is not open nothing
-- is sent and the numbers are taken all the same.
pub flush_retry_queue_lem :
    (s : PulseClientSession)
    → let t = flush_retry_queue s in
      let frames = resent s.entries s.current_seq s.in_flight_queue in
      (t.current_seq ≡ s.current_seq + size s.in_flight_queue)
      × (t.transmitted ≡ (if is_ready s.socket then s.transmitted ++ frames else s.transmitted))
unfolding flush_retry_queue
flush_retry_queue_lem s =
    let q = s.in_flight_queue in
    let frames = resent s.entries s.current_seq q in
    let t : PulseClientSession = record s { state = ClientSessionState.flush_retry_queue } in
    if-holds
      (λ (u : PulseClientSession).
        (u.current_seq ≡ s.current_seq + size q)
        × (u.transmitted ≡ (if is_ready s.socket then s.transmitted ++ frames else s.transmitted)))
      (size q == 0) _ _
      (λ empty.
        let none_left = resent_nothing s.entries s.current_seq q empty in
        (ground (arith, none_left.1), ground (arith, none_left.0, append-nil s.transmitted)))
      (λ _. flush_entries_lem t q)
