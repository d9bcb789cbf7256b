-- ===== src/PulseClientSession/Stranded.antt =====
-- src/client/PulseClientSession.ts: sessions that lose their socket or find their queue full
-- when they would resubscribe.
use pulse_distributed_real_t.Prelude.{
  ℕ, [], ◌∷◌, ◌++◌, some, true, false, if◌then◌else◌, ◌≡◌, ◌+◌, ◌==◌, ◌≤◌, ◌<◌, not, ◌&&◌, arith,
  if-holds, refl, leb, ltb, subst, sym,
}
use pulse_distributed_real_t.JsMap.{JsMap, size}
use pulse_distributed_real_t.Envelope.{PulseEventEnvelope}
use pulse_distributed_real_t.PulseClientSession.{
  PulseClientSession, ClientSessionState, Settlement, SendResult, put_entry, close_entry, is_ready,
  transmit_frame, send_envelope, on_ack_timeout, reset_backoff,
}
use pulse_distributed_real_t.PulseClientSession.Lifecycle.{
  Stamp, flush_entries, flush_retry_queue, resume, on_close, on_resubscribed, on_connect_ack,
  resubscribe_rooms, await_resubscribed, is_connected, is_settled, awaits, drop_ref,
}
use pulse_distributed_real_t.PulseClientSession.Entries.{IsValid, settle-is_settled, settled_in}
use pulse_distributed_real_t.PulseClientSession.Resequence.{resent, flush_retry_queue_lem}

-- The socket and the scheduled reconnection are those of another session.
abbrev IsWired : PulseClientSession → PulseClientSession → Type 0
IsWired s t = (t.socket ≡ s.socket) × (t.reconnect_timer ≡ s.reconnect_timer)

flush_entries-IsWired :
    (s t : PulseClientSession) (m : JsMap ℕ) → IsWired s t → IsWired s (flush_entries t m)
unfolding flush_entries transmit_frame
flush_entries-IsWired s t [] w = w
flush_entries-IsWired s t ((id, i) ∷ rest) w =
    let e : PulseEventEnvelope = record (t.entries i).envelope { seq = some (t.current_seq + 1) } in
    let u : PulseClientSession =
      put_entry (record t { current_seq = t.current_seq + 1 }) i
        (record (t.entries i) { correlation_id = id; envelope = e; is_armed = true }) in
    flush_entries-IsWired s (transmit_frame u e) rest
      (if-holds (IsWired s) (is_ready t.socket) _ _ (λ _. w) (λ _. w))

resume-IsWired : (s t : PulseClientSession) → IsWired s t → IsWired s (resume t)
unfolding resume flush_retry_queue
resume-IsWired s t w =
    let u : PulseClientSession = record t { state = ClientSessionState.flush_retry_queue } in
    if-holds (IsWired s) (size t.in_flight_queue == 0) _ _ (λ _. w)
      (λ _. flush_entries-IsWired s u t.in_flight_queue w)

-- Connected, with the socket and the scheduled reconnection of another session.
abbrev IsStranded : PulseClientSession → PulseClientSession → Type 0
IsStranded s t =
    (t.state ≡ ClientSessionState.connected)
    × (t.socket ≡ s.socket)
    × (t.reconnect_timer ≡ s.reconnect_timer)

on_resubscribed-IsStranded :
    (s t : PulseClientSession) (i : ℕ)
    → awaits i t.resubscribing ≡ true
    → is_settled (t.entries i).settlement ≡ true
    → IsWired s t
    → IsStranded s (on_resubscribed t i)
unfolding on_resubscribed resume
on_resubscribed-IsStranded s t i waits over w =
    if-holds (IsStranded s) (awaits i t.resubscribing && is_settled (t.entries i).settlement) _ _
      (λ _.
        let kept = resume-IsWired s (record t { resubscribing = drop_ref i t.resubscribing }) w in
        (refl, kept.0, kept.1))
      (λ no. absurd (ground (arith, no, waits, over)))

give_up :
    (s : PulseClientSession) (i : ℕ)
    → IsValid s
    → i < s.next_entry
    → (s.entries i).settlement ≡ Settlement.pending
    → s.options.max_retries ≤ (s.entries i).retries
    → on_ack_timeout s i ≡ settled_in s i Settlement.delivery_timeout
unfolding on_ack_timeout is_settled
give_up s i v made waiting last =
    let e = s.entries i in
    let armed = (v.timed i made).armed in
    if-holds (λ (t : PulseClientSession). t ≡ settled_in s i Settlement.delivery_timeout)
      (not (e.is_armed && ltb i s.next_entry)) _ _
      (λ off. absurd (ground (arith, off, armed, made, waiting)))
      (λ _.
        if-holds (λ (t : PulseClientSession). t ≡ settled_in s i Settlement.delivery_timeout)
          (ltb e.retries s.options.max_retries) _ _ (λ more. absurd (ground (arith, more, last)))
          (λ _. refl))

on_close_unconnected :
    (s : PulseClientSession) (draw : ℕ → ℕ)
    → is_connected s.state ≡ false
    → on_close s draw
      ≡ record s { has_connection_timer = false; state = ClientSessionState.disconnected }
unfolding on_close
on_close_unconnected s draw h =
    if-holds
      (λ (t : PulseClientSession).
        t ≡ record s { has_connection_timer = false; state = ClientSessionState.disconnected })
      (is_connected s.state && not s.is_explicitly_closed) _ _
      (λ yes. absurd (ground (arith, yes, h))) (λ _. refl)

-- The socket of a valid session that waits for its resubscription closes, and the ACK that it waits
-- for never comes. When that entry's last retry has timed out, the session says that it is
-- connected, with the socket that it had, and no reconnection has been scheduled.
pub on_close-IsStranded :
    (s : PulseClientSession) (draw : ℕ → ℕ) (i : ℕ)
    → IsValid s
    → s.state ≡ ClientSessionState.resubscribing_rooms
    → awaits i s.resubscribing ≡ true
    → i < s.next_entry
    → (s.entries i).settlement ≡ Settlement.pending
    → s.options.max_retries ≤ (s.entries i).retries
    → let t = on_resubscribed (on_ack_timeout (on_close s draw) i) i in
      (t.state ≡ ClientSessionState.connected)
      × (t.socket ≡ s.socket)
      × (t.reconnect_timer ≡ s.reconnect_timer)
unfolding is_connected close_entry is_settled
on_close-IsStranded s draw i v state waits made waiting last =
    let c : PulseClientSession = record s {
      has_connection_timer = false;
      state = ClientSessionState.disconnected;
    } in
    let closed : on_close s draw ≡ c = on_close_unconnected s draw (ground (arith, state)) in
    let gone = give_up c i v made waiting last in
    let d = settled_in c i Settlement.delivery_timeout in
    let over : is_settled (d.entries i).settlement ≡ true =
      ground (arith, settle-is_settled (s.entries i).settlement Settlement.delivery_timeout refl) in
    let stranded = on_resubscribed-IsStranded s d i waits over (refl, refl) in
    subst (λ t. IsStranded s (on_resubscribed (on_ack_timeout t i) i)) (sym closed)
      (subst (λ t. IsStranded s (on_resubscribed t i)) (sym gone) stranded)

-- Connected, having sent the queued frames and nothing else.
abbrev HasFlushed : PulseClientSession → PulseClientSession → Type 0
HasFlushed s t =
    let frames = resent s.entries s.current_seq s.in_flight_queue in
    (t.state ≡ ClientSessionState.connected)
    × (t.transmitted ≡ (if is_ready s.socket then s.transmitted ++ frames else s.transmitted))

-- A handshake of a session that has rooms to join again, but whose queue is full: the session is
-- connected at once and has sent its queued frames only, so no request for the rooms.
pub on_connect_ack-full :
    (s : PulseClientSession) (stamp : Stamp)
    → (size s.desired_rooms == 0) ≡ false
    → s.options.queue_capacity ≤ size s.in_flight_queue
    → let t = on_connect_ack s stamp in
      let frames = resent s.entries s.current_seq s.in_flight_queue in
      (t.state ≡ ClientSessionState.connected)
      × (t.transmitted ≡ (if is_ready s.socket then s.transmitted ++ frames else s.transmitted))
unfolding on_connect_ack resubscribe_rooms send_envelope await_resubscribed resume reset_backoff
on_connect_ack-full s stamp rooms full =
    let t : PulseClientSession = reset_backoff (record s { has_connection_timer = false }) in
    let u : PulseClientSession = record t { state = ClientSessionState.resubscribing_rooms } in
    let flushed = flush_retry_queue_lem u in
    if-holds (HasFlushed s) (size s.desired_rooms == 0) _ _
      (λ none_wanted. absurd (ground (arith, none_wanted, rooms)))
      (λ _.
        if-holds
          (λ (r : PulseClientSession × SendResult). HasFlushed s (await_resubscribed r.0 r.1))
          (leb s.options.queue_capacity (size s.in_flight_queue)) _ _ (λ _. (refl, flushed.1))
          (λ free. absurd (ground (arith, free, full))))
