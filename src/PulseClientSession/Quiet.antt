-- ===== src/PulseClientSession/Quiet.antt =====
-- src/client/PulseClientSession.ts: the events that neither close the session nor schedule a
-- reconnection, as moves.
use pulse_distributed_real_t.Prelude.{ℕ, none, Bool, true, false, if-holds, ◌==◌, ◌&&◌, ◌≡◌}
use pulse_distributed_real_t.Json.{end}
use pulse_distributed_real_t.JsMap.{size, add, delete, keys}
use pulse_distributed_real_t.Envelope.{PulseEventEnvelope, EventType}
use pulse_distributed_real_t.PulseClientSession.{
  PulseClientSession, SendResult, send_envelope, reset_backoff, ClientSessionState,
}
use pulse_distributed_real_t.PulseClientSession.Lifecycle.{
  is_settled, is_ack, is_connect_ack, build_envelope, rooms_payload, on_open, await_resubscribed,
  Stamp, resubscribe_rooms, on_resubscribed, on_connect_ack, handle_incoming_envelope, drop_ref,
  awaits,
}
use pulse_distributed_real_t.PulseClientSession.Requests.{
  ClientEvent, step, on_disconnected, finish_disconnect, join_room, join_rooms, leave_room,
  send_room_message, send_direct_message, add_rooms, room_target, recipient_target,
}
use pulse_distributed_real_t.PulseClientSession.Moves.{
  Property, Holding, IsKept, send_envelope-keeps, on_ack_timeout-keeps, on_ack-keeps, resume-keeps,
}

-- Does the event leave closing and scheduling alone?
unfoldable pub is_quiet : ClientEvent → Bool
is_quiet (ClientEvent.connect_called refused draw) = false
is_quiet (ClientEvent.socket_closed draw) = false
is_quiet (ClientEvent.socket_failed draw) = false
is_quiet (ClientEvent.connection_timed_out draw) = false
is_quiet (ClientEvent.reconnect_fired refused draw) = false
is_quiet ClientEvent.disconnect_called = false
is_quiet other = true

module _ (Q : Property) (laws : IsKept Q) where
  abbrev Holds : PulseClientSession → Type 0
  Holds s = Holding Q s

  await_resubscribed-keeps :
      (s : PulseClientSession) (r : SendResult) → Holds s → Holds (await_resubscribed s r)
  unfolding await_resubscribed
  await_resubscribed-keeps s SendResult.buffer_full v = resume-keeps Q laws s v
  await_resubscribed-keeps s SendResult.sent v = resume-keeps Q laws s v
  await_resubscribed-keeps s (SendResult.awaiting i) v = v

  on_connect_ack-keeps :
      (s : PulseClientSession) (stamp : Stamp) → Holds s → Holds (on_connect_ack s stamp)
  unfolding on_connect_ack resubscribe_rooms reset_backoff
  on_connect_ack-keeps s stamp v =
      let t : PulseClientSession = reset_backoff (record s { has_connection_timer = false }) in
      let u : PulseClientSession = record t { state = ClientSessionState.resubscribing_rooms } in
      let e =
        build_envelope u EventType.room_batch_join none (rooms_payload (keys s.desired_rooms)) true
          stamp in
      let r = send_envelope u e stamp.correlation_id in
      if-holds Holds (size s.desired_rooms == 0) _ _ (λ _. resume-keeps Q laws t v)
        (λ _.
          await_resubscribed-keeps r.0 r.1 (send_envelope-keeps Q laws u e stamp.correlation_id v))

  handle_incoming_envelope-keeps :
      (s : PulseClientSession) (e : PulseEventEnvelope) (stamp : Stamp)
      → Holds s
      → Holds (handle_incoming_envelope s e stamp)
  unfolding handle_incoming_envelope
  handle_incoming_envelope-keeps s e stamp v =
      if-holds Holds (is_connect_ack e.type) _ _ (λ _. on_connect_ack-keeps s stamp v)
        (λ _.
          if-holds Holds (is_ack e.type) _ _ (λ _. on_ack-keeps Q laws s e e.correlation_id v)
            (λ _. v))

  on_resubscribed-keeps : (s : PulseClientSession) (i : ℕ) → Holds s → Holds (on_resubscribed s i)
  unfolding on_resubscribed
  on_resubscribed-keeps s i v =
      if-holds Holds (awaits i s.resubscribing && is_settled (s.entries i).settlement) _ _
        (λ _. resume-keeps Q laws (record s { resubscribing = drop_ref i s.resubscribing }) v)
        (λ _. v)

  on_disconnected-keeps : (s : PulseClientSession) → Holds s → Holds (on_disconnected s)
  unfolding on_disconnected finish_disconnect
  on_disconnected-keeps s v = if-holds Holds (s.closing == 0) _ _ (λ _. v) (λ _. v)

  pub quiet-keeps :
      (s : PulseClientSession) (event : ClientEvent)
      → is_quiet event ≡ true
      → Holds s
      → Holds (step s event)
  unfolding step is_quiet on_open join_room join_rooms leave_room send_room_message
      send_direct_message
  quiet-keeps s (ClientEvent.ready_state_changed r) h v = v
  quiet-keeps s ClientEvent.opened h v = v
  quiet-keeps s (ClientEvent.received e stamp) h v = handle_incoming_envelope-keeps s e stamp v
  quiet-keeps s (ClientEvent.ack_timer_fired i) h v = on_ack_timeout-keeps Q laws s i v
  quiet-keeps s (ClientEvent.resubscribed i) h v = on_resubscribed-keeps s i v
  quiet-keeps s (ClientEvent.send_called e fresh_id) h v = send_envelope-keeps Q laws s e fresh_id v
  quiet-keeps s (ClientEvent.join_called room_id stamp) h v =
      let t : PulseClientSession = record s { desired_rooms = add room_id s.desired_rooms } in
      send_envelope-keeps Q laws t
        (build_envelope t EventType.room_join (room_target room_id) end true stamp)
        stamp.correlation_id v
  quiet-keeps s (ClientEvent.leave_called room_id stamp) h v =
      let t : PulseClientSession = record s { desired_rooms = delete room_id s.desired_rooms } in
      send_envelope-keeps Q laws t
        (build_envelope t EventType.room_leave (room_target room_id) end true stamp)
        stamp.correlation_id v
  quiet-keeps s (ClientEvent.join_rooms_called rooms stamp) h v =
      let t : PulseClientSession = record s { desired_rooms = add_rooms rooms s.desired_rooms } in
      send_envelope-keeps Q laws t
        (build_envelope t EventType.room_batch_join none (rooms_payload rooms) true stamp)
        stamp.correlation_id v
  quiet-keeps s (ClientEvent.room_message_called room_id payload ack stamp) h v =
      send_envelope-keeps Q laws s
        (build_envelope s EventType.room_message (room_target room_id) payload ack stamp)
        stamp.correlation_id v
  quiet-keeps s (ClientEvent.direct_message_called recipient_id payload ack stamp) h v =
      send_envelope-keeps Q laws s
        (build_envelope s EventType.direct_message (recipient_target recipient_id) payload ack
          stamp)
        stamp.correlation_id v
  quiet-keeps s ClientEvent.disconnect_finished h v = on_disconnected-keeps s v
  quiet-keeps s (ClientEvent.connect_called refused draw) h v = cc
  quiet-keeps s (ClientEvent.socket_closed draw) h v = cc
  quiet-keeps s (ClientEvent.socket_failed draw) h v = cc
  quiet-keeps s (ClientEvent.connection_timed_out draw) h v = cc
  quiet-keeps s (ClientEvent.reconnect_fired refused draw) h v = cc
  quiet-keeps s ClientEvent.disconnect_called h v = cc
