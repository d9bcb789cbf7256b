-- ===== src/PulseClientSession/Requests.antt =====
-- src/client/PulseClientSession.ts: what the application asks for, and a session's history as a list
-- of events: calls, the socket's events, timers and the continuations of what awaits.
use pulse_distributed_real_t.Prelude.{
  ℕ, String, List, [], ◌∷◌, Option, none, some, Bool, true, false, if◌then◌else◌, ◌+◌, ◌-◌, ◌==◌,
}
use pulse_distributed_real_t.JsMap.{JsMap, JsSet, add, delete}
use pulse_distributed_real_t.Json.{Fields, end}
use pulse_distributed_real_t.Envelope.{PulseEventEnvelope, EventType, EventTarget}
use pulse_distributed_real_t.Connection.{ReadyState}
use pulse_distributed_real_t.PulseClientSession.{
  PulseClientSession, ClientSessionState, SendResult, Settlement, put_entry, close_entry,
  send_envelope, on_ack_timeout,
}
use pulse_distributed_real_t.PulseClientSession.Lifecycle.{
  Stamp, build_envelope, rooms_payload, connect, on_open, on_close, on_error, on_connection_timeout,
  on_reconnect_timer, on_resubscribed, handle_incoming_envelope,
}

abbrev pub room_target : String → Option EventTarget
room_target room_id = some (record { room_id = some room_id; recipient_id = none })

abbrev pub recipient_target : String → Option EventTarget
recipient_target recipient_id = some (record { room_id = none; recipient_id = some recipient_id })

unfoldable pub join_room : PulseClientSession → String → Stamp → PulseClientSession × SendResult
unfolding send_envelope build_envelope
join_room s room_id stamp =
    let t : PulseClientSession = record s { desired_rooms = add room_id s.desired_rooms } in
    let e = build_envelope t EventType.room_join (room_target room_id) end true stamp in
    send_envelope t e stamp.correlation_id

unfoldable pub add_rooms : List String → JsSet → JsSet
add_rooms [] desired = desired
add_rooms (r ∷ rooms) desired = add_rooms rooms (add r desired)

unfoldable pub join_rooms :
    PulseClientSession → List String → Stamp → PulseClientSession × SendResult
unfolding send_envelope build_envelope add_rooms
join_rooms s rooms stamp =
    let t : PulseClientSession = record s { desired_rooms = add_rooms rooms s.desired_rooms } in
    let e = build_envelope t EventType.room_batch_join none (rooms_payload rooms) true stamp in
    send_envelope t e stamp.correlation_id

unfoldable pub leave_room : PulseClientSession → String → Stamp → PulseClientSession × SendResult
unfolding send_envelope build_envelope
leave_room s room_id stamp =
    let t : PulseClientSession = record s { desired_rooms = delete room_id s.desired_rooms } in
    let e = build_envelope t EventType.room_leave (room_target room_id) end true stamp in
    send_envelope t e stamp.correlation_id

unfoldable pub send_room_message :
    PulseClientSession → String → Fields → Bool → Stamp → PulseClientSession × SendResult
unfolding send_envelope build_envelope
send_room_message s room_id payload ack_required stamp =
    let e =
      build_envelope s EventType.room_message (room_target room_id) payload ack_required stamp in
    send_envelope s e stamp.correlation_id

unfoldable pub send_direct_message :
    PulseClientSession → String → Fields → Bool → Stamp → PulseClientSession × SendResult
unfolding send_envelope build_envelope
send_direct_message s recipient_id payload ack_required stamp =
    let target = recipient_target recipient_id in
    let e = build_envelope s EventType.direct_message target payload ack_required stamp in
    send_envelope s e stamp.correlation_id

-- Every entry of the queue stops waiting and is rejected.
unfoldable pub reject_all : PulseClientSession → JsMap ℕ → PulseClientSession
unfolding close_entry
reject_all s [] = s
reject_all s ((id, i) ∷ rest) =
    reject_all (put_entry s i (close_entry (s.entries i) Settlement.session_closed)) rest

abbrev pub all_rejected : PulseClientSession → PulseClientSession
unfolding reject_all
all_rejected s = record (reject_all s s.in_flight_queue) { in_flight_queue = [] }

unfoldable pub is_closable : Option ReadyState → Bool
is_closable (some ReadyState.open_state) = true
is_closable (some ReadyState.connecting) = true
is_closable other = false

unfoldable pub finish_disconnect : PulseClientSession → PulseClientSession
finish_disconnect s = record s { socket = none; state = ClientSessionState.disconnected }

-- Up to the wait for the socket to close, if there is one.
unfoldable pub disconnect : PulseClientSession → PulseClientSession
unfolding reject_all is_closable finish_disconnect
disconnect s =
    let t : PulseClientSession = record s {
      is_explicitly_closed = true;
      reconnect_timer = none;
      has_connection_timer = false;
    } in
    let u : PulseClientSession = all_rejected t in
    if is_closable s.socket then record u { closing = s.closing + 1 } else finish_disconnect u

-- The socket has closed, or 200 ms have passed.
unfoldable pub on_disconnected : PulseClientSession → PulseClientSession
unfolding finish_disconnect
on_disconnected s =
    if s.closing == 0 then s else finish_disconnect (record s { closing = s.closing - 1 })

pub data ClientEvent : Type 0 where
  connect_called : Bool → (ℕ → ℕ) → ClientEvent
  ready_state_changed : ReadyState → ClientEvent
  opened : ClientEvent
  received : PulseEventEnvelope → Stamp → ClientEvent
  socket_closed socket_failed connection_timed_out : (ℕ → ℕ) → ClientEvent
  reconnect_fired : Bool → (ℕ → ℕ) → ClientEvent
  ack_timer_fired resubscribed : ℕ → ClientEvent
  send_called : PulseEventEnvelope → String → ClientEvent
  join_called leave_called : String → Stamp → ClientEvent
  join_rooms_called : List String → Stamp → ClientEvent
  room_message_called direct_message_called : String → Fields → Bool → Stamp → ClientEvent
  disconnect_called disconnect_finished : ClientEvent

unfoldable pub change_ready_state : Option ReadyState → ReadyState → Option ReadyState
change_ready_state none next = none
change_ready_state (some r) next = some next

unfoldable pub step : PulseClientSession → ClientEvent → PulseClientSession
unfolding connect on_open on_close on_error on_connection_timeout on_reconnect_timer on_resubscribed
    handle_incoming_envelope send_envelope join_room join_rooms leave_room send_room_message
    send_direct_message disconnect on_disconnected on_ack_timeout change_ready_state
step s (connect_called refused draw) = connect s refused draw
step s (ready_state_changed r) = record s { socket = change_ready_state s.socket r }
step s opened = on_open s
step s (received e stamp) = handle_incoming_envelope s e stamp
step s (socket_closed draw) = on_close s draw
step s (socket_failed draw) = on_error s draw
step s (connection_timed_out draw) = on_connection_timeout s draw
step s (reconnect_fired refused draw) = on_reconnect_timer s refused draw
step s (ack_timer_fired i) = on_ack_timeout s i
step s (resubscribed i) = on_resubscribed s i
step s (send_called e fresh_id) = (send_envelope s e fresh_id).0
step s (join_called room_id stamp) = (join_room s room_id stamp).0
step s (leave_called room_id stamp) = (leave_room s room_id stamp).0
step s (join_rooms_called rooms stamp) = (join_rooms s rooms stamp).0
step s (room_message_called room_id payload ack stamp) =
    (send_room_message s room_id payload ack stamp).0
step s (direct_message_called recipient_id payload ack stamp) =
    (send_direct_message s recipient_id payload ack stamp).0
step s disconnect_called = disconnect s
step s disconnect_finished = on_disconnected s

unfoldable pub run : PulseClientSession → List ClientEvent → PulseClientSession
unfolding step
run s [] = s
run s (e ∷ events) = run (step s e) events
