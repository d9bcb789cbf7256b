-- ===== src/PulseClientSession/Lifecycle.antt =====
-- src/client/PulseClientSession.ts: connecting, reconnecting, resubscribing and disconnecting. The
-- socket's readyState is the library's and changes by an event of its own. `draw n` is the whole
-- part of a random number below 1 times `n`. What follows an `await` is a step of its own.
use pulse_distributed_real_t.Prelude.{
  ℕ, String, List, [], ◌∷◌, Option, none, some, Bool, true, false, if◌then◌else◌, ◌+◌, ◌==◌, not,
  ◌||◌, ◌&&◌,
}
use pulse_distributed_real_t.JsMap.{JsMap, size, keys}
use pulse_distributed_real_t.Json.{Fields, Items, item, nil, field, end, str, arr, whole}
use pulse_distributed_real_t.Envelope.{PulseEventEnvelope, EventType, EventTarget}
use pulse_distributed_real_t.Connection.{ReadyState}
use pulse_distributed_real_t.PulseClientSession.{
  PulseClientSession, ClientSessionState, SendResult, Settlement, compute_next_backoff_delay,
  reset_backoff, transmit_frame, put_entry, send_envelope, on_ack,
}

-- What a call that builds an envelope draws: the event id, the time and a correlation id.
pub record Stamp : Type 0 where
  pub event_id : String
  pub now : ℕ
  pub correlation_id : String

unfoldable pub build_envelope :
    PulseClientSession → EventType → Option EventTarget → Fields → Bool → Stamp → PulseEventEnvelope
build_envelope s type target payload ack_required stamp = record {
  event_id = stamp.event_id;
  type = type;
  timestamp = whole stamp.now;
  sender_id = s.options.user_id;
  seq = none;
  target = target;
  payload = payload;
  correlation_id = none;
  ack_required = ack_required;
  origin_instance_id = none;
  origin_timestamp_ms = none;
}

unfoldable pub room_items : List String → Items
room_items [] = nil
room_items (r ∷ rs) = item (str r) (room_items rs)

abbrev pub rooms_payload : List String → Fields
unfolding room_items
rooms_payload rooms = field "rooms" (arr (room_items rooms)) end

-- The queue in insertion order: each frame gets the next number, is sent and waits anew.
unfoldable pub flush_entries : PulseClientSession → JsMap ℕ → PulseClientSession
unfolding transmit_frame
flush_entries s [] = s
flush_entries s ((id, i) ∷ rest) =
    let seq = s.current_seq + 1 in
    let e : PulseEventEnvelope = record (s.entries i).envelope { seq = some seq } in
    let t : PulseClientSession =
      put_entry (record s { current_seq = seq }) i
        (record (s.entries i) { correlation_id = id; envelope = e; is_armed = true }) in
    flush_entries (transmit_frame t e) rest

unfoldable pub flush_retry_queue : PulseClientSession → PulseClientSession
unfolding flush_entries
flush_retry_queue s =
    let t : PulseClientSession = record s { state = ClientSessionState.flush_retry_queue } in
    if size s.in_flight_queue == 0 then t else flush_entries t s.in_flight_queue

abbrev pub scheduled : PulseClientSession → PulseClientSession
scheduled s = record s {
  state = ClientSessionState.reconnecting_backoff;
  reconnect_timer = some s.last_backoff_delay;
}

unfoldable pub handle_disconnect_or_error : PulseClientSession → (ℕ → ℕ) → PulseClientSession
unfolding compute_next_backoff_delay
handle_disconnect_or_error s draw =
    let t : PulseClientSession = record s { reconnect_attempt = s.reconnect_attempt + 1 } in
    if s.is_explicitly_closed || not s.options.auto_reconnect
    then s
    else scheduled (compute_next_backoff_delay t draw)

-- `refused` is whether the socket's constructor throws.
unfoldable pub connect : PulseClientSession → Bool → (ℕ → ℕ) → PulseClientSession
unfolding handle_disconnect_or_error
connect s refused draw =
    let t : PulseClientSession = record s {
      is_explicitly_closed = false;
      reconnect_timer = none;
      current_seq = 0;
      state = ClientSessionState.connecting;
    } in
    if refused
    then handle_disconnect_or_error (record t { state = ClientSessionState.disconnected }) draw
    else record t { socket = some ReadyState.connecting; has_connection_timer = true }

unfoldable pub is_unestablished : ClientSessionState → Bool
is_unestablished ClientSessionState.connecting = true
is_unestablished ClientSessionState.authenticating = true
is_unestablished other = false

unfoldable pub is_connecting : ClientSessionState → Bool
is_connecting ClientSessionState.connecting = true
is_connecting other = false

unfoldable pub is_connected : ClientSessionState → Bool
is_connected ClientSessionState.connected = true
is_connected other = false

unfoldable pub on_connection_timeout : PulseClientSession → (ℕ → ℕ) → PulseClientSession
unfolding handle_disconnect_or_error is_unestablished
on_connection_timeout s draw =
    let t : PulseClientSession = record s { has_connection_timer = false } in
    if s.has_connection_timer && is_unestablished s.state
    then handle_disconnect_or_error (record t { state = ClientSessionState.disconnected }) draw
    else t

unfoldable pub on_open : PulseClientSession → PulseClientSession
on_open s = record s { state = ClientSessionState.authenticating }

-- Only a session that was connected connects again.
unfoldable pub on_close : PulseClientSession → (ℕ → ℕ) → PulseClientSession
unfolding handle_disconnect_or_error is_connected
on_close s draw =
    let t : PulseClientSession = record s {
      has_connection_timer = false;
      state = ClientSessionState.disconnected;
    } in
    if is_connected s.state && not s.is_explicitly_closed
    then handle_disconnect_or_error t draw
    else t

unfoldable pub on_error : PulseClientSession → (ℕ → ℕ) → PulseClientSession
unfolding handle_disconnect_or_error is_connecting
on_error s draw =
    let t : PulseClientSession = record s {
      has_connection_timer = false;
      state = ClientSessionState.disconnected;
    } in
    if is_connecting s.state then handle_disconnect_or_error t draw else s

unfoldable pub on_reconnect_timer : PulseClientSession → Bool → (ℕ → ℕ) → PulseClientSession
unfolding connect
on_reconnect_timer s refused draw = elim s.reconnect_timer [
  | none ↦ s
  | some delay ↦ if s.is_explicitly_closed then s else connect s refused draw
]

-- The end of a resubscription, and of a handshake without one.
unfoldable pub resume : PulseClientSession → PulseClientSession
unfolding flush_retry_queue
resume s = record (flush_retry_queue s) { state = ClientSessionState.connected }

-- A full queue throws at once; else the ACK, or its failure, is waited for.
unfoldable pub await_resubscribed : PulseClientSession → SendResult → PulseClientSession
unfolding resume
await_resubscribed s SendResult.buffer_full = resume s
await_resubscribed s SendResult.sent = resume s
await_resubscribed s (SendResult.awaiting i) = record s { resubscribing = i ∷ s.resubscribing }

unfoldable pub resubscribe_rooms : PulseClientSession → Stamp → PulseClientSession
unfolding await_resubscribed send_envelope build_envelope
resubscribe_rooms s stamp =
    let t : PulseClientSession = record s { state = ClientSessionState.resubscribing_rooms } in
    let e =
      build_envelope t EventType.room_batch_join none (rooms_payload (keys s.desired_rooms)) true
        stamp in
    let r = send_envelope t e stamp.correlation_id in await_resubscribed r.0 r.1

unfoldable pub is_settled : Settlement → Bool
is_settled Settlement.pending = false
is_settled other = true

unfoldable pub drop_ref : ℕ → List ℕ → List ℕ
drop_ref i [] = []
drop_ref i (j ∷ js) = let rest = drop_ref i js in if i == j then rest else j ∷ rest

unfoldable pub awaits : ℕ → List ℕ → Bool
awaits i [] = false
awaits i (j ∷ js) = i == j || awaits i js

-- The resubscription goes on when the promise of its entry has settled.
unfoldable pub on_resubscribed : PulseClientSession → ℕ → PulseClientSession
unfolding resume is_settled drop_ref awaits
on_resubscribed s i =
    if awaits i s.resubscribing && is_settled (s.entries i).settlement
    then resume (record s { resubscribing = drop_ref i s.resubscribing })
    else s

unfoldable pub on_connect_ack : PulseClientSession → Stamp → PulseClientSession
unfolding reset_backoff resubscribe_rooms resume
on_connect_ack s stamp =
    let t = reset_backoff (record s { has_connection_timer = false }) in
    if size s.desired_rooms == 0 then resume t else resubscribe_rooms t stamp

unfoldable pub is_ack : EventType → Bool
is_ack EventType.delivery_ack = true
is_ack EventType.room_join_ack = true
is_ack EventType.room_batch_join_ack = true
is_ack EventType.room_leave_ack = true
is_ack other = false

unfoldable pub is_connect_ack : EventType → Bool
is_connect_ack EventType.sys_connect_ack = true
is_connect_ack other = false

unfoldable pub handle_incoming_envelope :
    PulseClientSession → PulseEventEnvelope → Stamp → PulseClientSession
unfolding on_connect_ack is_connect_ack is_ack on_ack
handle_incoming_envelope s e stamp =
    if is_connect_ack e.type
    then on_connect_ack s stamp
    else if is_ack e.type
    then on_ack s e e.correlation_id
    else s
