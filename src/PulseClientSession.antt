-- ===== src/PulseClientSession.antt =====
-- src/client/PulseClientSession.ts: the client's session, its in-flight frames and their timers.
-- An entry of the queue is an object that the map and a timer refer to, so it stands in a store
-- under a number. Emitted events and logs are left out; ids and random draws are arguments.
pub mod Lifecycle
pub mod Requests
pub mod Entries
pub mod Moves
pub mod Queue
pub mod Quiet
pub mod History
pub mod Later
pub mod Deadline
pub mod Backoff
pub mod Resequence
pub mod Reconnect
pub mod Stranded
use pulse_distributed_real_t.Prelude.{
  ℕ, String, List, [], ◌∷◌, Option, none, some, Bool, true, false, min, if◌then◌else◌, ◌+◌, ◌*◌,
  ◌++◌, ◌==◌, leb, not, truthy, ◌||◌, suc, ◌&&◌, max, ltb, ◌-◌,
}
use pulse_distributed_real_t.JsMap.{JsMap, JsSet, get, set, delete, size}
use pulse_distributed_real_t.Envelope.{PulseEventEnvelope}
use pulse_distributed_real_t.Connection.{ReadyState}

pub data ClientSessionState : Type 0 where
  connected disconnected reconnecting_backoff connecting authenticating : ClientSessionState
  resubscribing_rooms flush_retry_queue : ClientSessionState

-- What became of the promise that an entry resolves or rejects.
pub data Settlement : Type 0 where
  pending : Settlement
  resolved : PulseEventEnvelope → Settlement
  delivery_timeout session_closed : Settlement

-- `is_armed` is whether the entry's timer is running. The timer knows the correlation id.
pub record InFlightEntry : Type 0 where
  pub correlation_id : String
  pub envelope : PulseEventEnvelope
  pub retries : ℕ
  pub is_armed : Bool
  pub settlement : Settlement

pub record SessionOptions : Type 0 where
  pub user_id : String
  pub base_delay_ms : ℕ
  pub max_delay_ms : ℕ
  pub max_retries : ℕ
  pub queue_capacity : ℕ
  pub auto_reconnect : Bool

-- `transmitted` are the frames given to the socket, in order. `resubscribing` are the entries that
-- a resubscription waits for, `closing` counts the disconnects that wait for the socket, and
-- `has_connection_timer` is whether the timer of the connection runs.
pub record PulseClientSession : Type 0 where
  pub options : SessionOptions
  pub state : ClientSessionState
  pub socket : Option ReadyState
  pub current_seq : ℕ
  pub last_backoff_delay : ℕ
  pub reconnect_attempt : ℕ
  pub reconnect_timer : Option ℕ
  pub has_connection_timer : Bool
  pub is_explicitly_closed : Bool
  pub closing : ℕ
  pub desired_rooms : JsSet
  pub entries : ℕ → InFlightEntry
  pub next_entry : ℕ
  pub in_flight_queue : JsMap ℕ
  pub resubscribing : List ℕ
  pub transmitted : List PulseEventEnvelope

unfoldable pub new_session : SessionOptions → (ℕ → InFlightEntry) → PulseClientSession
new_session options unused = record {
  options = options;
  state = disconnected;
  socket = none;
  current_seq = 0;
  last_backoff_delay = 0;
  reconnect_attempt = 0;
  reconnect_timer = none;
  has_connection_timer = false;
  is_explicitly_closed = false;
  closing = 0;
  desired_rooms = [];
  entries = unused;
  next_entry = 0;
  in_flight_queue = [];
  resubscribing = [];
  transmitted = [];
}

-- Decorrelated jitter. `draw n` is the whole part of the random number times `n`.
unfoldable pub compute_next_backoff_delay : PulseClientSession → (ℕ → ℕ) → PulseClientSession
compute_next_backoff_delay s draw =
    let base = s.options.base_delay_ms in
    let limit = s.options.max_delay_ms in
    let top = min limit (s.last_backoff_delay * 3) in
    if s.reconnect_attempt == 0 || s.last_backoff_delay == 0
    then record s { last_backoff_delay = min limit (base + draw base) }
    else record s { last_backoff_delay = min limit (max base (base + draw (top - base))) }

unfoldable pub reset_backoff : PulseClientSession → PulseClientSession
reset_backoff s = record s { reconnect_attempt = 0; last_backoff_delay = 0 }

abbrev pub is_ready : Option ReadyState → Bool
is_ready none = false
is_ready (some ReadyState.open_state) = true
is_ready (some other) = false

-- A frame is dropped silently while the socket is not open.
unfoldable pub transmit_frame : PulseClientSession → PulseEventEnvelope → PulseClientSession
transmit_frame s e =
    if is_ready s.socket then record s { transmitted = s.transmitted ++ (e ∷ []) } else s

abbrev pub put_entry : PulseClientSession → ℕ → InFlightEntry → PulseClientSession
put_entry s i e = record s { entries = λ j. if i == j then e else s.entries j }

-- A promise settles once.
unfoldable pub settle : Settlement → Settlement → Settlement
settle pending outcome = outcome
settle (resolved e) outcome = resolved e
settle delivery_timeout outcome = delivery_timeout
settle session_closed outcome = session_closed

-- clearTimeout(entry.timer), and the promise settles.
unfoldable pub close_entry : InFlightEntry → Settlement → InFlightEntry
unfolding settle
close_entry e outcome = record e { is_armed = false; settlement = settle e.settlement outcome }

pub data SendResult : Type 0 where
  buffer_full sent : SendResult
  awaiting : ℕ → SendResult

-- A number or a correlation id that the options hold is kept.
unfoldable pub next_seq : PulseClientSession → Option ℕ → ℕ
next_seq s none = s.current_seq + 1
next_seq s (some n) = n

unfoldable pub id_or : String → Option String → String
id_or fresh_id none = fresh_id
id_or fresh_id (some id) = id

-- The envelope with its sequence number and correlation id.
unfoldable pub numbered : PulseClientSession → PulseEventEnvelope → String → PulseEventEnvelope
unfolding next_seq id_or
numbered s e fresh_id = record e {
  seq = some (next_seq s e.seq);
  correlation_id = some (id_or fresh_id e.correlation_id);
}

abbrev pub new_entry : String → PulseEventEnvelope → InFlightEntry
new_entry id e = record {
  correlation_id = id;
  envelope = e;
  retries = 0;
  is_armed = true;
  settlement = pending;
}

abbrev pub with_entry : PulseClientSession → String → PulseEventEnvelope → PulseClientSession
with_entry s id e = record (put_entry s s.next_entry (new_entry id e)) {
  next_entry = s.next_entry + 1;
  in_flight_queue = set id s.next_entry s.in_flight_queue;
}

-- A new entry, armed and in the queue, and its frame.
unfoldable pub enqueue : PulseClientSession → String → PulseEventEnvelope → PulseClientSession
unfolding transmit_frame
enqueue s id e = transmit_frame (with_entry s id e) e

unfoldable pub send_envelope :
    PulseClientSession → PulseEventEnvelope → String → PulseClientSession × SendResult
unfolding numbered transmit_frame enqueue next_seq id_or
send_envelope s options fresh_id =
    let t : PulseClientSession = record s { current_seq = next_seq s options.seq } in
    let e = numbered s options fresh_id in
    if leb s.options.queue_capacity (size s.in_flight_queue)
    then (s, buffer_full)
    else if not e.ack_required
    then (transmit_frame t e, sent)
    else (enqueue t (id_or fresh_id options.correlation_id) e, awaiting s.next_entry)

-- The timer of an entry goes off.
unfoldable pub on_ack_timeout : PulseClientSession → ℕ → PulseClientSession
unfolding transmit_frame close_entry
on_ack_timeout s i =
    let e = s.entries i in
    if not (e.is_armed && ltb i s.next_entry)
    then s
    else if ltb e.retries s.options.max_retries
    then put_entry (transmit_frame s e.envelope) i (record e { retries = suc e.retries })
    else put_entry (record s { in_flight_queue = delete e.correlation_id s.in_flight_queue }) i
        (close_entry e delivery_timeout)

-- What an ACK does to the entry it found.
unfoldable pub ack_entry :
    PulseClientSession → PulseEventEnvelope → String → Option ℕ → PulseClientSession
unfolding close_entry
ack_entry s ack id none = s
ack_entry s ack id (some i) =
    put_entry (record s { in_flight_queue = delete id s.in_flight_queue }) i
      (close_entry (s.entries i) (Settlement.resolved ack))

-- An ACK settles the entry that the queue has under its correlation id. An empty id is none.
unfoldable pub on_ack : PulseClientSession → PulseEventEnvelope → Option String → PulseClientSession
unfolding ack_entry
on_ack s ack none = s
on_ack s ack (some id) = ack_entry s ack id (if truthy id then get id s.in_flight_queue else none)
