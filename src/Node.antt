-- ===== src/Node.antt =====
-- One server node as the dispatcher sees it: its managers, the store of connection objects, the
-- presence manager's event tracker, and what it has published. A connection object is reached by its id, from wherever it is referred to.
use pulse_distributed_real_t.Prelude.{
  ℕ, String, List, ◌∷◌, Option, none, some, Bool, false, ◌=ₛ◌, if◌then◌else◌,
}
use pulse_distributed_real_t.Json.{Fields, whole}
use pulse_distributed_real_t.Envelope.{EventType, EventTarget, PulseEventEnvelope}
use pulse_distributed_real_t.ConnectionManager.{ConnectionManager}
use pulse_distributed_real_t.RoomManager.{RoomManager}
use pulse_distributed_real_t.IdempotencyManager.{IdempotencyManager}
use pulse_distributed_real_t.PresenceEventTracker.{PresenceEventTracker}
use pulse_distributed_real_t.EventValidator.{present}
use pulse_distributed_real_t.Connection.{Connection, WebSocketLib, Metric, send}

pub record Config : Type 0 where
  pub instance_id : String
  pub max_rooms_per_connection : ℕ
  pub max_room_id_length : ℕ
  pub has_presence : Bool

-- `published` are the channels and envelopes given to Redis, in order.
pub record Node : Type 0 where
  pub config : Config
  pub connection_manager : ConnectionManager
  pub store : String → Connection
  pub room_manager : RoomManager
  pub idempotency_manager : IdempotencyManager
  pub presence_events : PresenceEventTracker
  pub published : List (String × PulseEventEnvelope)
  pub counted : List Metric

-- What a handler finds in its surroundings: the clock, read once, two fresh ids, and whether Redis
-- is configured and connected.
pub record Env : Type 0 where
  pub now : ℕ
  pub fresh_id : String
  pub reply_id : String
  pub redis_connected : Bool

abbrev pub store_at : (String → Connection) → String → Connection → String → Connection
store_at store id c j = if id =ₛ j then c else store j

-- A change of one connection object.
abbrev pub put_connection : Node → String → Connection → Node
put_connection n id c = record n { store = store_at n.store id c }

abbrev pub count_metric : Node → Metric → Node
count_metric n m = record n { counted = m ∷ n.counted }

unfoldable pub send_to : WebSocketLib → Node → String → PulseEventEnvelope → Node × Bool
send_to ws n id e = let (c, sent) = send ws (n.store id) e in (put_connection n id c, sent)

-- envelope.correlationId || envelope.eventId
abbrev pub correlation_of : PulseEventEnvelope → Option String
correlation_of e = if present e.correlation_id then e.correlation_id else some e.event_id

-- An envelope that the node itself sends.
abbrev pub system_envelope :
    Env → EventType → Option String → Option EventTarget → Fields → PulseEventEnvelope
system_envelope env type correlation_id target payload = record {
  event_id = env.reply_id;
  type = type;
  timestamp = whole env.now;
  sender_id = "system";
  seq = none;
  target = target;
  payload = payload;
  correlation_id = correlation_id;
  ack_required = false;
  origin_instance_id = none;
  origin_timestamp_ms = none;
}

abbrev pub room_target : String → Option EventTarget
room_target room_id = some (record { room_id = some room_id; recipient_id = none })

abbrev pub recipient_target : String → Option EventTarget
recipient_target recipient_id = some (record { room_id = none; recipient_id = some recipient_id })

abbrev seq_or : ℕ → Option ℕ → ℕ
seq_or old none = old
seq_or old (some seq) = seq

-- if (envelope.seq !== undefined) sender.lastSeenSeq = envelope.seq
unfoldable pub accept_seq : Node → String → PulseEventEnvelope → Node
accept_seq n id e =
    let sender = n.store id in
    put_connection n id (record sender { last_seen_seq = seq_or sender.last_seen_seq e.seq })
