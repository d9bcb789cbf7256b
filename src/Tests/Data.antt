-- ===== src/Tests/Data.antt =====
-- The states and envelopes of the tests.
use pulse_distributed_real_t.Prelude.{
  String, [], ◌∷◌, none, some, true, false, ◌=ₛ◌, if◌then◌else◌, ◌+◌,
}
use pulse_distributed_real_t.Json.{Fields, field, end, str, whole}
use pulse_distributed_real_t.Envelope.{EventType, PulseEventEnvelope}
use pulse_distributed_real_t.TokenBucket.{TokenBucket}
use pulse_distributed_real_t.IdempotencyManager.{IdempotencyManager, IdempotencyEntry}
use pulse_distributed_real_t.RoomManager.{RoomManager}
use pulse_distributed_real_t.ConnectionManager.{ConnectionManager}
use pulse_distributed_real_t.Connection.{Connection, WebSocketLib, ReadyState}
use pulse_distributed_real_t.Node.{Node, Env}

abbrev pub greeting : Fields
greeting = field "text" (str "hello") end

-- A message of alice to the room lobby.
abbrev pub lobby_message : PulseEventEnvelope
lobby_message = record {
  event_id = "e1";
  type = EventType.room_message;
  timestamp = whole 5;
  sender_id = "alice";
  seq = some 3;
  target = some (record { room_id = some "lobby"; recipient_id = none });
  payload = greeting;
  correlation_id = none;
  ack_required = false;
  origin_instance_id = none;
  origin_timestamp_ms = none;
}

abbrev pub ping : PulseEventEnvelope
ping = record lobby_message { type = EventType.sys_ping; seq = some 9; target = none }

abbrev pub lobby_join : PulseEventEnvelope
lobby_join = record lobby_message { type = EventType.room_join }

-- A hash for the tests: the text of the payload.
abbrev pub text_hash : Fields → String
text_hash (field k (str s) rest) = s
text_hash _ = ""

abbrev pub small_cache : IdempotencyManager
small_cache = record { capacity = 2; ttl_ms = 100; cache = [] }

abbrev pub first_entry : IdempotencyEntry
first_entry = record { event_id = "e0"; payload_hash = "hi"; ack_envelope = ping; timestamp = 10 }

abbrev pub second_entry : IdempotencyEntry
second_entry = record { event_id = "e2"; payload_hash = "ho"; ack_envelope = ping; timestamp = 20 }

abbrev pub full_cache : IdempotencyManager
full_cache = record small_cache { cache = ("e0", first_entry) ∷ ("e2", second_entry) ∷ [] }

-- Alice and bob are in the lobby.
abbrev pub lobby_rooms : RoomManager
lobby_rooms = record {
  rooms = ("lobby", ("c1", tt) ∷ ("c2", tt) ∷ []) ∷ [];
  has_channel_registry = false;
  rooms_active = some 1;
  calls = [];
}

abbrev pub full_bucket : TokenBucket
full_bucket = record {
  capacity = 5000;
  refill_rate = 1;
  tokens = 5000;
  last_refill_time = 0;
  violation_count = 0;
  last_violation_time = 0;
}

abbrev pub two_connections : ConnectionManager
two_connections = record {
  connections =
      ("c1", record { connection_id = "c1"; user_id = "alice" })
      ∷ ("c2", record { connection_id = "c2"; user_id = "bob" })
      ∷ [];
  user_connections = ("alice", ("c1", tt) ∷ []) ∷ ("bob", ("c2", tt) ∷ []) ∷ [];
  pending_connections = 0;
  max_connections = some 10;
  has_channel_registry = false;
  connections_active = none;
  calls = [];
  marked = [];
}

-- A socket whose buffer grows by one with each frame.
abbrev pub quick_socket : WebSocketLib
quick_socket = record {
  after_send = λ buffered e. some (buffered + 1);
  after_close = λ state code. some ReadyState.closing;
}

abbrev pub alice : Connection
alice = record {
  connection_id = "c1";
  user_id = "alice";
  last_seen_at = 0;
  last_seen_seq = 2;
  socket = record {
    ready_state = ReadyState.open_state;
    buffered_amount = 0;
    sent = [];
    closes = [];
  };
  max_buffered_amount_bytes = 100;
  token_bucket = full_bucket;
  rooms = ("lobby", tt) ∷ [];
  is_cleaned_up = false;
  is_heartbeat_timed_out = false;
  counted = [];
}

abbrev pub bob : Connection
bob = record alice { connection_id = "c2"; user_id = "bob" }

-- A connection that is in no room.
abbrev pub stranger : Connection
stranger = record alice { connection_id = "c3"; user_id = "eve"; rooms = [] }

abbrev pub node : Node
node = record {
  config = record {
    instance_id = "n1";
    max_rooms_per_connection = 2;
    max_room_id_length = 20;
    has_presence = true;
  };
  connection_manager = two_connections;
  store = λ id. if id =ₛ "c1" then alice else if id =ₛ "c2" then bob else stranger;
  room_manager = lobby_rooms;
  idempotency_manager = full_cache;
  presence_events = record { max_users = 5; last_seen_timestamps = [] };
  published = [];
  counted = [];
}

abbrev pub env : Env
env = record { now = 50; fresh_id = "f1"; reply_id = "r1"; redis_connected = true }

abbrev pub later_env : Env
later_env = record env { now = 90; reply_id = "r2" }
