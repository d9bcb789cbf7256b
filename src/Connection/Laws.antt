-- ===== src/Connection/Laws.antt =====
-- What `send` and `close` do on every branch.
use pulse_distributed_real_t.Prelude.{
  List, [], ◌∷◌, ◌++◌, Bool, true, false, not, ◌≡◌, arith, ltb, ◌&&◌, is_some,
}
use pulse_distributed_real_t.Envelope.{PulseEventEnvelope}
use pulse_distributed_real_t.Connection.{Connection, WebSocketLib, is_open, send}

-- The connection takes a frame now: its socket is open, is not too far behind, and does not throw.
abbrev pub takes : WebSocketLib → Connection → PulseEventEnvelope → Bool
takes ws c e =
    is_open c.socket.ready_state
    && not (ltb c.max_buffered_amount_bytes c.socket.buffered_amount)
    && is_some (ws.after_send c.socket.buffered_amount e)

abbrev pub sent_if : Bool → PulseEventEnvelope → List PulseEventEnvelope → List PulseEventEnvelope
sent_if true e es = es ++ e ∷ []
sent_if false e es = es

-- A frame is sent once, after those before it, just when the socket is open, its buffer is within
-- the limit and the library does not throw, and `send` answers whether it was.
pub send_lem :
    (ws : WebSocketLib) (c : Connection) (e : PulseEventEnvelope)
    → ((send ws c e).1 ≡ takes ws c e)
      × ((send ws c e).0.socket.sent ≡ sent_if (takes ws c e) e c.socket.sent)
unfolding send
send_lem ws c e = (ground arith, ground arith)

-- Nothing else of a connection is changed by `send` but its socket and its counters.
pub send-keeps :
    (ws : WebSocketLib) (c : Connection) (e : PulseEventEnvelope)
    → let d = (send ws c e).0 in
      (d.connection_id ≡ c.connection_id)
      × (d.user_id ≡ c.user_id)
      × (d.rooms ≡ c.rooms)
      × (d.last_seen_seq ≡ c.last_seen_seq)
unfolding send
send-keeps ws c e = (ground arith, ground arith, ground arith, ground arith)
