-- ===== src/PulseClientSession/History.antt =====
-- src/client/PulseClientSession.ts: all events as moves, and histories of events.
use pulse_distributed_real_t.Prelude.{
  ℕ, List, ◌+◌, ◌||◌, Option, refl, [], ◌∷◌, none, Bool, true, false, not, arith, if-holds, ◌==◌,
  ◌&&◌,
}
use pulse_distributed_real_t.PulseClientSession.{
  PulseClientSession, compute_next_backoff_delay, SessionOptions, InFlightEntry, ClientSessionState,
}
use pulse_distributed_real_t.PulseClientSession.Lifecycle.{
  handle_disconnect_or_error, connect, scheduled, on_connection_timeout, on_close, on_error,
  on_reconnect_timer, is_connecting, is_connected, is_unestablished,
}
use pulse_distributed_real_t.PulseClientSession.Requests.{
  ClientEvent, disconnect, is_closable, step, run, finish_disconnect,
}
use pulse_distributed_real_t.PulseClientSession.Moves.{Property, Holding, IsKept}
use pulse_distributed_real_t.PulseClientSession.Quiet.{is_quiet, quiet-keeps}
use pulse_distributed_real_t.JsMap.{JsMap}

-- The property does not depend on closing and scheduling.
abbrev pub IsFree : Property → Type 0
IsFree Q =
    (options : SessionOptions) (entries : ℕ → InFlightEntry) (next : ℕ) (queue : JsMap ℕ)
    (c d : Bool) (t u : Option ℕ)
    → Q options entries next queue c t
    → Q options entries next queue d u

module _ (Q : Property) (laws : IsKept Q) (free : IsFree Q) where
  abbrev Holds : PulseClientSession → Type 0
  Holds s = Holding Q s

  freely :
      (s : PulseClientSession) (closed : Bool) (timer : Option ℕ)
      → Holds s
      → Holds (record s { is_explicitly_closed = closed; reconnect_timer = timer })
  freely s closed timer v =
      free s.options s.entries s.next_entry s.in_flight_queue s.is_explicitly_closed closed
        s.reconnect_timer timer v

  -- Nothing but entries, queue and options matters.
  handle_disconnect_or_error-keeps :
      (s : PulseClientSession) (draw : ℕ → ℕ) → Holds s → Holds (handle_disconnect_or_error s draw)
  unfolding handle_disconnect_or_error compute_next_backoff_delay
  handle_disconnect_or_error-keeps s draw v =
      let t : PulseClientSession = record s { reconnect_attempt = s.reconnect_attempt + 1 } in
      if-holds Holds (s.is_explicitly_closed || not s.options.auto_reconnect) _ _ (λ _. v)
        (λ _.
          if-holds (λ u. Holds (scheduled u))
            (t.reconnect_attempt == 0 || s.last_backoff_delay == 0) _ _
            (λ _. freely s s.is_explicitly_closed _ v) (λ _. freely s s.is_explicitly_closed _ v))

  connect-keeps :
      (s : PulseClientSession) (refused : Bool) (draw : ℕ → ℕ)
      → Holds s
      → Holds (connect s refused draw)
  unfolding connect
  connect-keeps s refused draw v =
      let t : PulseClientSession = record s {
        is_explicitly_closed = false;
        reconnect_timer = none;
        current_seq = 0;
        state = ClientSessionState.disconnected;
      } in
      let w = freely s false none v in
      if-holds Holds refused _ _ (λ _. handle_disconnect_or_error-keeps t draw w) (λ _. w)

  disconnect-keeps : (s : PulseClientSession) → Holds s → Holds (disconnect s)
  unfolding disconnect finish_disconnect
  disconnect-keeps s v =
      let t : PulseClientSession = record s {
        is_explicitly_closed = true;
        reconnect_timer = none;
        has_connection_timer = false;
      } in
      let w = laws.rejected t (freely s true none v) in
      if-holds Holds (is_closable s.socket) _ _ (λ _. w) (λ _. w)

  on_reconnect_timer-keeps :
      (s : PulseClientSession) (refused : Bool) (draw : ℕ → ℕ)
      → Holds s
      → Holds (on_reconnect_timer s refused draw)
  unfolding on_reconnect_timer
  on_reconnect_timer-keeps s refused draw v = ground (arith, v, connect-keeps s refused draw)

  on_connection_timeout-keeps :
      (s : PulseClientSession) (draw : ℕ → ℕ) → Holds s → Holds (on_connection_timeout s draw)
  unfolding on_connection_timeout
  on_connection_timeout-keeps s draw v =
      let t : PulseClientSession = record s {
        has_connection_timer = false;
        state = ClientSessionState.disconnected;
      } in
      if-holds Holds (s.has_connection_timer && is_unestablished s.state) _ _
        (λ _. handle_disconnect_or_error-keeps t draw v) (λ _. v)

  on_close-keeps : (s : PulseClientSession) (draw : ℕ → ℕ) → Holds s → Holds (on_close s draw)
  unfolding on_close
  on_close-keeps s draw v =
      let t : PulseClientSession = record s {
        has_connection_timer = false;
        state = ClientSessionState.disconnected;
      } in
      if-holds Holds (is_connected s.state && not s.is_explicitly_closed) _ _
        (λ _. handle_disconnect_or_error-keeps t draw v) (λ _. v)

  on_error-keeps : (s : PulseClientSession) (draw : ℕ → ℕ) → Holds s → Holds (on_error s draw)
  unfolding on_error
  on_error-keeps s draw v =
      let t : PulseClientSession = record s {
        has_connection_timer = false;
        state = ClientSessionState.disconnected;
      } in
      if-holds Holds (is_connecting s.state) _ _ (λ _. handle_disconnect_or_error-keeps t draw v)
        (λ _. v)

  pub step-keeps : (s : PulseClientSession) (event : ClientEvent) → Holds s → Holds (step s event)
  unfolding step is_quiet
  step-keeps s (ClientEvent.connect_called refused draw) v = connect-keeps s refused draw v
  step-keeps s (ClientEvent.socket_closed draw) v = on_close-keeps s draw v
  step-keeps s (ClientEvent.socket_failed draw) v = on_error-keeps s draw v
  step-keeps s (ClientEvent.connection_timed_out draw) v = on_connection_timeout-keeps s draw v
  step-keeps s (ClientEvent.reconnect_fired refused draw) v =
      on_reconnect_timer-keeps s refused draw v
  step-keeps s ClientEvent.disconnect_called v = disconnect-keeps s v
  step-keeps s quiet v = quiet-keeps Q laws s quiet refl v

  pub run-keeps :
      (s : PulseClientSession) (events : List ClientEvent) → Holds s → Holds (run s events)
  unfolding run
  run-keeps s [] v = v
  run-keeps s (event ∷ events) v = run-keeps (step s event) events (step-keeps s event v)
