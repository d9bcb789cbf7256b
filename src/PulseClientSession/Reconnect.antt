-- ===== src/PulseClientSession/Reconnect.antt =====
-- src/client/PulseClientSession.ts: sessions that their application closed.
use pulse_distributed_real_t.Prelude.{
  ℕ, List, [], ◌∷◌, none, Option, Bool, true, false, ◌≡◌, not, ◌&&◌, ◌||◌, arith, if-holds, refl,
  ◌∙◌, subst, All, sym,
}
use pulse_distributed_real_t.JsMap.{JsMap}
use pulse_distributed_real_t.PulseClientSession.{
  PulseClientSession, InFlightEntry, SessionOptions, ClientSessionState, Settlement, put_entry,
  close_entry,
}
use pulse_distributed_real_t.PulseClientSession.Lifecycle.{
  handle_disconnect_or_error, on_close, on_error, on_connection_timeout, on_reconnect_timer,
  is_connected, is_connecting, is_unestablished,
}
use pulse_distributed_real_t.PulseClientSession.Requests.{
  ClientEvent, step, run, reject_all, disconnect, finish_disconnect, is_closable,
}
use pulse_distributed_real_t.PulseClientSession.Entries.{
  AreValid, IsValid, put-IsValid, settle-IsValid, with_entry-IsValid, all_rejected-IsValid,
}
use pulse_distributed_real_t.PulseClientSession.Moves.{Holding, IsKept}
use pulse_distributed_real_t.PulseClientSession.Quiet.{is_quiet, quiet-keeps}

-- Closed by the application, and no reconnection is scheduled.
pub record AreAtRest (options : SessionOptions) (entries : ℕ → InFlightEntry) (next : ℕ)
    (queue : JsMap ℕ) (closed : Bool) (timer : Option ℕ) : Type 0 where
  pub valid : AreValid options entries next queue
  pub stopped : closed ≡ true
  pub unscheduled : timer ≡ none

abbrev pub IsAtRest : PulseClientSession → Type 0
IsAtRest s = Holding AreAtRest s

reject_all-keeps_rest :
    (s : PulseClientSession) (m : JsMap ℕ)
    → let t = reject_all s m in
      (t.is_explicitly_closed ≡ s.is_explicitly_closed) × (t.reconnect_timer ≡ s.reconnect_timer)
unfolding reject_all
reject_all-keeps_rest s [] = (refl, refl)
reject_all-keeps_rest s ((id, i) ∷ rest) =
    reject_all-keeps_rest (put_entry s i (close_entry (s.entries i) Settlement.session_closed)) rest

AreAtRest-IsKept : IsKept AreAtRest
unfolding reject_all
AreAtRest-IsKept = record {
  valid = λ s r. r.valid;
  retried = λ s i e r t same named more. record {
    valid = put-IsValid s i e r.valid t same named;
    stopped = r.stopped;
    unscheduled = r.unscheduled;
  };
  settled = λ s i outcome r made h. record {
    valid = settle-IsValid s i outcome r.valid made h;
    stopped = r.stopped;
    unscheduled = r.unscheduled;
  };
  made = λ s id e r free. record {
    valid = with_entry-IsValid s id e r.valid free;
    stopped = r.stopped;
    unscheduled = r.unscheduled;
  };
  rejected = λ s r.
      let kept = reject_all-keeps_rest s s.in_flight_queue in
      record {
        valid = all_rejected-IsValid s r.valid;
        stopped = kept.0 ∙ r.stopped;
        unscheduled = kept.1 ∙ r.unscheduled;
      };
}

handle_closed :
    (s : PulseClientSession) (draw : ℕ → ℕ)
    → s.is_explicitly_closed ≡ true
    → handle_disconnect_or_error s draw ≡ s
unfolding handle_disconnect_or_error
handle_closed s draw h =
    if-holds (λ (u : PulseClientSession). u ≡ s)
      (s.is_explicitly_closed || not s.options.auto_reconnect) _ _ (λ _. refl)
      (λ open_still. absurd (ground (arith, open_still, h)))

pub disconnect-IsAtRest : (s : PulseClientSession) → IsValid s → IsAtRest (disconnect s)
unfolding disconnect finish_disconnect reject_all
disconnect-IsAtRest s v =
    let t : PulseClientSession = record s {
      is_explicitly_closed = true;
      reconnect_timer = none;
      has_connection_timer = false;
    } in
    let w =
      AreAtRest-IsKept.rejected t (record { valid = v; stopped = refl; unscheduled = refl }) in
    if-holds IsAtRest (is_closable s.socket) _ _ (λ _. w) (λ _. w)

-- The application asks for a connection.
unfoldable pub is_connect : ClientEvent → Bool
is_connect (ClientEvent.connect_called refused draw) = true
is_connect other = false

on_reconnect_timer_unscheduled :
    (s : PulseClientSession) (refused : Bool) (draw : ℕ → ℕ)
    → s.reconnect_timer ≡ none
    → on_reconnect_timer s refused draw ≡ s
unfolding on_reconnect_timer
on_reconnect_timer_unscheduled s refused draw h = ground (arith, h)

handle-IsAtRest :
    (s : PulseClientSession) (draw : ℕ → ℕ)
    → IsAtRest s
    → IsAtRest (handle_disconnect_or_error s draw)
handle-IsAtRest s draw r = subst IsAtRest (sym (handle_closed s draw r.stopped)) r

step-IsAtRest :
    (s : PulseClientSession) (event : ClientEvent)
    → is_connect event ≡ false
    → IsAtRest s
    → IsAtRest (step s event)
unfolding step is_connect is_quiet on_close on_error on_connection_timeout
step-IsAtRest s (ClientEvent.connect_called refused draw) h r = cc
step-IsAtRest s (ClientEvent.socket_closed draw) h r =
    let t : PulseClientSession = record s {
      has_connection_timer = false;
      state = ClientSessionState.disconnected;
    } in
    if-holds IsAtRest (is_connected s.state && not s.is_explicitly_closed) _ _
      (λ _. handle-IsAtRest t draw r) (λ _. r)
step-IsAtRest s (ClientEvent.socket_failed draw) h r =
    let t : PulseClientSession = record s {
      has_connection_timer = false;
      state = ClientSessionState.disconnected;
    } in
    if-holds IsAtRest (is_connecting s.state) _ _ (λ _. handle-IsAtRest t draw r) (λ _. r)
step-IsAtRest s (ClientEvent.connection_timed_out draw) h r =
    let t : PulseClientSession = record s {
      has_connection_timer = false;
      state = ClientSessionState.disconnected;
    } in
    if-holds IsAtRest (s.has_connection_timer && is_unestablished s.state) _ _
      (λ _. handle-IsAtRest t draw r) (λ _. r)
step-IsAtRest s (ClientEvent.reconnect_fired refused draw) h r =
    subst IsAtRest (sym (on_reconnect_timer_unscheduled s refused draw r.unscheduled)) r
step-IsAtRest s ClientEvent.disconnect_called h r = disconnect-IsAtRest s r.valid
step-IsAtRest s quiet h r = quiet-keeps AreAtRest AreAtRest-IsKept s quiet refl r

-- No event of the history is a call of `connect`.
abbrev pub HasNoConnect : List ClientEvent → Type 0
HasNoConnect events = All (λ event. is_connect event ≡ false) events

run-IsAtRest :
    (s : PulseClientSession) (events : List ClientEvent)
    → HasNoConnect events
    → IsAtRest s
    → IsAtRest (run s events)
unfolding run
run-IsAtRest s [] h r = r
run-IsAtRest s (event ∷ events) h r =
    run-IsAtRest (step s event) events h.1 (step-IsAtRest s event h.0 r)

-- After `disconnect` of a valid session, and until the application calls `connect` again, the
-- session counts as closed and no reconnection is scheduled, whatever happens.
pub run-disconnect-stays_closed :
    (s : PulseClientSession) (events : List ClientEvent)
    → IsValid s
    → HasNoConnect events
    → let t = run (disconnect s) events in
      (t.is_explicitly_closed ≡ true) × (t.reconnect_timer ≡ none)
run-disconnect-stays_closed s events v h =
    let r = run-IsAtRest (disconnect s) events h (disconnect-IsAtRest s v) in
    (r.stopped, r.unscheduled)
