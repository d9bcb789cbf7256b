-- ===== src/Tests/Client.antt =====
-- The client's session in concrete histories.
use pulse_distributed_real_t.Prelude.{
  ℕ, List, [], ◌∷◌, ◌++◌, none, some, true, false, if◌then◌else◌, ◌≡◌, ◌+◌, ◌/◌, ◌≤◌, arith, refl,
}
use pulse_distributed_real_t.JsMap.{size, get, set, delete}
use pulse_distributed_real_t.Envelope.{PulseEventEnvelope, EventType}
use pulse_distributed_real_t.Connection.{ReadyState}
use pulse_distributed_real_t.PulseClientSession.{
  PulseClientSession, SessionOptions, InFlightEntry, ClientSessionState, Settlement, new_session,
  new_entry, is_ready, on_ack_timeout,
}
use pulse_distributed_real_t.PulseClientSession.Lifecycle.{
  Stamp, is_settled, flush_retry_queue, on_close, on_resubscribed, awaits,
}
use pulse_distributed_real_t.PulseClientSession.Requests.{ClientEvent, run, disconnect}
use pulse_distributed_real_t.PulseClientSession.Entries.{IsValid}
use pulse_distributed_real_t.PulseClientSession.Queue.{run_new_session-IsValid}
use pulse_distributed_real_t.PulseClientSession.Deadline.{run-settles, firings, fires}
use pulse_distributed_real_t.PulseClientSession.Backoff.{on_close-reconnects}
use pulse_distributed_real_t.PulseClientSession.Resequence.{resent, flush_retry_queue_lem}
use pulse_distributed_real_t.PulseClientSession.Reconnect.{run-disconnect-stays_closed, is_connect}
use pulse_distributed_real_t.PulseClientSession.Stranded.{on_close-IsStranded}
use pulse_distributed_real_t.Tests.Data.{ping}

abbrev session_options : SessionOptions
session_options = record {
  user_id = "alice";
  base_delay_ms = 500;
  max_delay_ms = 10000;
  max_retries = 1;
  queue_capacity = 1;
  auto_reconnect = true;
}

abbrev half : ℕ → ℕ
half n = n / 2

abbrev stamp : Stamp
stamp = record { event_id = "e1"; now = 1000; correlation_id = "r1" }

abbrev connect_ack : PulseEventEnvelope
connect_ack = record ping { type = EventType.sys_connect_ack }

abbrev unused_entry : ℕ → InFlightEntry
unused_entry i = new_entry "" ping

abbrev opening : List ClientEvent
opening =
    ClientEvent.connect_called false half
    ∷ ClientEvent.ready_state_changed ReadyState.open_state
    ∷ ClientEvent.opened
    ∷ ClientEvent.received connect_ack stamp
    ∷ []

abbrev joining : List ClientEvent
joining = opening ++ (ClientEvent.join_called "lobby" stamp ∷ [])

abbrev fired : ClientEvent
fired = ClientEvent.ack_timer_fired 0

abbrev after : List ClientEvent → PulseClientSession
after events = run (new_session session_options unused_entry) events

abbrev after-IsValid : (events : List ClientEvent) → IsValid (after events)
after-IsValid events = run_new_session-IsValid session_options unused_entry events

-- The room is known, the socket drops, the session reconnects and asks for its room again; that request
-- has been sent twice.
abbrev resubscribing : List ClientEvent
resubscribing =
    joining
    ++ (fired
        ∷ fired
        ∷ ClientEvent.socket_closed half
        ∷ ClientEvent.reconnect_fired false half
        ∷ ClientEvent.ready_state_changed ReadyState.open_state
        ∷ ClientEvent.opened
        ∷ ClientEvent.received connect_ack stamp
        ∷ ClientEvent.ack_timer_fired 1
        ∷ [])

-- What the histories come to.
opened :
    let s = after opening in
    (s.options.base_delay_ms ≤ s.options.max_delay_ms)
    × (s.state ≡ ClientSessionState.connected)
    × (s.is_explicitly_closed ≡ false)
    × (s.options.auto_reconnect ≡ true)
unfolding run new_session set delete get is_settled awaits
opened = (omega arith, refl, refl, refl)

joined :
    let s = after joining in
    (s.next_entry ≡ 1)
    × ((s.entries 0).retries ≡ 0)
    × (s.options.max_retries ≡ 1)
    × (s.options.queue_capacity ≡ 1)
    × (size s.in_flight_queue ≡ 1)
    × (size s.desired_rooms ≡ 1)
unfolding run new_session set delete get is_settled awaits
joined = (refl, refl, refl, refl, refl, refl)

waits_again :
    let s = after resubscribing in
    (s.state ≡ ClientSessionState.resubscribing_rooms)
    × (awaits 1 s.resubscribing ≡ true)
    × (s.next_entry ≡ 2)
    × ((s.entries 1).settlement ≡ Settlement.pending)
    × ((s.entries 1).retries ≡ 1)
    × (s.options.max_retries ≡ 1)
unfolding run new_session set delete get is_settled awaits
waits_again = (refl, refl, refl, refl, refl, refl)

run_new_session-IsValid_example : IsValid (after (joining ++ (fired ∷ fired ∷ [])))
run_new_session-IsValid_example =
    run_new_session-IsValid session_options unused_entry (joining ++ (fired ∷ fired ∷ []))

run-settles_example :
    is_settled
      ((run (after joining) (fired ∷ ClientEvent.disconnect_called ∷ fired ∷ [])).entries
        0).settlement
    ≡ true
unfolding firings fires
run-settles_example =
    run-settles (after joining) (fired ∷ ClientEvent.disconnect_called ∷ fired ∷ []) 0
      (after-IsValid joining) (ground (arith, joined)) (ground (arith, joined))

half-bounded : (n : ℕ) → half n ≤ n
half-bounded n = omega arith

on_close-reconnects_example :
    let s = after opening in
    let t = on_close s half in
    (t.state ≡ ClientSessionState.reconnecting_backoff)
    × (t.reconnect_attempt ≡ s.reconnect_attempt + 1)
    × (t.reconnect_timer ≡ some t.last_backoff_delay)
    × (s.options.base_delay_ms ≤ t.last_backoff_delay)
    × (t.last_backoff_delay ≤ s.options.max_delay_ms)
on_close-reconnects_example =
    on_close-reconnects (after opening) half half-bounded opened.0 opened.1 opened.2 opened.3

flush_retry_queue_lem_example :
    let s = after joining in
    let t = flush_retry_queue s in
    let frames = resent s.entries s.current_seq s.in_flight_queue in
    (t.current_seq ≡ s.current_seq + size s.in_flight_queue)
    × (t.transmitted ≡ (if is_ready s.socket then s.transmitted ++ frames else s.transmitted))
flush_retry_queue_lem_example = flush_retry_queue_lem (after joining)

run-disconnect-stays_closed_example :
    let t =
      run
        (disconnect (after joining))
        (ClientEvent.socket_closed half ∷ ClientEvent.disconnect_finished ∷ []) in
    (t.is_explicitly_closed ≡ true) × (t.reconnect_timer ≡ none)
unfolding is_connect
run-disconnect-stays_closed_example =
    run-disconnect-stays_closed (after joining)
      (ClientEvent.socket_closed half ∷ ClientEvent.disconnect_finished ∷ [])
      (after-IsValid joining) (refl, (refl, tt))

on_close-IsStranded_example :
    let s = after resubscribing in
    let t = on_resubscribed (on_ack_timeout (on_close s half) 1) 1 in
    (t.state ≡ ClientSessionState.connected)
    × (t.socket ≡ s.socket)
    × (t.reconnect_timer ≡ s.reconnect_timer)
on_close-IsStranded_example =
    on_close-IsStranded (after resubscribing) half 1 (after-IsValid resubscribing) waits_again.0
      waits_again.1 (ground (arith, waits_again)) waits_again.3 (ground (arith, waits_again))
