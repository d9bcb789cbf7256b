-- ===== src/PulseClientSession/Backoff.antt =====
-- src/client/PulseClientSession.ts: the delay before a reconnection, and who schedules one.
use pulse_distributed_real_t.Prelude.{
  ℕ, true, false, not, some, ◌≤◌, ◌≡◌, ◌+◌, ◌-◌, ◌*◌, ◌||◌, min, max, arith, refl, if◌then◌else◌,
  subst, ◌&&◌, ap, sym, ◌∙◌,
}
use pulse_distributed_real_t.PulseClientSession.{
  PulseClientSession, ClientSessionState, compute_next_backoff_delay,
}
use pulse_distributed_real_t.PulseClientSession.Lifecycle.{
  on_close, handle_disconnect_or_error, is_connected, scheduled,
}

-- The delay is at least the base delay, at most the limit, and less than twice the base delay or
-- three times the delay before it. A draw of `n` is at most `n`, and the base delay within the limit.
pub compute_next_backoff_delay_lem :
    (s : PulseClientSession) (draw : ℕ → ℕ)
    → ((n : ℕ) → draw n ≤ n)
    → s.options.base_delay_ms ≤ s.options.max_delay_ms
    → let delay = (compute_next_backoff_delay s draw).last_backoff_delay in
      (s.options.base_delay_ms ≤ delay)
      × (delay ≤ s.options.max_delay_ms)
      × (delay ≤ max (s.options.base_delay_ms * 2) (s.last_backoff_delay * 3))
unfolding compute_next_backoff_delay
compute_next_backoff_delay_lem s draw below within =
    let base = s.options.base_delay_ms in
    let top = min s.options.max_delay_ms (s.last_backoff_delay * 3) in
    ground (arith, below base, below (top - base), within)

-- The session that waits for its reconnection.
abbrev waiting : PulseClientSession → (ℕ → ℕ) → PulseClientSession
waiting s draw = scheduled (
    compute_next_backoff_delay
      (record s {
        has_connection_timer = false;
        state = ClientSessionState.disconnected;
        reconnect_attempt = s.reconnect_attempt + 1;
      })
      draw)

on_close_online :
    (s : PulseClientSession) (draw : ℕ → ℕ)
    → s.state ≡ ClientSessionState.connected
    → s.is_explicitly_closed ≡ false
    → s.options.auto_reconnect ≡ true
    → on_close s draw ≡ waiting s draw
unfolding on_close handle_disconnect_or_error is_connected
on_close_online s draw connected kept auto =
    let t : PulseClientSession = record s {
      has_connection_timer = false;
      state = ClientSessionState.disconnected;
    } in
    let dropped : is_connected s.state && not s.is_explicitly_closed ≡ true =
      ground (arith, connected, kept) in
    let scheduling : s.is_explicitly_closed || not s.options.auto_reconnect ≡ false =
      ground (arith, kept, auto) in
    ap (λ b. if b then handle_disconnect_or_error t draw else t) dropped
    ∙ ap (λ b. if b then t else waiting s draw) scheduling

compute-keeps_attempt :
    (s : PulseClientSession) (draw : ℕ → ℕ)
    → (compute_next_backoff_delay s draw).reconnect_attempt ≡ s.reconnect_attempt
unfolding compute_next_backoff_delay
compute-keeps_attempt s draw = ground arith

-- A session that is connected, was not closed by its application and reconnects by itself counts an
-- attempt when its socket closes, and waits for the new delay, which is between the base delay and
-- the limit. A draw of `n` is at most `n`, and the base delay is within the limit.
pub on_close-reconnects :
    (s : PulseClientSession) (draw : ℕ → ℕ)
    → ((n : ℕ) → draw n ≤ n)
    → s.options.base_delay_ms ≤ s.options.max_delay_ms
    → s.state ≡ ClientSessionState.connected
    → s.is_explicitly_closed ≡ false
    → s.options.auto_reconnect ≡ true
    → let t = on_close s draw in
      (t.state ≡ ClientSessionState.reconnecting_backoff)
      × (t.reconnect_attempt ≡ s.reconnect_attempt + 1)
      × (t.reconnect_timer ≡ some t.last_backoff_delay)
      × (s.options.base_delay_ms ≤ t.last_backoff_delay)
      × (t.last_backoff_delay ≤ s.options.max_delay_ms)
on_close-reconnects s draw below within connected kept auto =
    let u : PulseClientSession = record s {
      has_connection_timer = false;
      state = ClientSessionState.disconnected;
      reconnect_attempt = s.reconnect_attempt + 1;
    } in
    let bounds = compute_next_backoff_delay_lem u draw below within in
    subst
      (λ t.
        (t.state ≡ ClientSessionState.reconnecting_backoff)
        × (t.reconnect_attempt ≡ s.reconnect_attempt + 1)
        × (t.reconnect_timer ≡ some t.last_backoff_delay)
        × (s.options.base_delay_ms ≤ t.last_backoff_delay)
        × (t.last_backoff_delay ≤ s.options.max_delay_ms))
      (sym (on_close_online s draw connected kept auto))
      (refl, compute-keeps_attempt u draw, refl, bounds.0, bounds.1)
