-- ===== src/PulseServer/Drain.antt =====
-- src/core/PulseServer.ts: whom draining tells.
use text.Mathlib.TextEquality.{eq_iff}
use pulse_distributed_real_t.Prelude.{
  ℕ, String, List, [], ◌∷◌, map, Option, true, false, if◌then◌else◌, ◌≡◌, ◌=ₛ◌, ◌∙◌, ap, arith,
  refl, inl, inr, Bool-cases, subst, sym,
}
use pulse_distributed_real_t.JsMap.{contains}
use pulse_distributed_real_t.Envelope.{PulseEventEnvelope}
use pulse_distributed_real_t.Connection.{WebSocketLib, send}
use pulse_distributed_real_t.Connection.Laws.{takes, sent_if, send_lem}
use pulse_distributed_real_t.ConnectionManager.{ConnectionRef, get_all_connections}
use pulse_distributed_real_t.HeartbeatManager.Reaping.{IsUnique, ids_of}
use pulse_distributed_real_t.Node.{Node, Env, send_to}
use pulse_distributed_real_t.PulseServer.{PulseServer}
use pulse_distributed_real_t.PulseServer.Lifecycle.{
  drain, send_to_all, shutdown_envelope, timeout_or,
}

abbrev ids : List ConnectionRef → List String
ids cs = map (λ c. c.connection_id) cs

module _ (ws : WebSocketLib) (e : PulseEventEnvelope) where
  send_to_all-other :
      (n : Node) (cs : List ConnectionRef) (id : String)
      → contains id (ids cs) ≡ false
      → (send_to_all ws n cs e).store id ≡ n.store id
  unfolding send_to_all contains send_to
  send_to_all-other n [] id out = refl
  send_to_all-other n (c ∷ cs) id out =
      ground (arith, out, send_to_all-other (send_to ws n c.connection_id e).0 cs id)

  send_to_all-own :
      (n : Node) (cs : List ConnectionRef) (id : String)
      → IsUnique (ids cs)
      → contains id (ids cs) ≡ true
      → (send_to_all ws n cs e).store id ≡ (send ws (n.store id) e).0
  unfolding send_to_all contains send_to
  send_to_all-own n [] id u out = cc
  send_to_all-own n (c ∷ cs) id u out =
      let next = (send_to ws n c.connection_id e).0 in
      elim (Bool-cases (c.connection_id =ₛ id)) [
        | inl same ↦
            let eq = (eq_iff c.connection_id id).0 same in
            send_to_all-other next cs id (subst (λ x. contains x (ids cs) ≡ false) eq u.0)
            ∙ ap (λ b. if b then (send ws (n.store c.connection_id) e).0 else n.store id) same
            ∙ ap (λ x. (send ws (n.store x) e).0) eq
        | inr apart ↦
            send_to_all-own next cs id u.1 (ground (arith, out, apart))
            ∙ ap (λ d. (send ws d e).0) {x = next.store id} {y = n.store id} (ground (arith, apart))
      ]

abbrev drained : WebSocketLib → PulseServer → Env → Option ℕ → PulseServer
drained ws s env timeout =
    let e = shutdown_envelope s.node env (timeout_or s.config.drain_timeout_ms timeout) in
    record s {
      is_shutting_down = true;
      node = send_to_all ws s.node (get_all_connections s.node.connection_manager) e;
    }

drain-first :
    (ws : WebSocketLib) (s : PulseServer) (env : Env) (timeout : Option ℕ)
    → s.is_shutting_down ≡ false
    → drain ws s env timeout ≡ drained ws s env timeout
unfolding drain
drain-first ws s env timeout h = ap (λ b. if b then s else drained ws s env timeout) h

drain-again :
    (ws : WebSocketLib) (s : PulseServer) (env : Env) (timeout : Option ℕ)
    → s.is_shutting_down ≡ true
    → drain ws s env timeout ≡ s
unfolding drain
drain-again ws s env timeout h = ap (λ b. if b then s else drained ws s env timeout) h

-- A server that does not drain yet sends the shutdown frame once, after what was sent before, to
-- each registered connection that takes a frame, and to nobody else. Draining again changes
-- nothing. The manager lists each id once.
pub drain_lem :
    (ws : WebSocketLib) (s : PulseServer) (env later : Env) (timeout again : Option ℕ) (id : String)
    → s.is_shutting_down ≡ false
    → IsUnique (ids_of s.node.connection_manager)
    → let e = shutdown_envelope s.node env (timeout_or s.config.drain_timeout_ms timeout) in
      let t = drain ws s env timeout in
      let c = s.node.store id in
      ((t.node.store id).socket.sent ≡ (
        if contains id (ids_of s.node.connection_manager)
        then sent_if (takes ws c e) e c.socket.sent
        else c.socket.sent))
      × (drain ws t later again ≡ t)
drain_lem ws s env later timeout again id h unique =
    let e = shutdown_envelope s.node env (timeout_or s.config.drain_timeout_ms timeout) in
    let cs = get_all_connections s.node.connection_manager in
    let c = s.node.store id in
    let first = drain-first ws s env timeout h in
    let told : ((send_to_all ws s.node cs e).store id).socket.sent
        ≡ (if contains id (ids cs) then sent_if (takes ws c e) e c.socket.sent else c.socket.sent) =
      elim (Bool-cases (contains id (ids cs))) [
        | inl there ↦
            ap (λ d. d.socket.sent) (send_to_all-own ws e s.node cs id unique there)
            ∙ (send_lem ws c e).1
            ∙ sym (
                ap (λ b. if b then sent_if (takes ws c e) e c.socket.sent else c.socket.sent) there)
        | inr apart ↦
            ap (λ d. d.socket.sent) (send_to_all-other ws e s.node cs id apart)
            ∙ sym (
                ap (λ b. if b then sent_if (takes ws c e) e c.socket.sent else c.socket.sent) apart)
      ] in
    (
      ap (λ t. (t.node.store id).socket.sent) first ∙ told,
      drain-again ws (drain ws s env timeout) later again (ap (λ t. t.is_shutting_down) first),
    )
