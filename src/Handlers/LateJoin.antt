-- ===== src/Handlers/LateJoin.antt =====
-- A join that waits for the presence manager, and a frame that is handled meanwhile.
use pulse_distributed_real_t.Prelude.{
  ℕ, String, Option, some, ◌≡◌, arith, ◌<◌, if-holds, ◌∙◌, =ₛ_refl,
}
use text.Mathlib.TextEquality.{eq_iff}
use pulse_distributed_real_t.Envelope.{PulseEventEnvelope}
use pulse_distributed_real_t.Connection.{WebSocketLib}
use pulse_distributed_real_t.Connection.Laws.{send-keeps}
use pulse_distributed_real_t.Node.{Node, Env, send_to, accept_seq}
use pulse_distributed_real_t.Handlers.Messaging.{handle_ping}
use pulse_distributed_real_t.Handlers.Joining.{
  Roster, Progress, continue_room_join, finish_room_join, resume, joining,
}

-- The sequence number that the node holds for a connection.
abbrev pub seq_at : Node → String → ℕ
seq_at n id = (n.store id).last_seen_seq

accept_seq-seq_at :
    (n : Node) (id : String) (e : PulseEventEnvelope) (seq : ℕ)
    → e.seq ≡ some seq
    → seq_at (accept_seq n id e) id ≡ seq
unfolding accept_seq
accept_seq-seq_at n id e seq h = ground (arith, =ₛ_refl id)

module _ (ws : WebSocketLib) where
  send_to-seq_at :
      (n : Node) (id j : String) (e : PulseEventEnvelope)
      → seq_at (send_to ws n id e).0 j ≡ seq_at n j
  unfolding send_to
  send_to-seq_at n id j e = ground (arith, send-keeps ws (n.store id) e, eq_iff id j)

  ping-seq_at :
      (env : Env) (n : Node) (id : String) (ping : PulseEventEnvelope) (seq : ℕ)
      → ping.seq ≡ some seq
      → seq_at (handle_ping ws env n id ping) id ≡ seq
  unfolding handle_ping
  ping-seq_at env n id ping seq h =
      send_to-seq_at (accept_seq n id ping) id id _ ∙ accept_seq-seq_at n id ping seq h

  join-seq_at :
      (env : Env) (n : Node) (id room_id : String) (join : PulseEventEnvelope) (seq : ℕ)
      → join.seq ≡ some seq
      → seq_at (continue_room_join ws env n id join room_id).0 id ≡ seq
  unfolding continue_room_join finish_room_join
  join-seq_at env n id room_id join seq h =
      let accepted = accept_seq-seq_at n id join seq h in
      if-holds (λ (p : Progress). seq_at p.0 id ≡ seq) n.config.has_presence _ _ (λ _. accepted)
        (λ _. send_to-seq_at (accept_seq n id join) id id _ ∙ accepted)

  -- While a join waits for the presence manager a ping with a later sequence number is handled. It
  -- raises the sender's sequence number to its own, and the join that comes back lowers that to the
  -- join's.
  pub late_join-lowers :
      (env later : Env) (n : Node) (id room_id : String) (join ping : PulseEventEnvelope)
      (early late : ℕ) (roster : Option Roster)
      → join.seq ≡ some early
      → ping.seq ≡ some late
      → early < late
      → let pinged = handle_ping ws env n id ping in
        let back = (resume ws later pinged (joining id join room_id) roster).0 in
        (seq_at pinged id ≡ late) × (seq_at back id ≡ early) × (seq_at back id < seq_at pinged id)
  unfolding resume
  late_join-lowers env later n id room_id join ping early late roster h h' lt =
      let pinged = handle_ping ws env n id ping in
      let raised = ping-seq_at env n id ping late h' in
      let lowered = join-seq_at later pinged id room_id join early h in
      (raised, lowered, omega (arith, raised, lowered, lt))
