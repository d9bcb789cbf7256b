-- ===== src/HeartbeatManager/Reaping.antt =====
-- src/core/HeartbeatManager.ts: silent connections are closed and then terminated, others are kept.
use text.Mathlib.TextEquality.{eq_iff}
use pulse_distributed_real_t.JsMap.{contains}
use pulse_distributed_real_t.Connection.{Connection, WebSocketLib, close, send}
use pulse_distributed_real_t.ConnectionManager.{ConnectionManager, get_all_connections}
use pulse_distributed_real_t.HeartbeatManager.{
  HeartbeatManager, Terminator, List, sweep, String, ◌∷◌, map, ℕ, false, true, check_connection,
  store_at, is_stale, check_heartbeats, ping_envelope, terminate, is_quiet,
}
use pulse_distributed_real_t.Prelude.{
  List, String, map, ℕ, ◌≡◌, false, true, arith, [], Bool-cases, refl, ◌=ₛ◌, inl, inr, ◌∙◌, ap,
  subst, ◌≤◌, if◌then◌else◌,
}

-- No id twice.
abbrev pub IsUnique : List String → Type 0
IsUnique [] = Unit
IsUnique (id ∷ ids) = (contains id ids ≡ false) × IsUnique ids

abbrev pub ids_of : ConnectionManager → List String
ids_of m = map (λ c. c.connection_id) (get_all_connections m)

module _ (ws : WebSocketLib) (kill : Terminator) where
  sweep-other :
      (h : HeartbeatManager) (ids : List String) (store : String → Connection) (now : ℕ)
      (ping_id : String → String) (id : String)
      → contains id ids ≡ false
      → sweep ws kill h ids store now ping_id id ≡ store id
  unfolding sweep contains
  sweep-other h [] store now ping_id id out = refl
  sweep-other h (j ∷ ids) store now ping_id id out = ground (
    arith,
    out,
    sweep-other h ids (store_at store j (check_connection ws kill h (store j) now (ping_id j))) now
        ping_id id,
  )

  sweep-own :
      (h : HeartbeatManager) (ids : List String) (store : String → Connection) (now : ℕ)
      (ping_id : String → String) (id : String)
      → IsUnique ids
      → contains id ids ≡ true
      → sweep ws kill h ids store now ping_id id
        ≡ check_connection ws kill h (store id) now (ping_id id)
  unfolding sweep contains
  sweep-own h [] store now ping_id id u out = cc
  sweep-own h (j ∷ ids) store now ping_id id u out =
      let next = store_at store j (check_connection ws kill h (store j) now (ping_id j)) in
      elim (Bool-cases (j =ₛ id)) [
        | inl same ↦
            let e = (eq_iff j id).0 same in
            sweep-other h ids next now ping_id id (subst (λ x. contains x ids ≡ false) e u.0)
            ∙ ap (λ b. if b then check_connection ws kill h (store j) now (ping_id j) else store id)
                same
            ∙ ap (λ x. check_connection ws kill h (store x) now (ping_id x)) e
        | inr apart ↦
            sweep-own h ids next now ping_id id u.1 (ground (arith, out, apart))
            ∙ ap (λ c. check_connection ws kill h c now (ping_id id)) {x = next id} {y = store id}
                (ground (arith, apart))
      ]

  close-keeps :
      (c : Connection) (code : ℕ)
      → let d = close ws c code in
        (d.last_seen_at ≡ c.last_seen_at) × (d.is_heartbeat_timed_out ≡ c.is_heartbeat_timed_out)
  unfolding close
  close-keeps c code = (ground arith, ground arith)

  check_stale :
      (h : HeartbeatManager) (c : Connection) (now : ℕ) (ping : String)
      → is_stale h c now ≡ true
      → check_connection ws kill h c now ping ≡ (
          if c.is_heartbeat_timed_out
          then terminate kill c
          else close ws (record c { is_heartbeat_timed_out = true }) 1002)
  unfolding check_connection
  check_stale h c now ping stale =
      ap
        (λ b.
          if b
          then (if c.is_heartbeat_timed_out
              then terminate kill c
              else close ws (record c { is_heartbeat_timed_out = true }) 1002)
          else if is_quiet h c now
          then (send ws c (ping_envelope ping now)).0
          else c)
        stale

  still-stale :
      (h : HeartbeatManager) (c : Connection) (later now : ℕ)
      → is_stale h c now ≡ true
      → now ≤ later
      → is_stale h (close ws c 1002) later ≡ true
  still-stale h c later now stale le = ground (arith, stale, le, close-keeps c 1002)

  check_heartbeats-own :
      (h : HeartbeatManager) (m : ConnectionManager) (store : String → Connection) (now : ℕ)
      (ping_id : String → String) (id : String)
      → IsUnique (ids_of m)
      → contains id (ids_of m) ≡ true
      → check_heartbeats ws kill h m store now ping_id id
        ≡ check_connection ws kill h (store id) now (ping_id id)
  unfolding check_heartbeats
  check_heartbeats-own h m store now ping_id id unique there =
      sweep-own h (ids_of m) store now ping_id id unique there

  -- A registered connection that nothing was heard of for longer than the interval and the timeout,
  -- and that has not timed out, is marked and closed with code 1002 by a sweep. If nothing touches
  -- it in between, the next sweep terminates it. The manager lists each id once.
  pub check_heartbeats-reaps :
      (h : HeartbeatManager) (m : ConnectionManager) (store : String → Connection) (now later : ℕ)
      (ping_id : String → String) (id : String)
      → IsUnique (ids_of m)
      → contains id (ids_of m) ≡ true
      → is_stale h (store id) now ≡ true
      → (store id).is_heartbeat_timed_out ≡ false
      → now ≤ later
      → let first = check_heartbeats ws kill h m store now ping_id in
        let second = check_heartbeats ws kill h m first later ping_id in
        (first id ≡ close ws (record (store id) { is_heartbeat_timed_out = true }) 1002)
        × (second id ≡ terminate kill (first id))
  check_heartbeats-reaps h m store now later ping_id id unique there stale alive le =
      let c = store id in
      let first = check_heartbeats ws kill h m store now ping_id in
      let marked = record c { is_heartbeat_timed_out = true } in
      let closed =
        check_heartbeats-own h m store now ping_id id unique there
        ∙ check_stale h c now (ping_id id) stale
        ∙ ap (λ b. if b then terminate kill c else close ws marked 1002) alive in
      let (seen, timed_out) = close-keeps marked 1002 in
      (
        closed,
        check_heartbeats-own h m first later ping_id id unique there
            ∙ check_stale h (first id) later (ping_id id)
                (ap (λ x. is_stale h x later) closed ∙ still-stale h marked later now stale le)
            ∙ ap
                (λ b.
                  if b
                  then terminate kill (first id)
                  else close ws (record (first id) { is_heartbeat_timed_out = true }) 1002)
                (ap (λ x. x.is_heartbeat_timed_out) closed ∙ timed_out),
      )
