-- ===== src/ConnectionManager/Admission.antt =====
-- Admission: slots are reserved before an upgrade and turned into connections after it.
use pulse_distributed_real_t.JsMap.{get, size, IsDistinct}
use pulse_distributed_real_t.JsMap.Laws.{
  length-set, length-delete, set-IsDistinct, delete-IsDistinct,
}
use pulse_distributed_real_t.ConnectionManager.{
  ConnectionManager, ConnectionRef, new_connection_manager, try_acquire_slot, release_pending_slot,
  add_connection, remove_connection,
}
use pulse_distributed_real_t.Prelude.{
  ℕ, ◌+◌, ◌≤◌, ◌<◌, String, arith, none, some, ◌≡◌, refl, Bool, ◌⊎◌, Option-cases, inl, inr,
}

-- One call of the server. An upgrade that succeeds holds a slot when it is registered.
pub data Step : ConnectionManager → ConnectionManager → Type 0 where
  acquire : (m : ConnectionManager) → Step m (try_acquire_slot m).0
  release : (m : ConnectionManager) → Step m (release_pending_slot m)
  register :
      (m : ConnectionManager) (c : ConnectionRef)
      → 0 < m.pending_connections
      → Step m (add_connection m c)
  unregister : (m : ConnectionManager) (id : String) → Step m (remove_connection m id).0

pub data Reach (m : ConnectionManager) : ConnectionManager → Type 0 where
  here : Reach m m
  next : {n k : ConnectionManager} → Reach m n → Step n k → Reach m k

-- Connections and reserved slots together are within the limit, and the gauge tells the count.
pub record IsAdmitted (limit : ℕ) (m : ConnectionManager) : Type 0 where
  pub distinct : IsDistinct m.connections
  pub limited : m.max_connections ≡ some limit
  pub bounded : size m.connections + m.pending_connections ≤ limit
  pub gauged : (m.connections_active ≡ none) ⊎ (m.connections_active ≡ some (size m.connections))

remove_connection-IsAdmitted :
    (limit : ℕ) (m : ConnectionManager) (id : String)
    → IsAdmitted limit m
    → IsAdmitted limit (remove_connection m id).0
unfolding remove_connection
remove_connection-IsAdmitted limit m id v = elim (Option-cases (get id m.connections)) [
  | inl e ↦ rw (e, remove_connection) v
  | inr (c, e) ↦
      rw (e, remove_connection)
        (record {
          distinct = delete-IsDistinct id m.connections v.distinct;
          limited = v.limited;
          bounded = ground (arith, length-delete id m.connections v.distinct);
          gauged = ground arith;
        })
]

pub Step-IsAdmitted :
    (limit : ℕ) {m n : ConnectionManager} → Step m n → IsAdmitted limit m → IsAdmitted limit n
unfolding try_acquire_slot release_pending_slot add_connection
Step-IsAdmitted limit (acquire m) v = ground arith
Step-IsAdmitted limit (release m) v = ground arith
Step-IsAdmitted limit (register m c h) v = record {
  distinct = ground (arith, set-IsDistinct c.connection_id c m.connections v.distinct);
  limited = ground arith;
  bounded = ground (arith, length-set c.connection_id c m.connections);
  gauged = ground arith;
}
Step-IsAdmitted limit (unregister m id) v = remove_connection-IsAdmitted limit m id v

Reach-IsAdmitted :
    (limit : ℕ) {m n : ConnectionManager} → Reach m n → IsAdmitted limit m → IsAdmitted limit n
Reach-IsAdmitted limit here v = v
Reach-IsAdmitted limit (next r s) v = Step-IsAdmitted limit s (Reach-IsAdmitted limit r v)

-- However reservations, releases, registrations that hold a slot and removals follow each other, a
-- new manager with a limit never comes to more connections and reserved slots together than the
-- limit, and its gauge, if there is one, tells the number of its connections.
pub Reach-bounded :
    (has_channel_registry has_metrics : Bool) (limit : ℕ) (n : ConnectionManager)
    → Reach (new_connection_manager has_channel_registry has_metrics (some limit)) n
    → (size n.connections + n.pending_connections ≤ limit)
      × ((n.connections_active ≡ none) ⊎ (n.connections_active ≡ some (size n.connections)))
unfolding new_connection_manager
Reach-bounded r b limit n reach =
    let v =
      Reach-IsAdmitted limit reach
        (record { distinct = tt; limited = refl; bounded = omega arith; gauged = ground arith }) in
    (v.bounded, v.gauged)
