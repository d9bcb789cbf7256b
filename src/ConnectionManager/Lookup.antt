-- ===== src/ConnectionManager/Lookup.antt =====
-- `getConnectionsByUserId` finds exactly the user's connections.
use text.Mathlib.TextEquality.{eq_iff}
use pulse_distributed_real_t.JsMap.{get, has, keys, contains}
use pulse_distributed_real_t.JsMap.Laws.{contains-keys}
use pulse_distributed_real_t.ConnectionManager.{
  ConnectionManager, ConnectionRef, members_of, registered, get_connections_by_user_id,
}
use pulse_distributed_real_t.ConnectionManager.Index.{IsIndexed, is_of}
use pulse_distributed_real_t.Prelude.{
  String, arith, ◌≡◌, refl, List, [], ◌∷◌, map, ◌&&◌, Option-cases, inl, inr,
}

abbrev pub ids : List ConnectionRef → List String
ids cs = map (λ c. c.connection_id) cs

contains-registered :
    (m : ConnectionManager) (id : String) (wanted : List String)
    → IsIndexed m
    → contains id (ids (registered m.connections wanted))
      ≡ (contains id wanted && has id m.connections)
unfolding contains registered
contains-registered m id [] v = refl
contains-registered m id (w ∷ wanted) v = elim (Option-cases (get w m.connections)) [
  | inl e ↦ ground (arith, contains-registered m id wanted v, eq_iff w id)
  | inr (c, e) ↦ ground (arith, contains-registered m id wanted v, eq_iff w id, v.keyed w c e)
]

-- With an index that agrees with the connections, a connection is found for a user just when it is
-- registered under that user.
pub get_connections_by_user_id_lem :
    (m : ConnectionManager) (user id : String)
    → IsIndexed m
    → contains id (ids (get_connections_by_user_id m user)) ≡ is_of user (get id m.connections)
unfolding get_connections_by_user_id
get_connections_by_user_id_lem m user id v =
    let users = members_of (get user m.user_connections) in
    ground
      (arith, contains-registered m id (keys users) v, contains-keys id users, v.indexed user id)
