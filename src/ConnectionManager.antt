-- ===== src/ConnectionManager.antt =====
-- src/core/ConnectionManager.ts. A connection is known here by its two fixed fields; the object
-- itself lives in the node's store (`Connection`). The calls on the channel registry are kept in
-- order in `calls`, and the connections marked as cleaned up in `marked`. The logger is left out.
pub mod Admission
pub mod Index
pub mod Lookup
use pulse_distributed_real_t.Prelude.{
  ℕ, zero, suc, ◌+◌, ◌-◌, String, List, [], ◌∷◌, ◌++◌, Option, none, some, Bool, true, false, not,
  ◌&&◌, ◌==◌, if◌then◌else◌, ltb, leb, map,
}
use pulse_distributed_real_t.JsMap.{JsMap, JsSet, get, set, delete, has, add, size, keys, values}

pub record ConnectionRef : Type 0 where
  pub connection_id : String
  pub user_id : String

pub data UserCall : Type 0 where
  subscribe_user unsubscribe_user : String → UserCall

-- `none` as the limit is Infinity; `connections_active` is the gauge, if there is a registry.
pub record ConnectionManager : Type 0 where
  pub connections : JsMap ConnectionRef
  pub user_connections : JsMap JsSet
  pub pending_connections : ℕ
  pub max_connections : Option ℕ
  pub has_channel_registry : Bool
  pub connections_active : Option ℕ
  pub calls : List UserCall
  pub marked : List String

unfoldable pub new_connection_manager : Bool → Bool → Option ℕ → ConnectionManager
new_connection_manager has_channel_registry has_metrics max_connections = record {
  connections = [];
  user_connections = [];
  pending_connections = 0;
  max_connections = max_connections;
  has_channel_registry = has_channel_registry;
  connections_active = if has_metrics then some 0 else none;
  calls = [];
  marked = [];
}

abbrev set_gauge : ℕ → Option ℕ → Option ℕ
set_gauge n none = none
set_gauge n (some _) = some n

abbrev issue : Bool → UserCall → List UserCall → List UserCall
issue attached call calls = if attached then calls ++ call ∷ [] else calls

unfoldable pub set_max_connections : ConnectionManager → ℕ → ConnectionManager
set_max_connections m limit = record m {
  max_connections = if ltb 0 limit then some limit else none;
}

abbrev at_limit : Option ℕ → ℕ → Bool
at_limit none n = false
at_limit (some limit) n = leb limit n

unfoldable pub try_acquire_slot : ConnectionManager → ConnectionManager × Bool
try_acquire_slot m =
    if at_limit m.max_connections (size m.connections + m.pending_connections)
    then (m, false)
    else (record m { pending_connections = m.pending_connections + 1 }, true)

unfoldable pub release_pending_slot : ConnectionManager → ConnectionManager
release_pending_slot m =
    if ltb 0 m.pending_connections
    then record m { pending_connections = m.pending_connections - 1 }
    else m

-- The connections of a user, none if the user is not listed.
abbrev pub members_of : Option JsSet → JsSet
members_of none = []
members_of (some members) = members

unfoldable pub add_connection : ConnectionManager → ConnectionRef → ConnectionManager
unfolding release_pending_slot
add_connection m connection =
    let connections = set connection.connection_id connection m.connections in
    let user_conns = members_of (get connection.user_id m.user_connections) in
    record (release_pending_slot m) {
      connections = connections;
      user_connections =
          set connection.user_id (add connection.connection_id user_conns) m.user_connections;
      connections_active = set_gauge (size connections) m.connections_active;
      calls = issue m.has_channel_registry (subscribe_user connection.user_id) m.calls;
    }

-- The user's set without the connection; an empty set goes.
pub drop_from_user : JsMap JsSet → String → String → Option JsSet → JsMap JsSet
drop_from_user users user_id connection_id none = users
drop_from_user users user_id connection_id (some user_conns) =
    let remaining = delete connection_id user_conns in
    if size remaining == 0 then delete user_id users else set user_id remaining users

pub remove_found : ConnectionManager → ConnectionRef → String → ConnectionManager
unfolding drop_from_user
remove_found m connection connection_id =
    let connections = delete connection_id m.connections in
    record m {
      connections = connections;
      user_connections =
          drop_from_user m.user_connections connection.user_id connection_id
            (get connection.user_id m.user_connections);
      connections_active = set_gauge (size connections) m.connections_active;
      calls = issue m.has_channel_registry (unsubscribe_user connection.user_id) m.calls;
      marked = m.marked ++ connection.connection_id ∷ [];
    }

unfoldable pub remove_connection :
    ConnectionManager → String → ConnectionManager × Option ConnectionRef
unfolding remove_found
remove_connection m connection_id = elim (get connection_id m.connections) [
  | none ↦ (m, none)
  | some connection ↦ (remove_found m connection connection_id, some connection)
]

unfoldable pub get_connection : ConnectionManager → String → Option ConnectionRef
get_connection m connection_id = get connection_id m.connections

-- The connections of a list of ids, without those that are not registered.
unfoldable pub registered : JsMap ConnectionRef → List String → List ConnectionRef
registered connections [] = []
registered connections (id ∷ ids) =
    let rest = registered connections ids in
    elim (get id connections) [ none ↦ rest | some conn ↦ conn ∷ rest ]

unfoldable pub get_connections_by_user_id : ConnectionManager → String → List ConnectionRef
unfolding registered
get_connections_by_user_id m user_id =
    registered m.connections (keys (members_of (get user_id m.user_connections)))

unfoldable pub get_all_connections : ConnectionManager → List ConnectionRef
get_all_connections m = values m.connections

unfoldable pub get_count : ConnectionManager → ℕ
get_count m = size m.connections

unfoldable pub get_user_count : ConnectionManager → ℕ
get_user_count m = size m.user_connections

unfoldable pub clear : ConnectionManager → ConnectionManager
clear m = record m {
  connections = [];
  user_connections = [];
  connections_active = set_gauge 0 m.connections_active;
}
