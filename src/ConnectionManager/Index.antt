-- ===== src/ConnectionManager/Index.antt =====
-- The index by user agrees with the connections.
use text.Mathlib.TextEquality.{eq_iff}
use pulse_distributed_real_t.JsMap.{get, has, add}
use pulse_distributed_real_t.JsMap.Laws.{get-set, get-delete, get-delete_self}
use pulse_distributed_real_t.ConnectionManager.{
  ConnectionManager, ConnectionRef, members_of, new_connection_manager, add_connection, JsSet,
  drop_from_user, remove_found, remove_connection, size, JsMap, ◌∷◌, delete,
}
use pulse_distributed_real_t.Prelude.{
  ℕ, String, arith, Option, none, some, ◌≡◌, refl, Bool, false, ◌=ₛ◌, ◌⊎◌, Option-cases, inl,
  if◌then◌else◌, inr, ◌&&◌, [],
}

-- A registered connection belongs to the user.
abbrev pub is_of : String → Option ConnectionRef → Bool
is_of user none = false
is_of user (some c) = c.user_id =ₛ user

abbrev pub in_index : ConnectionManager → String → String → Bool
in_index m user id = has id (members_of (get user m.user_connections))

-- A user's set holds exactly the ids of the user's connections, each under its own id.
pub record IsIndexed (m : ConnectionManager) : Type 0 where
  pub indexed : (user id : String) → in_index m user id ≡ is_of user (get id m.connections)
  pub keyed :
      (id : String) (c : ConnectionRef) → get id m.connections ≡ some c → c.connection_id ≡ id

-- The id is new, or is registered for the same user.
abbrev pub MayRegister : ConnectionManager → ConnectionRef → Type 0
MayRegister m c =
    (get c.connection_id m.connections ≡ none)
    ⊎ ((d : ConnectionRef) × (get c.connection_id m.connections ≡ some d) × (d.user_id ≡ c.user_id))

pub new_connection_manager-IsIndexed :
    (r b : Bool) (limit : Option ℕ) → IsIndexed (new_connection_manager r b limit)
unfolding new_connection_manager get
new_connection_manager-IsIndexed r b limit = record { indexed = λ u i. refl; keyed = λ i c h. cc }

-- Registering a connection keeps the index by user equal to the connections, if the id is new or
-- registered for the same user.
pub add_connection-IsIndexed :
    (m : ConnectionManager) (c : ConnectionRef)
    → MayRegister m c
    → IsIndexed m
    → IsIndexed (add_connection m c)
unfolding add_connection
add_connection-IsIndexed m c h v =
    let user_conns = members_of (get c.user_id m.user_connections) in
    record {
      indexed = λ user id. ground (
        arith,
        h,
        v.indexed user id,
        get-set user c.user_id (add c.connection_id user_conns) m.user_connections,
        get-set id c.connection_id tt user_conns,
        get-set id c.connection_id c m.connections,
        eq_iff c.user_id user,
        eq_iff c.connection_id id,
      );
      keyed = λ id d e. ground (
        arith,
        v.keyed id d,
        get-set id c.connection_id c m.connections,
        eq_iff c.connection_id id,
      );
    }

empty-has : (id : String) (s : JsSet) → size s ≡ 0 → has id s ≡ false
unfolding get
empty-has id [] h = refl
empty-has id (x ∷ s) h = absurd (omega arith)

drop_from_user_lem :
    (users : JsMap JsSet) (user_id connection_id user id : String) (o : Option JsSet)
    → get user_id users ≡ o
    → has id (members_of (get user (drop_from_user users user_id connection_id o))) ≡ (
        if user_id =ₛ user && connection_id =ₛ id
        then false
        else has id (members_of (get user users)))
unfolding drop_from_user get
drop_from_user_lem users user_id connection_id user id none h = ground (arith, eq_iff user_id user)
drop_from_user_lem users user_id connection_id user id (some s) h = ground (
  arith,
  get-set user user_id (delete connection_id s) users,
  get-delete user user_id users,
  get-delete id connection_id s,
  empty-has id (delete connection_id s),
  eq_iff user_id user,
)

remove_found-IsIndexed :
    (m : ConnectionManager) (c : ConnectionRef) (id : String)
    → get id m.connections ≡ some c
    → IsIndexed m
    → IsIndexed (remove_found m c id)
unfolding remove_found
remove_found-IsIndexed m c id h v = record {
  indexed = λ user i. ground (
    arith,
    h,
    v.indexed user i,
    drop_from_user_lem m.user_connections c.user_id id user i (get c.user_id m.user_connections)
        refl,
    get-delete i id m.connections,
    eq_iff id i,
    eq_iff c.user_id user,
  );
  keyed = λ i d e. ground (arith, v.keyed i d, get-delete i id m.connections);
}

-- Removing an id keeps the index by user equal to the connections, answers with the connection that
-- was registered under the id, if any, and leaves none.
pub remove_connection-IsIndexed :
    (m : ConnectionManager) (id : String)
    → IsIndexed m
    → IsIndexed (remove_connection m id).0
      × ((remove_connection m id).1 ≡ get id m.connections)
      × (get id (remove_connection m id).0.connections ≡ none)
unfolding remove_connection
remove_connection-IsIndexed m id v = elim (Option-cases (get id m.connections)) [
  | inl e ↦ rw (e, remove_connection) (v, refl, e)
  | inr (c, e) ↦
      rw (e, remove_connection)
        (
          remove_found-IsIndexed m c id e v,
          refl,
          unfold remove_found in get-delete_self id m.connections,
        )
]
