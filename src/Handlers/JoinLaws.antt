-- ===== src/Handlers/JoinLaws.antt =====
-- What a join changes: the rooms of the sender and of the room manager, or nothing.
use pulse_distributed_real_t.Prelude.{
  ◌+◌, ◌≤◌, String, [], ◌∷◌, Option, none, Bool, true, false, not, ◌≡◌, refl, arith, ◌&&◌,
  if◌then◌else◌, if-holds, length, leb, ◌=ₛ◌, ◌||◌, ap, subst, sym, ◌∙◌,
}
use text.Mathlib.TextEquality.{eq_iff}
use pulse_distributed_real_t.JsMap.{JsSet, add, size, keys, has}
use pulse_distributed_real_t.JsMap.Laws.{length-set, get-set}
use pulse_distributed_real_t.Envelope.{PulseEventEnvelope}
use pulse_distributed_real_t.Connection
use pulse_distributed_real_t.Connection.{Connection, WebSocketLib, send, has_room, get_rooms}
use pulse_distributed_real_t.Connection.Laws.{send-keeps}
use pulse_distributed_real_t.RoomManager
use pulse_distributed_real_t.RoomManager.Membership.{join_room_lem}
use pulse_distributed_real_t.Node.{Node, Env, send_to, accept_seq}
use pulse_distributed_real_t.Handlers.Messaging.{room_id_of}
use pulse_distributed_real_t.Handlers.Joining.{
  Progress, Progress, Roster, handle_room_join, continue_room_join, finish_room_join, enter_room,
  is_valid_room_id,
}

-- The sender may enter the room: its name is fit, and it is in it already or has room for one more.
abbrev pub may_join : Node → String → PulseEventEnvelope → Bool
may_join n sender_id e =
    is_valid_room_id n.config.max_room_id_length (room_id_of e)
    && (has_room (n.store sender_id) (room_id_of e)
        || not (leb n.config.max_rooms_per_connection (length (get_rooms (n.store sender_id)))))

-- The rooms of the connection `j` and the room manager after a join: with the room, or as they were.
abbrev pub Joined :
    Node → String → String → String → JsSet → RoomManager.RoomManager → Bool → Type 0
Joined n sender_id room_id j rooms manager joined =
    (rooms
      ≡ (if joined && sender_id =ₛ j then add room_id (n.store j).rooms else (n.store j).rooms))
    × (manager ≡ (
        if joined
        then (RoomManager.join_room n.room_manager room_id sender_id).0
        else n.room_manager))

Joined-of_true :
    (n : Node) (sender_id room_id j : String) (rooms : JsSet) (manager : RoomManager.RoomManager)
    (joined : Bool)
    → joined ≡ true
    → Joined n sender_id room_id j rooms manager true
    → Joined n sender_id room_id j rooms manager joined
Joined-of_true n sender_id room_id j rooms manager joined e h =
    subst (Joined n sender_id room_id j rooms manager) (sym e) h

Joined-of_false :
    (n : Node) (sender_id room_id j : String) (rooms : JsSet) (manager : RoomManager.RoomManager)
    (joined : Bool)
    → joined ≡ false
    → Joined n sender_id room_id j rooms manager false
    → Joined n sender_id room_id j rooms manager joined
Joined-of_false n sender_id room_id j rooms manager joined e h =
    subst (Joined n sender_id room_id j rooms manager) (sym e) h

length-keys : (s : JsSet) → length (keys s) ≡ size s
length-keys [] = refl
length-keys (x ∷ s) = ground (arith, length-keys s)

length-keys-add :
    (r : String) (s : JsSet)
    → length (keys (add r s)) ≡ (if has r s then length (keys s) else length (keys s) + 1)
length-keys-add r s = ground (arith, length-keys (add r s), length-keys s, length-set r tt s)

admitted :
    (fit inside full : Bool)
    → not fit ≡ false
    → (not inside && full) ≡ false
    → (fit && (inside || not full)) ≡ true
admitted fit inside full a b = ground arith

-- Each connection is in just the rooms that list it.
abbrev pub IsAgreed : Node → Type 0
IsAgreed n =
    (j r : String) → has_room (n.store j) r ≡ RoomManager.is_connection_in_room n.room_manager r j

Joined-agrees :
    (n : Node) (sender_id room_id j r : String) (rooms : JsSet) (manager : RoomManager.RoomManager)
    (joined : Bool)
    → IsAgreed n
    → Joined n sender_id room_id j rooms manager joined
    → has r rooms ≡ RoomManager.is_connection_in_room manager r j
unfolding has_room
Joined-agrees n sender_id room_id j r rooms manager true agreed h =
    ap (has r) h.0
    ∙ ground (
      arith,
      join_room_lem n.room_manager room_id sender_id r j,
      get-set r room_id tt (n.store j).rooms,
      agreed j r,
    )
    ∙ sym (ap (λ m. RoomManager.is_connection_in_room m r j) h.1)
Joined-agrees n sender_id room_id j r rooms manager false agreed h =
    ap (has r) h.0 ∙ agreed j r ∙ sym (ap (λ m. RoomManager.is_connection_in_room m r j) h.1)

module _ (ws : WebSocketLib) where
  pub send_to-rooms :
      (n : Node) (id j : String) (e : PulseEventEnvelope)
      → (((send_to ws n id e).0.store j).rooms ≡ (n.store j).rooms)
        × ((send_to ws n id e).0.room_manager ≡ n.room_manager)
  unfolding send_to
  send_to-rooms n id j e = (ground (arith, send-keeps ws (n.store id) e, eq_iff id j), refl)

  finish_room_join-rooms :
      (env : Env) (n : Node) (id j : String) (e : PulseEventEnvelope) (room_id : String)
      (roster : Option Roster)
      → let m = finish_room_join ws env n id e room_id roster in
        ((m.store j).rooms ≡ (n.store j).rooms) × (m.room_manager ≡ n.room_manager)
  unfolding finish_room_join
  finish_room_join-rooms env n id j e room_id roster = send_to-rooms n id j _

  accept_seq-rooms :
      (n : Node) (id j : String) (e : PulseEventEnvelope)
      → (((accept_seq n id e).store j).rooms ≡ (n.store j).rooms)
        × ((accept_seq n id e).room_manager ≡ n.room_manager)
  unfolding accept_seq
  accept_seq-rooms n id j e = (ground (arith, eq_iff id j), refl)

  continue_room_join-rooms :
      (env : Env) (n : Node) (id j : String) (e : PulseEventEnvelope) (room_id : String)
      → let m = (continue_room_join ws env n id e room_id).0 in
        ((m.store j).rooms ≡ (n.store j).rooms) × (m.room_manager ≡ n.room_manager)
  unfolding continue_room_join
  continue_room_join-rooms env n id j e room_id =
      let accepted = accept_seq-rooms n id j e in
      let finished = finish_room_join-rooms env (accept_seq n id e) id j e room_id none in
      if-holds
        (λ (p : Progress).
          ((p.0.store j).rooms ≡ (n.store j).rooms) × (p.0.room_manager ≡ n.room_manager))
        n.config.has_presence _ _ (λ _. accepted)
        (λ _. (finished.0 ∙ accepted.0, finished.1 ∙ accepted.1))

  enter_room-rooms :
      (n : Node) (id j room_id : String)
      → (((enter_room n id room_id).store j).rooms
          ≡ (if id =ₛ j then add room_id (n.store j).rooms else (n.store j).rooms))
        × ((enter_room n id room_id).room_manager
            ≡ (RoomManager.join_room n.room_manager room_id id).0)
  unfolding enter_room Connection.join_room
  enter_room-rooms n id j room_id = (ground (arith, eq_iff id j), refl)

  -- A join whose room id is valid, of a connection that is in the room or has fewer rooms than its
  -- limit, adds the room to the sender's rooms and the sender to the room, whether the rest of the
  -- handler waits or not. Any other join changes no connection's rooms and not the room manager.
  pub handle_room_join_lem :
      (env : Env) (n : Node) (sender_id j : String) (e : PulseEventEnvelope)
      → let m = (handle_room_join ws env n sender_id e).0 in
        Joined n sender_id
          (room_id_of e)
          j
          (m.store j).rooms
          m.room_manager
          (may_join n sender_id e)
  unfolding handle_room_join
  handle_room_join_lem env n sender_id j e =
      let entering = enter_room n sender_id (room_id_of e) in
      let entered = enter_room-rooms n sender_id j (room_id_of e) in
      let continued = continue_room_join-rooms env entering sender_id j e (room_id_of e) in
      let Result = λ (p : Progress).
        Joined n sender_id (room_id_of e) j (p.0.store j).rooms p.0.room_manager
          (may_join n sender_id e) in
      if-holds Result (not (is_valid_room_id n.config.max_room_id_length (room_id_of e))) _ _
        (λ unfit.
          Joined-of_false n sender_id (room_id_of e) j _ _ _ (ground arith)
            (send_to-rooms n sender_id j _))
        (λ fit.
          if-holds Result _ _ _
            (λ full.
              Joined-of_false n sender_id (room_id_of e) j _ _ _ (ground arith)
                (send_to-rooms n sender_id j _))
            (λ free.
              if-holds Result _ _ _
                (λ waits.
                  Joined-of_true n sender_id (room_id_of e) j _ _ _ (admitted _ _ _ fit free)
                    entered)
                (λ goes_on.
                  Joined-of_true n sender_id (room_id_of e) j _ _ _ (admitted _ _ _ fit free)
                    (continued.0 ∙ entered.0, continued.1 ∙ entered.1))))

  -- A connection that is in no more rooms than the limit is in no more than that after a join.
  pub handle_room_join-IsWithin :
      (env : Env) (n : Node) (sender_id j : String) (e : PulseEventEnvelope)
      → length (get_rooms (n.store j)) ≤ n.config.max_rooms_per_connection
      → length (get_rooms ((handle_room_join ws env n sender_id e).0.store j))
        ≤ n.config.max_rooms_per_connection
  unfolding get_rooms has_room
  handle_room_join-IsWithin env n sender_id j e within =
      let rooms = ap (λ s. length (keys s)) (handle_room_join_lem env n sender_id j e).0 in
      ground (arith, length-keys-add (room_id_of e) (n.store j).rooms, eq_iff sender_id j)

  -- If each connection is in just the rooms that list it, that is so after a join.
  pub handle_room_join-IsAgreed :
      (env : Env) (n : Node) (sender_id : String) (e : PulseEventEnvelope)
      → IsAgreed n
      → IsAgreed (handle_room_join ws env n sender_id e).0
  unfolding has_room
  handle_room_join-IsAgreed env n sender_id e agreed j r =
      Joined-agrees n sender_id (room_id_of e) j r _ _ (may_join n sender_id e) agreed
        (handle_room_join_lem env n sender_id j e)
