-- ===== src/Handlers/Inbound.antt =====
-- `handleInboundRedisEvent` and `deliverRoomScopedPresence`: an event of another node. The frame is
-- what `JSON.parse` makes of it, `none` where it throws. The measurements and the logger are left
-- out, and so is the local listener of presence events. The fields of a presence payload are read as
-- the interface has them: texts, and an array of rooms; one of another type counts as missing.
use pulse_distributed_real_t.Prelude.{
  ℕ, ◌+◌, String, List, [], ◌∷◌, ◌++◌, Option, none, some, Bool, true, false, not, ◌=ₛ◌, ◌&&◌, ◌||◌,
  if◌then◌else◌, is_some, truthy,
}
use pulse_distributed_real_t.Json.{Json, Fields, field, end, str, arr, items, get_field, as_text}
use pulse_distributed_real_t.JsMap.{contains}
use pulse_distributed_real_t.Envelope.{EventType, PulseEventEnvelope}
use pulse_distributed_real_t.IdempotencyManager
use pulse_distributed_real_t.IdempotencyManager.{IdempotencyCheckResult, not_duplicate, record_ack}
use pulse_distributed_real_t.ChannelRegistry.{extract_room_id, extract_user_id}
use pulse_distributed_real_t.ConnectionManager.{
  ConnectionRef, get_connection, get_connections_by_user_id,
}
use pulse_distributed_real_t.RoomManager.{get_room_connection_ids, get_all_room_ids}
use pulse_distributed_real_t.PresenceEventTracker.{is_stale, record_event}
use pulse_distributed_real_t.EventValidator.{
  ValidationResult, valid, invalid, room_of, recipient_of, non_empty,
}
use pulse_distributed_real_t.EventValidator.Distributed.{validate_distributed}
use pulse_distributed_real_t.Connection.{WebSocketLib}
use pulse_distributed_real_t.Node.{Node, Env, send_to, system_envelope}
use pulse_distributed_real_t.Handlers.Messaging.{deliver_to_connections, one_if}

-- a || b on texts that may be missing
abbrev pub text_from : Option String → Option String → Option String
text_from (some s) other = if truthy s then some s else other
text_from none other = other

-- A user that takes part in presence.
abbrev pub is_known : Option ConnectionRef → Bool
is_known none = false
is_known (some c) = truthy c.user_id && not (c.user_id =ₛ "anonymous")

-- Set.prototype.add for each id
unfoldable pub add_all : List String → List String → List String
add_all seen [] = seen
add_all seen (id ∷ ids) = add_all (if contains id seen then seen else seen ++ id ∷ []) ids

abbrev pub belongs_to : String → Option ConnectionRef → Bool
belongs_to user_id none = false
belongs_to user_id (some c) = c.user_id =ₛ user_id

unfoldable pub has_user : Node → String → List String → Bool
has_user n user_id [] = false
has_user n user_id (id ∷ ids) =
    belongs_to user_id (get_connection n.connection_manager id) || has_user n user_id ids

-- The members of the rooms that are named.
unfoldable pub hinted_targets : Node → List String → List Json → List String
unfolding add_all
hinted_targets n seen [] = seen
hinted_targets n seen (str room_id ∷ rooms) =
    hinted_targets n (add_all seen (get_room_connection_ids n.room_manager room_id)) rooms
hinted_targets n seen (_ ∷ rooms) = hinted_targets n seen rooms

-- The members of the rooms that a connection of the user is in.
unfoldable pub shared_targets : Node → String → List String → List String → List String
unfolding add_all has_user
shared_targets n user_id seen [] = seen
shared_targets n user_id seen (room_id ∷ room_ids) =
    let ids = get_room_connection_ids n.room_manager room_id in
    shared_targets n user_id (if has_user n user_id ids then add_all seen ids else seen) room_ids

abbrev pub presence_targets : Node → String → List Json → List String
presence_targets n user_id [] = shared_targets n user_id [] (get_all_room_ids n.room_manager)
presence_targets n user_id (room ∷ rooms) = hinted_targets n [] (room ∷ rooms)

-- envelope.originInstanceId === this.instanceId
abbrev pub is_own : Node → Option String → Bool
is_own n none = false
is_own n (some origin) = origin =ₛ n.config.instance_id

module _ (ws : WebSocketLib) where
  -- The loop over ids: every one that is registered.
  unfoldable pub deliver_to_ids : Node → PulseEventEnvelope → List String → Node × ℕ
  deliver_to_ids n e [] = (n, 0)
  deliver_to_ids n e (id ∷ ids) =
      let known = is_some (get_connection n.connection_manager id) in
      let (n', sent) = if known then send_to ws n id e else (n, false) in
      let (final, count) = deliver_to_ids n' e ids in (final, one_if sent + count)

  -- The loop over the targets of a presence event: a connection without a user is passed over.
  unfoldable pub deliver_to_known : Node → PulseEventEnvelope → List String → Node × ℕ
  deliver_to_known n e [] = (n, 0)
  deliver_to_known n e (id ∷ ids) =
      let known = is_known (get_connection n.connection_manager id) in
      let (n', sent) = if known then send_to ws n id e else (n, false) in
      let (final, count) = deliver_to_known n' e ids in (final, one_if sent + count)

  unfoldable pub deliver_room_scoped_presence :
      Node → String → PulseEventEnvelope → List Json → Node × ℕ
  unfolding deliver_to_known hinted_targets shared_targets
  deliver_room_scoped_presence n user_id e hint_rooms =
      deliver_to_known n e (presence_targets n user_id hint_rooms)

  abbrev pub inbound_ack : Env → PulseEventEnvelope → PulseEventEnvelope
  inbound_ack env e =
      system_envelope env EventType.delivery_ack none none
        (field "targetEventId" (str e.event_id) (field "status" (str "DISTRIBUTED_ACCEPTED") end))

  -- To the room that the target names, or else the channel.
  unfoldable pub inbound_room_message : Node → String → PulseEventEnvelope → Node × Bool
  unfolding deliver_to_ids
  inbound_room_message n channel e =
      elim (text_from (room_of e.target) (non_empty (extract_room_id channel))) [
        | none ↦ (n, false)
        | some room_id ↦
            ((deliver_to_ids n e (get_room_connection_ids n.room_manager room_id)).0, true)
      ]

  unfoldable pub inbound_direct_message : Node → String → PulseEventEnvelope → Node × Bool
  inbound_direct_message n channel e =
      elim (text_from (recipient_of e.target) (non_empty (extract_user_id channel))) [
        | none ↦ (n, false)
        | some recipient_id ↦ (
          (deliver_to_connections ws n e
              (get_connections_by_user_id n.connection_manager recipient_id)).0,
          true,
        )
      ]

  abbrev rooms_in : Option Json → List Json
  rooms_in (some (arr rooms)) = items rooms
  rooms_in _ = []

  -- With a presence manager, a stale event is dropped and any other recorded first.
  unfoldable pub inbound_presence : Node → PulseEventEnvelope → Node × Bool
  unfolding deliver_room_scoped_presence
  inbound_presence n e = elim (non_empty (as_text (get_field "userId" e.payload))) [
    | none ↦ (n, false)
    | some user_id ↦
        let stale = n.config.has_presence && is_stale n.presence_events user_id e.timestamp in
        let recorded =
          if n.config.has_presence
          then record n { presence_events = (record_event n.presence_events user_id e.timestamp).0 }
          else n in
        let delivered =
          deliver_room_scoped_presence recorded user_id e
            (rooms_in (get_field "rooms" e.payload)) in
        if not (is_some (non_empty (as_text (get_field "status" e.payload)))) || stale
        then (n, false)
        else (delivered.0, true)
  ]

  unfoldable pub inbound_event : Node → String → PulseEventEnvelope → EventType → Node × Bool
  unfolding inbound_room_message inbound_direct_message inbound_presence
  inbound_event n channel e EventType.room_message = inbound_room_message n channel e
  inbound_event n channel e EventType.direct_message = inbound_direct_message n channel e
  inbound_event n channel e EventType.presence_update = inbound_presence n e
  inbound_event n channel e _ = (n, true)

  module _ (hash : Fields → String) where
    -- Not a new event: dropped. Otherwise it is recorded, then delivered.
    unfoldable pub inbound_checked :
        Env → Node → String → PulseEventEnvelope → IdempotencyCheckResult → Node × Bool
    unfolding inbound_event
    inbound_checked env n channel e not_duplicate =
        inbound_event
          (record n {
            idempotency_manager =
                record_ack hash n.idempotency_manager e.event_id (inbound_ack env e) e.payload
                  env.now;
          })
          channel e e.type
    inbound_checked env n channel e _ = (n, false)

    -- A node's own event comes back to it: dropped.
    unfoldable pub inbound_valid : Env → Node → String → PulseEventEnvelope → Node × Bool
    unfolding inbound_checked
    inbound_valid env n channel e =
        let (manager, result) =
          IdempotencyManager.check hash n.idempotency_manager e.event_id e.payload env.now in
        if is_own n e.origin_instance_id
        then (n, false)
        else inbound_checked env (record n { idempotency_manager = manager }) channel e result

    unfoldable pub inbound_validated : Env → Node → String → ValidationResult → Node × Bool
    unfolding inbound_valid
    inbound_validated env n channel (valid e) = inbound_valid env n channel e
    inbound_validated env n channel (invalid code correlation_id) = (n, false)

    unfoldable pub handle_inbound_redis_event : Env → Node → String → Option Json → Node × Bool
    unfolding inbound_validated
    handle_inbound_redis_event env n channel none = (n, false)
    handle_inbound_redis_event env n channel (some parsed) =
        inbound_validated env n channel (validate_distributed parsed env.fresh_id env.now)
