-- ===== src/Tests/Registries.antt =====
-- The channel registry and the connection manager at concrete states.
use pulse_distributed_real_t.PresenceEventTracker.{PresenceEventTracker}
use pulse_distributed_real_t.Json.{whole}
use pulse_distributed_real_t.Prelude.{
  trim, ◌≤◌, ◌+◌, [], ◌∷◌, none, some, true, false, ◌≡◌, refl, arith, inl, ◌⊎◌,
}
use pulse_distributed_real_t.JsMap.{get, size}
use pulse_distributed_real_t.ChannelRegistry.{
  new_channel_registry, get_ref_count, get_room_channel, increment_subscription, awaiting, answered,
  subscribe,
}
use pulse_distributed_real_t.ChannelRegistry.Interleaving.{
  handle_event, handle_events, get_ref_count-handle_events, subscribe_settled-drops, subscribes,
  unsubscribes, subscribe_settled, repeated, wanted,
}
use pulse_distributed_real_t.ChannelRegistry.Rooms.{
  get_ref_count-run_operations, apply_calls, run_operations,
}
use pulse_distributed_real_t.RoomManager.{new_room_manager}
use pulse_distributed_real_t.RoomManager.Validity.{join, leave}
use pulse_distributed_real_t.ConnectionManager.{
  ConnectionManager, ConnectionRef, new_connection_manager, try_acquire_slot, add_connection,
}
use pulse_distributed_real_t.ConnectionManager.Admission.{
  Reach, here, next, acquire, register, Reach-bounded,
}
use pulse_distributed_real_t.ConnectionManager.Index.{
  IsIndexed, add_connection-IsIndexed, new_connection_manager-IsIndexed,
}

-- Two subscribers come before Redis answers the first.
get_ref_count-handle_events_example :
    get_ref_count
      (handle_events new_channel_registry (
        subscribes "pulse:room:a"
        ∷ subscribes "pulse:room:a"
        ∷ subscribe_settled "pulse:room:a" true
        ∷ unsubscribes "pulse:room:a"
        ∷ []))
      "pulse:room:a"
    ≡ 1
unfolding get_ref_count get wanted
get_ref_count-handle_events_example =
    get_ref_count-handle_events new_channel_registry "pulse:room:a"
      (subscribes "pulse:room:a"
        ∷ subscribes "pulse:room:a"
        ∷ subscribe_settled "pulse:room:a" true
        ∷ unsubscribes "pulse:room:a"
        ∷ [])
      (refl, tt)

subscribe_settled-drops_example :
    let joined = handle_events new_channel_registry (repeated 3 "pulse:room:a") in
    ((increment_subscription new_channel_registry "pulse:room:a").1
      ≡ awaiting (subscribe "pulse:room:a"))
    × ((increment_subscription joined "pulse:room:a").1 ≡ answered false)
    × (get_ref_count joined "pulse:room:a" ≡ 3)
    × (get_ref_count (handle_event joined (subscribe_settled "pulse:room:a" false)) "pulse:room:a"
        ≡ 0)
unfolding get_ref_count get repeated
subscribe_settled-drops_example = subscribe_settled-drops new_channel_registry "pulse:room:a" 2 refl

get_ref_count-run_operations_example :
    let m =
      run_operations
        (new_room_manager true false)
        (join "a" "c1" ∷ join "a" "c2" ∷ leave "a" "c1" ∷ []) in
    get_ref_count (apply_calls new_channel_registry m.calls) "pulse:room:a"
    ≡ pulse_distributed_real_t.RoomManager.get_connection_count_in_room m "a"
unfolding get_room_channel trim
get_ref_count-run_operations_example =
    get_ref_count-run_operations false (join "a" "c1" ∷ join "a" "c2" ∷ leave "a" "c1" ∷ []) "a"
      (refl, (refl, tt)) refl

abbrev empty_manager : ConnectionManager
empty_manager = new_connection_manager false true (some 1)

abbrev ann : ConnectionRef
ann = record { connection_id = "c1"; user_id = "ann" }

abbrev reserved : ConnectionManager
reserved = (try_acquire_slot empty_manager).0

abbrev with_ann : ConnectionManager
with_ann = add_connection reserved ann

with_ann-Reach : Reach empty_manager with_ann
unfolding new_connection_manager try_acquire_slot
with_ann-Reach = next (next here (acquire empty_manager)) (register reserved ann (omega arith))

Reach-bounded_example :
    (size with_ann.connections + with_ann.pending_connections ≤ 1)
    × ((with_ann.connections_active ≡ none)
        ⊎ (with_ann.connections_active ≡ some (size with_ann.connections)))
Reach-bounded_example = Reach-bounded false true 1 with_ann with_ann-Reach

with_ann-IsIndexed : IsIndexed (add_connection empty_manager ann)
unfolding new_connection_manager get
with_ann-IsIndexed =
    add_connection-IsIndexed empty_manager ann (inl refl)
      (new_connection_manager-IsIndexed false true (some 1))

abbrev bea : ConnectionRef
bea = record { connection_id = "c2"; user_id = "bea" }

abbrev ann_only : ConnectionManager
ann_only = add_connection empty_manager ann

abbrev busy_tracker : PresenceEventTracker
busy_tracker = record {
  max_users = 2;
  last_seen_timestamps = ("ann", whole 5) ∷ ("bea", whole 6) ∷ [];
}
