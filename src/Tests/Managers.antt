-- ===== src/Tests/Managers.antt =====
-- The idempotency manager, the token bucket and the room manager at concrete states.
use pulse_distributed_real_t.Metrics.{TextLib, Labels}
use pulse_distributed_real_t.Metrics.Buckets.{Observed}
use pulse_distributed_real_t.Prelude.{
  ◌≤◌, String, [], ◌∷◌, true, false, ◌≡◌, refl, arith, inr, ◌≢◌, ap, ◌=ₛ◌, List, Option, none, ℕ,
  some,
}
use pulse_distributed_real_t.JsMap.{get}
use pulse_distributed_real_t.Json.{field, end, str, obj, get_field, object_keys}
use pulse_distributed_real_t.IdempotencyManager.{duplicate, check, record_ack}
use pulse_distributed_real_t.IdempotencyManager.Laws.{check-record_ack}
use pulse_distributed_real_t.IdempotencyManager.Bounds
use pulse_distributed_real_t.IdempotencyManager.Bounds.{record_ack-IsValid}
use pulse_distributed_real_t.IdempotencyManager.Hash.{hash_payload_nested, hash_payload, Platform}
use pulse_distributed_real_t.TokenBucket.Rate.{attempts, attempts-bounded}
use pulse_distributed_real_t.RoomManager
use pulse_distributed_real_t.RoomManager.{is_connection_in_room}
use pulse_distributed_real_t.RoomManager.History.{run_history, run_history_lem, effects}
use pulse_distributed_real_t.RoomManager.Validity
use pulse_distributed_real_t.RoomManager.Validity.{
  run_operation, run_operation-IsValid, leave, join,
}
use pulse_distributed_real_t.Tests.Data.{
  text_hash, small_cache, full_cache, greeting, ping, full_bucket, lobby_rooms,
}

check-record_ack_example :
    (check text_hash (record_ack text_hash small_cache "e1" ping greeting 50) "e1" greeting 60).1
    ≡ duplicate ping
check-record_ack_example = check-record_ack text_hash small_cache "e1" ping greeting greeting 50 60

full_cache-IsValid : Bounds.IsValid full_cache
unfolding get
full_cache-IsValid = record { distinct = (refl, (refl, tt)); named = refl; bounded = omega arith }

named : ◌≢◌ {A = String} "e1" ""
named h = ground (arith, ap (λ s. s =ₛ "") h)

a_not_b : ◌≢◌ {A = String} "a" "b"
a_not_b h = ground (arith, ap (λ s. s =ₛ "a") h)

-- A platform that prints nothing and digests nothing.
abbrev silent_platform : Platform
silent_platform = record { stringify = λ j. ""; sha256 = λ s. s }

hash_payload_nested_example :
    hash_payload silent_platform (field "profile" (obj (field "name" (str "ann") end)) end)
    ≡ hash_payload silent_platform (field "profile" (obj (field "name" (str "bob") end)) end)
unfolding get_field object_keys
hash_payload_nested_example =
    hash_payload_nested silent_platform "profile" (field "name" (str "ann") end)
      (field "name" (str "bob") end) end (refl, tt) (refl, tt)

attempts-bounded_example :
    (attempts full_bucket ((3000, 10) ∷ (3000, 20) ∷ (1000, 30) ∷ [])).1 ≤ 5030
attempts-bounded_example =
    attempts-bounded full_bucket ((3000, 10) ∷ (3000, 20) ∷ (1000, 30) ∷ []) 30 (omega arith)
      (omega arith, (omega arith, (omega arith, tt)))

pub lobby_rooms-IsValid : Validity.IsValid lobby_rooms
unfolding get
lobby_rooms-IsValid = record {
  distinct = (refl, tt);
  inhabited = ((omega arith, (refl, (refl, tt))), tt);
  gauged = inr refl;
}

run_history_lem_example :
    let final = run_history lobby_rooms (leave "lobby" "c2" ∷ join "lobby" "c3" ∷ []) in
    (is_connection_in_room final "lobby" "c3" ≡ true)
    × ((RoomManager.join_room final "lobby" "c3").1 ≡ false)
    × ((RoomManager.leave_room final "lobby" "c3").1 ≡ true)
unfolding is_connection_in_room get effects
run_history_lem_example =
    run_history_lem lobby_rooms (leave "lobby" "c2" ∷ join "lobby" "c3" ∷ []) "lobby" "c3"

abbrev plain_texts : TextLib
plain_texts = record { to_lower_case = λ s. s; length_of = λ s. 3 }

abbrev two_buckets : List ℕ
two_buckets = 5 ∷ 10 ∷ []

abbrev for_reason : Option Labels
for_reason = some (("reason", "full") ∷ [])

abbrev seen_values : Observed
seen_values = (for_reason, 7) ∷ (none, 3) ∷ (for_reason, 2) ∷ []
