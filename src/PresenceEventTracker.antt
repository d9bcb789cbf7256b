-- ===== src/PresenceEventTracker.antt =====
-- src/redis/PresenceEventTracker.ts: the last timestamp of each user's presence, for a bounded number
-- of users.
pub mod Laws
use pulse_distributed_real_t.Prelude.{
  ℕ, String, [], ◌∷◌, Option, none, some, Bool, true, false, not, ◌||◌, if◌then◌else◌, leb, truthy,
}
use pulse_distributed_real_t.JsMap.{JsMap, get, set, delete, has, size}
use pulse_distributed_real_t.Json.{Number, finite, infinite, nan, le_number}

pub record PresenceEventTracker : Type 0 where
  pub max_users : ℕ
  pub last_seen_timestamps : JsMap Number

unfoldable pub new_presence_event_tracker : Option ℕ → PresenceEventTracker
new_presence_event_tracker max_users = record {
  max_users = elim max_users [ none ↦ 10000 | some n ↦ n ];
  last_seen_timestamps = [];
}

abbrev pub is_nan : Number → Bool
is_nan nan = true
is_nan (finite negative m s) = false
is_nan (infinite negative) = false

-- lastSeen !== undefined && timestamp <= lastSeen
abbrev pub is_passed : Number → Option Number → Bool
is_passed timestamp none = false
is_passed timestamp (some last_seen) = le_number timestamp last_seen

unfoldable pub is_stale : PresenceEventTracker → String → Number → Bool
is_stale t user_id timestamp =
    (not (truthy user_id) || is_nan timestamp)
    || is_passed timestamp (get user_id t.last_seen_timestamps)

abbrev pub evict_first : JsMap Number → JsMap Number
evict_first [] = []
evict_first ((k, v) ∷ rest) = delete k ((k, v) ∷ rest)

-- The room for the user's entry at the end: its old entry goes, or the oldest if the map is full.
unfoldable pub make_room : PresenceEventTracker → String → JsMap Number
make_room t user_id =
    if has user_id t.last_seen_timestamps
    then delete user_id t.last_seen_timestamps
    else if leb t.max_users (size t.last_seen_timestamps)
    then evict_first t.last_seen_timestamps
    else t.last_seen_timestamps

unfoldable pub record_event : PresenceEventTracker → String → Number → PresenceEventTracker × Bool
unfolding make_room
record_event t user_id timestamp =
    if not (truthy user_id) || is_nan timestamp
    then (t, false)
    else if is_passed timestamp (get user_id t.last_seen_timestamps)
    then (t, false)
    else (record t { last_seen_timestamps = set user_id timestamp (make_room t user_id) }, true)

unfoldable pub clear : PresenceEventTracker → PresenceEventTracker
clear t = record t { last_seen_timestamps = [] }
