-- ===== src/PresenceManager/Announcements.antt =====
-- src/redis/PresenceManager.ts: when a user is announced online or offline.
use pulse_distributed_real_t.RedisStore.{RedisStore, IsRedis}
use pulse_distributed_real_t.PresenceManager.{
  PresenceManager, TransitionResult, String, is_some, true, PresenceUpdate, PresenceStatus,
  rooms_of, JsMap,
}
use pulse_distributed_real_t.Prelude.{
  String, is_some, true, List, ◌≡◌, ℕ, Option, ◌∷◌, some, if◌then◌else◌, [], ◌↔◌, none, ◌++◌,
}
use mathlib.Core.Option.{none}

-- A Redis manager that is connected.
abbrev pub IsPublishing : PresenceManager → Type 0
IsPublishing m = (is_some m.pub_sub_counts ≡ true) × (m.is_connected ≡ true)

abbrev pub presence_update :
    PresenceManager → String → PresenceStatus → ℕ → Option (List String) → PresenceUpdate
presence_update m user_id status active rooms = record {
  user_id = user_id;
  status = status;
  active_connections = active;
  rooms = rooms_of m user_id rooms;
}

module _ {S : Type 0} (r : RedisStore S) (laws : IsRedis r) where
  -- What a call has done that answers `some`: the local connections, and one announcement of
  -- `status` after those before, if the result tells a transition.
  abbrev pub IsAnnounced :
      PresenceManager
      → JsMap String
      → String
      → PresenceStatus
      → Option (List String)
      → Option (PresenceManager × S × TransitionResult)
      → Type 0
      → Type 0
  IsAnnounced m connections user_id status rooms none Transits = ⊥
  IsAnnounced m connections user_id status rooms (some (final, t, result)) Transits =
      ((result.is_transition ≡ true) ↔ Transits)
      × (final.local_connections ≡ connections)
      × (final.published ≡ (
          if result.is_transition
          then m.published
            ++ (presence_update m user_id status result.active_connections rooms ∷ [])
          else m.published))
