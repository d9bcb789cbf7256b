-- ===== src/PresenceManager.antt =====
-- src/redis/PresenceManager.ts, over the scripts and the interface RedisStore. A call that awaits
-- Redis several times takes as arguments whether Redis answers each time, and `between`, what other
-- clients do to the store meanwhile. Logs, counters of operations and latencies are left out.
pub mod Flush
pub mod Setup
pub mod Queries
pub mod Renewal
pub mod Runs
pub mod Roster
pub mod Counts
pub mod Announcements
use pulse_distributed_real_t.RedisStore.{RedisStore}
use pulse_distributed_real_t.JsMap.{JsMap, set, delete, size, add, keys, values, JsSet}
use pulse_distributed_real_t.PresenceLuaScripts.{
  ◌>>=◌, get_presence_user_key, execute_register_presence, execute_remove_presence,
  format_presence_member, get_room_members_key,
}
use pulse_distributed_real_t.Prelude.{
  String, List, Option, Bool, false, ℕ, if◌then◌else◌, some, is_some, ◌==◌, ltb, none, ◌&&◌, ◌+◌,
  [], true, ◌++◌, not, truthy, ◌||◌, ◌∷◌, length, map, trim,
}

pub data PresenceStatus : Type 0 where
  online : PresenceStatus
  offline : PresenceStatus

pub record PresenceUpdate : Type 0 where
  pub user_id : String
  pub status : PresenceStatus
  pub active_connections : ℕ
  pub rooms : Option (List String)

-- The local connections lead to their users. The counts are those of the metrics of the Redis
-- manager and of the metrics registry, where these are set: users online and connections.
pub record PresenceManager : Type 0 where
  pub instance_id : String
  pub presence_ttl_ms : ℕ
  pub key_safeguard_ttl_sec : ℕ
  pub local_connections : JsMap String
  pub rooms_provider : Option (String → List String)
  pub local_roster_provider : Option (String → List String)
  pub is_connected : Bool
  pub pub_sub_counts : Option (ℕ × ℕ)
  pub gauges : Option (ℕ × ℕ)
  pub is_flushing : Bool
  pub published : List PresenceUpdate
  pub events_published : ℕ
  pub total_lease_renewals : ℕ
  pub events_received : ℕ
  pub is_renewal_loop_running : Bool

-- The users of a list of connections, each once.
unfoldable pub collect : JsSet → List String → JsSet
collect seen [] = seen
collect seen (u ∷ us) = collect (add u seen) us

unfoldable pub users_of : List String → JsSet
unfolding collect
users_of us = collect [] us

unfoldable pub replace_counts : Option (ℕ × ℕ) → ℕ × ℕ → Option (ℕ × ℕ)
replace_counts none counts = none
replace_counts (some old) counts = some counts

unfoldable pub update_active_metrics : PresenceManager → PresenceManager
unfolding users_of replace_counts
update_active_metrics m =
    let counts : ℕ × ℕ = (size (users_of (values m.local_connections)), size m.local_connections) in
    record m {
      pub_sub_counts = replace_counts m.pub_sub_counts counts;
      gauges = replace_counts m.gauges counts;
    }

-- Nothing is published without a Redis manager that is connected; `answers` is whether the
-- publication succeeds.
unfoldable pub publish_presence_update : PresenceManager → PresenceUpdate → Bool → PresenceManager
publish_presence_update m update answers =
    if is_some m.pub_sub_counts && m.is_connected && answers
    then record m {
      published = m.published ++ (update ∷ []);
      events_published = m.events_published + 1;
    }
    else m

-- customRooms ?? (this.roomsProvider ? this.roomsProvider(userId) : undefined)
unfoldable pub rooms_of : PresenceManager → String → Option (List String) → Option (List String)
rooms_of m user_id (some rooms) = some rooms
rooms_of m user_id none = elim m.rooms_provider [
  | none ↦ none
  | some provider ↦ some (provider user_id)
]

-- Whether Redis answers the script, the count and the publication.
pub record Answers : Type 0 where
  pub script : Bool
  pub count : Bool
  pub publication : Bool

pub record TransitionResult : Type 0 where
  pub is_transition : Bool
  pub active_connections : ℕ

abbrev pub no_transition : TransitionResult
no_transition = record { is_transition = false; active_connections = 0 }

-- The end of a registration or a removal, once the script and the count have answered.
unfoldable pub announce :
    PresenceManager
    → String
    → PresenceStatus
    → ℕ
    → ℕ
    → Option (List String)
    → Bool
    → PresenceManager
unfolding publish_presence_update rooms_of
announce m user_id status transition active rooms answers =
    if transition == 1
    then publish_presence_update m
        (record {
          user_id = user_id;
          status = status;
          active_connections = active;
          rooms = rooms_of m user_id rooms;
        })
        answers
    else m

-- customExpireAtMs ?? now + this.presenceTtlMs
unfoldable pub expire_at_of : PresenceManager → Option ℕ → ℕ → ℕ
expire_at_of m none now = now + m.presence_ttl_ms
expire_at_of m (some expire_at) now = expire_at

module _ {S : Type 0} (r : RedisStore S) where
  -- What fails counts as 0.
  unfoldable pub get_user_connection_count : S → String → ℕ → Bool → S × ℕ
  unfolding get_presence_user_key
  get_user_connection_count s user_id now answers = elim (get_presence_user_key user_id) [
    | none ↦ (s, 0)
    | some user_key ↦
        let pruned = r.zremrangebyscore s user_key now in
        if answers then (pruned, r.zcard pruned user_key) else (s, 0)
  ]

  unfoldable pub is_user_online : S → String → ℕ → Bool → S × Bool
  unfolding get_user_connection_count
  is_user_online s user_id now answers =
      let (t, count) = get_user_connection_count s user_id now answers in (t, ltb 0 count)

  -- A script that throws, or whose answer does not come: whether it ran is left to `between`.
  unfoldable pub answered : Option (S × ℕ) → Bool → Option (S × ℕ)
  answered outcome true = outcome
  answered outcome false = none

  -- The registration after its script.
  unfoldable pub finish_registration :
      PresenceManager
      → S
      → (S → S)
      → String
      → String
      → ℕ
      → Option (List String)
      → Answers
      → Option (S × ℕ)
      → PresenceManager × S × TransitionResult
  unfolding get_user_connection_count update_active_metrics announce
  finish_registration m s between user_id connection_id now rooms a none =
      (m, between s, no_transition)
  finish_registration m s between user_id connection_id now rooms a (some (t, transition)) =
      let (final, active) = get_user_connection_count (between t) user_id now a.count in
      let counted =
        update_active_metrics
          (record m { local_connections = set connection_id user_id m.local_connections }) in
      (
        announce counted user_id online transition active rooms a.publication,
        final,
        record { is_transition = transition == 1; active_connections = active },
      )

  -- `none` where the code throws for want of an id.
  unfoldable pub register_connection :
      PresenceManager
      → S
      → (S → S)
      → String
      → String
      → Option ℕ
      → ℕ
      → Option (List String)
      → Answers
      → Option (PresenceManager × S × TransitionResult)
  unfolding expire_at_of execute_register_presence answered finish_registration
  register_connection m s between user_id connection_id custom_expire_at now rooms a =
      let expire_at = expire_at_of m custom_expire_at now in
      if not (truthy user_id) || not (truthy connection_id)
      then none
      else some (
          finish_registration m s between user_id connection_id now rooms a (
            answered
              (execute_register_presence r s user_id m.instance_id connection_id expire_at now
                m.key_safeguard_ttl_sec)
              a.script))

  -- The removal after its script; the local connection is gone already.
  unfoldable pub finish_removal :
      PresenceManager
      → S
      → (S → S)
      → String
      → ℕ
      → Option (List String)
      → Answers
      → Option (S × ℕ)
      → PresenceManager × S × TransitionResult
  unfolding get_user_connection_count announce
  finish_removal m s between user_id now rooms a none = (m, between s, no_transition)
  finish_removal m s between user_id now rooms a (some (t, transition)) =
      let (final, active) = get_user_connection_count (between t) user_id now a.count in
      (
        announce m user_id offline transition active rooms a.publication,
        final,
        record { is_transition = transition == 1; active_connections = active },
      )

  unfoldable pub remove_connection :
      PresenceManager
      → S
      → (S → S)
      → String
      → String
      → ℕ
      → Option (List String)
      → Answers
      → Option (PresenceManager × S × TransitionResult)
  unfolding update_active_metrics execute_remove_presence answered finish_removal
  remove_connection m s between user_id connection_id now rooms a =
      let counted =
        update_active_metrics
          (record m { local_connections = delete connection_id m.local_connections }) in
      if not (truthy user_id) || not (truthy connection_id)
      then none
      else some (
          finish_removal counted s between user_id now rooms a (
            answered
              (execute_remove_presence r s user_id m.instance_id connection_id now
                m.key_safeguard_ttl_sec)
              a.script))
