-- ===== src/PresenceManager/Counts.antt =====
-- src/redis/PresenceManager.ts: the counts of local users and connections.
use pulse_distributed_real_t.RedisStore.{RedisStore}
use pulse_distributed_real_t.JsMap.{set, delete, IsDistinct, JsMap, size, values}
use pulse_distributed_real_t.JsMap.Laws.{set-IsDistinct, delete-IsDistinct}
use pulse_distributed_real_t.PresenceManager.{
  PresenceManager, TransitionResult, Answers, Option, replace_counts, update_active_metrics,
  publish_presence_update, announce, finish_registration, finish_removal, register_connection,
  PresenceUpdate, remove_connection, PresenceStatus, users_of, rooms_of, online, offline, answered,
  execute_register_presence, expire_at_of, execute_remove_presence,
}
use pulse_distributed_real_t.Prelude.{
  Option, String, some, ℕ, Bool, none, ◌≡◌, inl, if-holds, List, ◌⊎◌, inr, is_some, not, truthy,
  ◌&&◌, ◌==◌, refl, ◌++◌, ◌||◌, ◌∷◌, [], ◌+◌,
}
use mathlib.Core.Option.{none}

-- The counts that the manager should show.
abbrev pub counts_of : JsMap String → ℕ × ℕ
counts_of connections = (size (users_of (values connections)), size connections)

-- Counts that are set are those of the local connections.
abbrev pub AreCounts : JsMap String → Option (ℕ × ℕ) → Type 0
AreCounts connections shown = (shown ≡ none) ⊎ (shown ≡ some (counts_of connections))

pub record IsCounted (m : PresenceManager) : Type 0 where
  pub distinct : IsDistinct m.local_connections
  pub gauges : AreCounts m.local_connections m.gauges
  pub pub_sub : AreCounts m.local_connections m.pub_sub_counts

-- A call that throws changes nothing.
abbrev pub IsCountedAfter : {S : Type 0} → Option (PresenceManager × S × TransitionResult) → Type 0
IsCountedAfter none = Unit
IsCountedAfter (some (m, t, result)) = IsCounted m

replace_counts-AreCounts :
    (connections : JsMap String) (old : Option (ℕ × ℕ))
    → AreCounts connections (replace_counts old (counts_of connections))
unfolding replace_counts
replace_counts-AreCounts connections none = inl refl
replace_counts-AreCounts connections (some old) = inr refl

update_active_metrics-IsCounted :
    (m : PresenceManager) → IsDistinct m.local_connections → IsCounted (update_active_metrics m)
unfolding update_active_metrics
update_active_metrics-IsCounted m d = record {
  distinct = d;
  gauges = replace_counts-AreCounts m.local_connections m.gauges;
  pub_sub = replace_counts-AreCounts m.local_connections m.pub_sub_counts;
}

publish-IsCounted :
    (m : PresenceManager) (update : PresenceUpdate) (answers : Bool)
    → IsCounted m
    → IsCounted (publish_presence_update m update answers)
unfolding publish_presence_update
publish-IsCounted m update answers h =
    if-holds IsCounted (is_some m.pub_sub_counts && m.is_connected && answers)
      (record m {
        published = m.published ++ (update ∷ []);
        events_published = m.events_published + 1;
      })
      m (λ _. record { distinct = h.distinct; gauges = h.gauges; pub_sub = h.pub_sub }) (λ _. h)

announce-IsCounted :
    (m : PresenceManager) (user_id : String) (status : PresenceStatus) (transition active : ℕ)
    (rooms : Option (List String)) (answers : Bool)
    → IsCounted m
    → IsCounted (announce m user_id status transition active rooms answers)
unfolding announce
announce-IsCounted m user_id status transition active rooms answers h =
    let update : PresenceUpdate = record {
      user_id = user_id;
      status = status;
      active_connections = active;
      rooms = rooms_of m user_id rooms;
    } in
    if-holds IsCounted (transition == 1) (publish_presence_update m update answers) m
      (λ _. publish-IsCounted m update answers h) (λ _. h)

module _ {S : Type 0} (r : RedisStore S) where
  finish_registration-IsCounted :
      (m : PresenceManager) (s : S) (between : S → S) (user_id connection_id : String) (now : ℕ)
      (rooms : Option (List String)) (a : Answers) (outcome : Option (S × ℕ))
      → IsCounted m
      → IsCountedAfter
          (some (finish_registration r m s between user_id connection_id now rooms a outcome))
  unfolding finish_registration
  finish_registration-IsCounted m s between user_id connection_id now rooms a none h = h
  finish_registration-IsCounted m s between user_id connection_id now rooms a (some (t, transition))
        h =
      announce-IsCounted _ user_id online transition _ rooms a.publication (
        update_active_metrics-IsCounted
          (record m { local_connections = set connection_id user_id m.local_connections })
          (set-IsDistinct connection_id user_id m.local_connections h.distinct))

  finish_removal-IsCounted :
      (m : PresenceManager) (s : S) (between : S → S) (user_id : String) (now : ℕ)
      (rooms : Option (List String)) (a : Answers) (outcome : Option (S × ℕ))
      → IsCounted m
      → IsCountedAfter (some (finish_removal r m s between user_id now rooms a outcome))
  unfolding finish_removal
  finish_removal-IsCounted m s between user_id now rooms a none h = h
  finish_removal-IsCounted m s between user_id now rooms a (some (t, transition)) h =
      announce-IsCounted m user_id offline transition _ rooms a.publication h

  -- If the metrics that are set show the numbers of local users and connections, without a
  -- connection twice, they do so after a registration and after a removal, whether Redis answers or
  -- not.
  pub transitions-IsCounted :
      (m : PresenceManager) (s : S) (between : S → S) (user_id connection_id : String)
      (expire_at : Option ℕ) (now : ℕ) (rooms : Option (List String)) (a : Answers)
      → IsCounted m
      → IsCountedAfter
          (register_connection r m s between user_id connection_id expire_at now rooms a)
        × IsCountedAfter (remove_connection r m s between user_id connection_id now rooms a)
  unfolding register_connection remove_connection
  transitions-IsCounted m s between user_id connection_id expire_at now rooms a h =
      let unnamed = not (truthy user_id) || not (truthy connection_id) in
      let counted =
        update_active_metrics
          (record m { local_connections = delete connection_id m.local_connections }) in
      let registered =
        answered r
          (execute_register_presence r s user_id m.instance_id connection_id
            (expire_at_of m expire_at now) now m.key_safeguard_ttl_sec)
          a.script in
      let removed =
        answered r
          (execute_remove_presence r s user_id m.instance_id connection_id now
            m.key_safeguard_ttl_sec)
          a.script in
      let deleted =
        update_active_metrics-IsCounted
          (record m { local_connections = delete connection_id m.local_connections })
          (delete-IsDistinct connection_id m.local_connections h.distinct) in
      (
        if-holds IsCountedAfter unnamed none
            (some (finish_registration r m s between user_id connection_id now rooms a registered))
            (λ _. tt)
            (λ _.
              finish_registration-IsCounted m s between user_id connection_id now rooms a registered
                h),
        if-holds IsCountedAfter unnamed none
            (some (finish_removal r counted s between user_id now rooms a removed)) (λ _. tt)
            (λ _. finish_removal-IsCounted counted s between user_id now rooms a removed deleted),
      )
