-- ===== src/PresenceManager/Roster.antt =====
-- `getRoomRoster` of src/redis/PresenceManager.ts: the roster of Redis, or that of the node.
use pulse_distributed_real_t.JsMap.{contains, keys, get, add, JsSet, has}
use pulse_distributed_real_t.JsMap.Laws.{get-set, contains-keys}
use pulse_distributed_real_t.IdempotencyManager.Hash.{sort_keys, contains-sort_keys}
use pulse_distributed_real_t.Handlers.Joining.{Roster}
use pulse_distributed_real_t.RedisStore.{RedisStore, IsRedis}
use pulse_distributed_real_t.PresenceLuaScripts.{
  execute_get_room_presence_roster, get_room_members_key,
}
use pulse_distributed_real_t.PresenceLuaScripts.Members.{IsPlain}
use pulse_distributed_real_t.PresenceLuaScripts.Rosters.{
  online_of, execute_get_room_presence_roster_lem,
}
use pulse_distributed_real_t.PresenceManager.{PresenceManager, users_of, collect, String}
use pulse_distributed_real_t.Prelude.{
  String, List, Bool, ℕ, Option, length, ◌≡◌, some, trim, truthy, ◌∙◌, true, if◌then◌else◌, none,
  refl, [], not, ap, All, ◌||◌, false, arith, subst, ◌∷◌, sym,
}
use mathlib.Core.Option.{none}
use mathlib.Core.Bool.{false}

-- Array.from(new Set(ids)).sort(), with the room and the number of ids.
unfoldable pub roster_payload : String → List String → Roster
unfolding users_of
roster_payload room_id ids =
    let members = sort_keys (keys (users_of ids)) in
    record { room_id = room_id; members = members; total_online = length members }

unfoldable pub local_members : PresenceManager → String → List String
local_members m room_id = elim m.local_roster_provider [
  | none ↦ []
  | some provider ↦ provider room_id
]

has-collect :
    (n : String) (ids : List String) (seen : JsSet)
    → has n (collect seen ids) ≡ (has n seen || contains n ids)
unfolding collect contains
has-collect n [] seen = ground arith
has-collect n (u ∷ us) seen = ground (arith, has-collect n us (add u seen), get-set n u tt seen)

-- Making a list unique and sorted keeps its members.
contains-roster_payload :
    (room_id : String) (ids : List String) (n : String)
    → contains n (roster_payload room_id ids).members ≡ contains n ids
unfolding roster_payload users_of get
contains-roster_payload room_id ids n =
    contains-sort_keys n (keys (users_of ids))
    ∙ contains-keys n (users_of ids)
    ∙ has-collect n ids []

module _ {S : Type 0} (r : RedisStore S) where
  -- The script's answer, unless it throws or Redis does not answer.
  unfoldable pub roster_or_local :
      PresenceManager → S → String → Bool → Option (S × List String) → S × Roster
  unfolding roster_payload local_members
  roster_or_local m s room_id true (some (t, ids)) = (t, roster_payload room_id ids)
  roster_or_local m s room_id true none = (s, roster_payload room_id (local_members m room_id))
  roster_or_local m s room_id false found = (s, roster_payload room_id (local_members m room_id))

  unfoldable pub get_room_roster : PresenceManager → S → String → ℕ → Bool → S × Roster
  unfolding roster_or_local execute_get_room_presence_roster
  get_room_roster m s room_id now answers =
      let trimmed = trim room_id in
      if not (truthy trimmed)
      then (s, record { room_id = ""; members = []; total_online = 0 })
      else roster_or_local m s trimmed answers (execute_get_room_presence_roster r s trimmed now)

-- A roster of a room that lists just the ids of a list, and counts them.
abbrev pub IsRosterOf : String → List String → Roster → Type 0
IsRosterOf room_id ids roster =
    (roster.room_id ≡ room_id)
    × (roster.total_online ≡ length roster.members)
    × ((n : String) → contains n roster.members ≡ contains n ids)

roster_payload-IsRosterOf :
    (room_id : String) (ids : List String) → IsRosterOf room_id ids (roster_payload room_id ids)
unfolding roster_payload
roster_payload-IsRosterOf room_id ids = (refl, refl, contains-roster_payload room_id ids)

module _ {S : Type 0} (r : RedisStore S) (laws : IsRedis r) where
  get_room_roster_found :
      (m : PresenceManager) (s : S) (room_id : String) (now : ℕ) (answers : Bool)
      → truthy (trim room_id) ≡ true
      → get_room_roster r m s room_id now answers
        ≡ roster_or_local r m s
            (trim room_id)
            answers
            (execute_get_room_presence_roster r s (trim room_id) now)
  unfolding get_room_roster
  get_room_roster_found m s room_id now answers named =
      ap
        (λ b.
          if not b
          then (s, record { room_id = ""; members = []; total_online = 0 })
          else roster_or_local r m s (trim room_id) answers
              (execute_get_room_presence_roster r s (trim room_id) now))
        named

  -- For a room id that is not blank, whose members in Redis are not blank and have no comma: when
  -- Redis answers, the roster lists just the members with a lease past now, with their number, and
  -- just these are left in the room. When it does not, the store stays as it is and the roster
  -- lists just the local members.
  pub get_room_roster_lem :
      (m : PresenceManager) (s : S) (room_id room_key : String) (now : ℕ)
      → truthy (trim room_id) ≡ true
      → get_room_members_key (trim room_id) ≡ some room_key
      → All IsPlain (r.smembers s room_key)
      → let (t, roster) = get_room_roster r m s room_id now true in
        let (u, fallback) = get_room_roster r m s room_id now false in
        let online = online_of r laws s now (r.smembers s room_key) in
        IsRosterOf (trim room_id) online roster
        × ((n : String) → contains n (r.smembers t room_key) ≡ contains n online)
        × (u ≡ s)
        × IsRosterOf (trim room_id) (local_members m (trim room_id)) fallback
  unfolding roster_or_local
  get_room_roster_lem m s room_id room_key now named keyed plain =
      let online = online_of r laws s now (r.smembers s room_key) in
      let (found, left) =
        execute_get_room_presence_roster_lem r laws s (trim room_id) room_key now keyed plain in
      let answer =
        get_room_roster_found m s room_id now true named
        ∙ ap (roster_or_local r m s (trim room_id) true) found in
      let failure = get_room_roster_found m s room_id now false named in
      (
        subst (λ x. IsRosterOf (trim room_id) online x.1) (sym answer)
            (roster_payload-IsRosterOf (trim room_id) online),
        λ n. ap (λ x. contains n (r.smembers x.0 room_key)) answer ∙ left n,
        ap (λ x. x.0) failure,
        subst (λ x. IsRosterOf (trim room_id) (local_members m (trim room_id)) x.1) (sym failure)
            (roster_payload-IsRosterOf (trim room_id) (local_members m (trim room_id))),
      )
