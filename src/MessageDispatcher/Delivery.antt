-- ===== src/MessageDispatcher/Delivery.antt =====
-- The delivery loops: who is sent the frame, and what stays as it was.
use text.Mathlib.TextEquality.{eq_iff}
use pulse_distributed_real_t.Prelude.{
  String, List, [], ◌∷◌, Bool, false, not, ◌≡◌, refl, arith, ◌&&◌, ◌=ₛ◌, is_some, Bool-cases,
  if◌then◌else◌, inl, inr,
}
use pulse_distributed_real_t.JsMap.{contains}
use pulse_distributed_real_t.Envelope.{PulseEventEnvelope}
use pulse_distributed_real_t.Connection.{WebSocketLib, send}
use pulse_distributed_real_t.ConnectionManager.{get_connection}
use pulse_distributed_real_t.Node.{Node, send_to}
use pulse_distributed_real_t.Handlers.Messaging.{deliver_to_members}

-- No id twice.
abbrev pub IsUnique : List String → Type 0
IsUnique [] = Unit {0}
IsUnique (x ∷ xs) = (contains x xs ≡ false) × IsUnique xs

-- Everything but the store is as it was.
abbrev pub SameManagers : Node → Node → Type 0
SameManagers n m =
    (m.config ≡ n.config)
    × (m.connection_manager ≡ n.connection_manager)
    × (m.room_manager ≡ n.room_manager)
    × (m.idempotency_manager ≡ n.idempotency_manager)
    × (m.published ≡ n.published)

-- Who is to be sent a broadcast of the sender: a registered connection other than the sender's.
abbrev pub is_recipient : Node → String → String → Bool
is_recipient n sender_id id =
    not (id =ₛ sender_id) && is_some (get_connection n.connection_manager id)

module _ (ws : WebSocketLib) where
  pub deliver_to_members-SameManagers :
      (n : Node) (sender_id : String) (e : PulseEventEnvelope) (ids : List String)
      → SameManagers n (deliver_to_members ws n sender_id e ids).0
  unfolding deliver_to_members send_to
  deliver_to_members-SameManagers n sender_id e [] = (refl, refl, refl, refl, refl)
  deliver_to_members-SameManagers n sender_id e (id ∷ ids) =
      elim (Bool-cases (is_recipient n sender_id id)) [
        | inl told ↦ rw told (deliver_to_members-SameManagers (send_to ws n id e).0 sender_id e ids)
        | inr skipped ↦ rw skipped (deliver_to_members-SameManagers n sender_id e ids)
      ]

  -- Each recipient in the list is sent the frame once, and every other connection is left alone.
  pub deliver_to_members-store :
      (n : Node) (sender_id : String) (e : PulseEventEnvelope) (ids : List String) (j : String)
      → IsUnique ids
      → (deliver_to_members ws n sender_id e ids).0.store j ≡ (
          if contains j ids && is_recipient n sender_id j
          then (send ws (n.store j) e).0
          else n.store j)
  unfolding deliver_to_members send_to contains
  deliver_to_members-store n sender_id e [] j u = refl
  deliver_to_members-store n sender_id e (id ∷ ids) j u =
      elim (Bool-cases (is_recipient n sender_id id)) [
        | inl told ↦ rw told (elim (Bool-cases (id =ₛ j)) [
          | inl same ↦ ground (
            arith,
            deliver_to_members-store (send_to ws n id e).0 sender_id e ids j u.1,
            eq_iff id j,
            u.0,
          )
          | inr other ↦ ground (
            arith,
            deliver_to_members-store (send_to ws n id e).0 sender_id e ids j u.1,
            eq_iff id j,
          )
        ])
        | inr skipped ↦
            rw skipped
              (ground (arith, deliver_to_members-store n sender_id e ids j u.1, eq_iff id j))
      ]
