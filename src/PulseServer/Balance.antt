-- ===== src/PulseServer/Balance.antt =====
-- src/core/PulseServer.ts: the reserved slots over a server's history.
use pulse_distributed_real_t.Prelude.{ℕ, false, ◌≡◌, ◌<◌}
use pulse_distributed_real_t.ConnectionManager.{ConnectionManager}
use pulse_distributed_real_t.ConnectionManager.Admission.{IsAdmitted}
use pulse_distributed_real_t.PulseServer.{PulseServer}
use pulse_distributed_real_t.Prelude.{◌<◌}

-- A server without connections, reserved slots and upgrades.
pub record IsFresh (limit : ℕ) (s : PulseServer) : Type 0 where
  pub admitted : IsAdmitted limit s.node.connection_manager
  pub unreserved : s.node.connection_manager.pending_connections ≡ 0
  pub unused : s.upgrades ≡ 0
  pub unclaimed : (i : ℕ) → s.claimed i ≡ false
