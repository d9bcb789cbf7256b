-- ===== src/PulseServer/Slots.antt =====
-- src/core/PulseServer.ts: the slots that upgrades reserve and give back.
use pulse_distributed_real_t.Prelude.{
  ℕ, zero, suc, String, Bool, true, false, not, if◌then◌else◌, ◌≡◌, ◌+◌, ◌≤◌, ◌<◌, leb, arith,
  if-holds,
}
use pulse_distributed_real_t.Connection.{Socket, WebSocketLib}
use pulse_distributed_real_t.ConnectionManager.{
  ConnectionManager, try_acquire_slot, release_pending_slot, remove_connection,
}
use pulse_distributed_real_t.ConnectionManager.Admission.{IsAdmitted, Step, Step-IsAdmitted}
use pulse_distributed_real_t.OriginMatcher.{UrlLib, is_allowed}
use pulse_distributed_real_t.Node.{Env}
use pulse_distributed_real_t.PulseServer.{
  PulseServer, AuthResult, UpgradeRequest, UpgradeOutcome, handle_upgrade, admit_upgrade,
  authenticate_upgrade, on_early_close, on_upgraded, put_claim, put_manager,
}
use pulse_distributed_real_t.PulseServer.Lifecycle.{on_socket_close}

-- The handshakes under way among the first `n` upgrades.
unfoldable pub under_way : (ℕ → Bool) → ℕ → ℕ
under_way claimed zero = 0
under_way claimed (suc n) = under_way claimed n + (if claimed n then 1 else 0)

-- An upgrade, what follows the gateway's answer, the end of its socket, the end of its handshake, the end of a connection, and whatever
-- leaves the connection manager and the claims alone.
pub data ServerStep (url : UrlLib) (ws : WebSocketLib) : PulseServer → PulseServer → Type 0 where
  upgrade : (s : PulseServer) (r : UpgradeRequest) → ServerStep url ws s (handle_upgrade url s r).0
  admit : (s : PulseServer) (auth : AuthResult) → ServerStep url ws s (admit_upgrade s auth).0
  early_close : (s : PulseServer) (i : ℕ) → ServerStep url ws s (on_early_close s i)
  upgraded :
      (s : PulseServer) (i : ℕ) (env : Env) (socket : Socket) (user_id : String)
      → ServerStep url ws s (on_upgraded ws s i env socket user_id)
  socket_close :
      (s : PulseServer) (id : String) (code : ℕ) (reason : String)
      → ServerStep url ws s (on_socket_close url s id code reason)
  elsewhere :
      (s t : PulseServer)
      → t.node.connection_manager ≡ s.node.connection_manager
      → t.claimed ≡ s.claimed
      → t.upgrades ≡ s.upgrades
      → ServerStep url ws s t

pub data ServerReach (url : UrlLib) (ws : WebSocketLib) (s : PulseServer)
    : PulseServer → Type 0 where
  here : ServerReach url ws s s
  next :
      {t u : PulseServer} → ServerReach url ws s t → ServerStep url ws t u → ServerReach url ws s u

pub record AreBalanced (limit : ℕ) (m : ConnectionManager) (claimed : ℕ → Bool) (upgrades : ℕ)
    : Type 0 where
  pub admitted : IsAdmitted limit m
  pub balanced : m.pending_connections ≡ under_way claimed upgrades
  pub later : (i : ℕ) → upgrades ≤ i → claimed i ≡ false

abbrev pub IsBalanced : ℕ → PulseServer → Type 0
IsBalanced limit s = AreBalanced limit s.node.connection_manager s.claimed s.upgrades

-- A claim that is changed counts for itself only.
under_way-put :
    (claimed : ℕ → Bool) (i n : ℕ) (b : Bool)
    → under_way (put_claim claimed i b) n + (if leb n i then 0 else if claimed i then 1 else 0)
      ≡ under_way claimed n + (if leb n i then 0 else if b then 1 else 0)
unfolding under_way
under_way-put claimed i zero b = ground arith
under_way-put claimed i (suc n) b = ground (arith, under_way-put claimed i n b)

-- The claim of a new upgrade, and one that is given up.
claim-under_way :
    (claimed : ℕ → Bool) (n : ℕ)
    → claimed n ≡ false
    → under_way (put_claim claimed n true) (n + 1) ≡ under_way claimed n + 1
unfolding under_way
claim-under_way claimed n free = ground (arith, under_way-put claimed n n true)

pub unclaim-under_way :
    (claimed : ℕ → Bool) (i n : ℕ)
    → i < n
    → claimed i ≡ true
    → under_way (put_claim claimed i false) n + 1 ≡ under_way claimed n
unclaim-under_way claimed i n below held = ground (arith, under_way-put claimed i n false)

-- Only upgrades that were let through hold a claim.
pub claimed-made :
    (limit : ℕ) (s : PulseServer) (i : ℕ) → IsBalanced limit s → s.claimed i ≡ true → i < s.upgrades
claimed-made limit s i b held = ground (arith, held, b.later i)

pub remove-keeps_pending :
    (m : ConnectionManager) (id : String)
    → (remove_connection m id).0.pending_connections ≡ m.pending_connections
unfolding remove_connection
remove-keeps_pending m id = ground arith

pub early_close-IsBalanced :
    (limit : ℕ) (s : PulseServer) (i : ℕ)
    → IsBalanced limit s
    → IsBalanced limit (on_early_close s i)
unfolding on_early_close release_pending_slot
early_close-IsBalanced limit s i b =
    if-holds (IsBalanced limit) (s.claimed i) _ _
      (λ held.
        let made = claimed-made limit s i b held in
        let fewer = unclaim-under_way s.claimed i s.upgrades made held in
        record {
          admitted = Step-IsAdmitted limit (Step.release s.node.connection_manager) b.admitted;
          balanced = ground (arith, b.balanced, fewer);
          later = λ j h. ground (arith, b.later j h);
        })
      (λ _. b)

authenticate_upgrade-IsBalanced :
    (limit : ℕ) (s : PulseServer) (auth : AuthResult)
    → IsAdmitted limit s.node.connection_manager
    → s.node.connection_manager.pending_connections ≡ under_way s.claimed s.upgrades + 1
    → ((i : ℕ) → s.upgrades ≤ i → s.claimed i ≡ false)
    → IsBalanced limit (authenticate_upgrade s auth).0
unfolding authenticate_upgrade release_pending_slot
authenticate_upgrade-IsBalanced limit s AuthResult.unauthenticated admitted more later = record {
  admitted = Step-IsAdmitted limit (Step.release s.node.connection_manager) admitted;
  balanced = ground (arith, more);
  later = later;
}
authenticate_upgrade-IsBalanced limit s (AuthResult.authenticated user_id) admitted more later =
    record {
      admitted = admitted;
      balanced =
          ground
            (arith, more, claim-under_way s.claimed s.upgrades (later s.upgrades (omega arith)));
      later = λ i h. ground (arith, h, later i);
    }

acquire-more :
    (m : ConnectionManager)
    → (try_acquire_slot m).1 ≡ true
    → (try_acquire_slot m).0.pending_connections ≡ m.pending_connections + 1
unfolding try_acquire_slot
acquire-more m h = ground (arith, h)

abbrev BalancedFirst : ℕ → PulseServer × UpgradeOutcome → Type 0
BalancedFirst limit r = IsBalanced limit r.0

pub admit-IsBalanced :
    (limit : ℕ) (s : PulseServer) (auth : AuthResult)
    → IsBalanced limit s
    → IsBalanced limit (admit_upgrade s auth).0
unfolding admit_upgrade
admit-IsBalanced limit s auth b =
    let m = s.node.connection_manager in
    let slot = try_acquire_slot m in
    if-holds (BalancedFirst limit) (not slot.1) _ _ (λ _. b)
      (λ got.
        authenticate_upgrade-IsBalanced limit (put_manager s slot.0) auth
          (Step-IsAdmitted limit (Step.acquire m) b.admitted)
          (ground (arith, acquire-more m, got, b.balanced)) b.later)

pub upgrade-IsBalanced :
    (url : UrlLib) (limit : ℕ) (s : PulseServer) (r : UpgradeRequest)
    → IsBalanced limit s
    → IsBalanced limit (handle_upgrade url s r).0
unfolding handle_upgrade
upgrade-IsBalanced url limit s r b =
    if-holds (BalancedFirst limit) s.is_shutting_down _ _ (λ _. b)
      (λ _.
        if-holds (BalancedFirst limit) (not (is_allowed url r.origin s.config.allowed_origins)) _ _
          (λ _. b) (λ _. admit-IsBalanced limit s r.auth b))
