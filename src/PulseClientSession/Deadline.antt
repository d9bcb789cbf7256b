-- ===== src/PulseClientSession/Deadline.antt =====
-- src/client/PulseClientSession.ts: the firings of an entry's timer and its promise.
use pulse_distributed_real_t.Prelude.{
  ℕ, [], ◌∷◌, true, ◌<◌, ◌≡◌, ◌==◌, arith, refl, subst, List, Bool, false, if◌then◌else◌, ◌+◌, ◌⊎◌,
  Bool-cases, ltb, inl, inr, ap,
}
use pulse_distributed_real_t.PulseClientSession.{
  PulseClientSession, Settlement, close_entry, settle, on_ack_timeout, transmit_frame,
}
use pulse_distributed_real_t.PulseClientSession.Lifecycle.{is_settled}
use pulse_distributed_real_t.PulseClientSession.Requests.{ClientEvent, step, run}
use pulse_distributed_real_t.PulseClientSession.Entries.{IsValid, settle-is_settled}
use pulse_distributed_real_t.PulseClientSession.History.{step-keeps, run-keeps}
use pulse_distributed_real_t.PulseClientSession.Later.{
  Extends, Extends-IsKept, Extends-IsFree, start-Extends,
}

-- Does the event fire the timer of an entry, and how often does a history?
unfoldable pub fires : ℕ → ClientEvent → Bool
fires i (ClientEvent.ack_timer_fired j) = j == i
fires i other = false

unfoldable pub firings : ℕ → List ClientEvent → ℕ
unfolding fires
firings i [] = 0
firings i (event ∷ events) = (if fires i event then 1 else 0) + firings i events

-- A timer that fires retries or gives up.
on_ack_timeout-progress :
    (s : PulseClientSession) (i : ℕ)
    → IsValid s
    → i < s.next_entry
    → is_settled (s.entries i).settlement ≡ false
    → let e = (on_ack_timeout s i).entries i in
      (is_settled e.settlement ≡ true) ⊎ ((s.entries i).retries < e.retries)
unfolding on_ack_timeout transmit_frame close_entry settle is_settled
on_ack_timeout-progress s i v made waiting =
    let armed = (v.timed i made).armed in
    elim (Bool-cases (ltb (s.entries i).retries s.options.max_retries)) [
      | inl more ↦ inr (ground (arith, more, armed, waiting, made))
      | inr over ↦ inl ground (
        arith,
        over,
        armed,
        waiting,
        made,
        settle-is_settled (s.entries i).settlement Settlement.delivery_timeout refl,
      )
    ]

step-progress :
    (s : PulseClientSession) (i : ℕ) (event : ClientEvent)
    → IsValid s
    → i < s.next_entry
    → is_settled (s.entries i).settlement ≡ false
    → fires i event ≡ true
    → let e = (step s event).entries i in
      (is_settled e.settlement ≡ true) ⊎ ((s.entries i).retries < e.retries)
unfolding step fires
step-progress s i (ClientEvent.ack_timer_fired j) v made waiting h =
    let same : i ≡ j = ground (arith, h) in
    subst
      (λ k.
        let e = (on_ack_timeout s k).entries i in
        (is_settled e.settlement ≡ true) ⊎ ((s.entries i).retries < e.retries))
      same (on_ack_timeout-progress s i v made waiting)
step-progress s i other v made waiting h = cc

pub run-keeps_settlement :
    (s : PulseClientSession) (events : List ClientEvent) (i : ℕ)
    → IsValid s
    → i < s.next_entry
    → is_settled (s.entries i).settlement ≡ true
    → ((run s events).entries i).settlement ≡ (s.entries i).settlement
run-keeps_settlement s events i v made h =
    ((run-keeps (Extends s) (Extends-IsKept s) (Extends-IsFree s) s events
          (start-Extends s v)).later
        i made).final
      h

still-settled :
    (s : PulseClientSession) (events : List ClientEvent) (i : ℕ)
    → IsValid s
    → i < s.next_entry
    → is_settled (s.entries i).settlement ≡ true
    → is_settled ((run s events).entries i).settlement ≡ true
still-settled s events i v made h = ground (arith, h, run-keeps_settlement s events i v made h)

-- In a history in which the timer of an entry fires more often than it has retries left, the
-- entry's promise settles, whatever else happens to the valid session.
pub run-settles :
    (s : PulseClientSession) (events : List ClientEvent) (i : ℕ)
    → IsValid s
    → i < s.next_entry
    → s.options.max_retries < (s.entries i).retries + firings i events
    → is_settled ((run s events).entries i).settlement ≡ true
unfolding run firings
run-settles s [] i v made h = absurd (ground (arith, h, (v.timed i made).retried))
run-settles s (event ∷ events) i v made h =
    let x =
      step-keeps (Extends s) (Extends-IsKept s) (Extends-IsFree s) s event (start-Extends s v) in
    let t = step s event in
    let there : i < t.next_entry = ground (arith, x.more, made) in
    let limit = ap (λ o. o.max_retries) x.same in
    let grown = (x.later i made).grown in
    elim (Bool-cases (is_settled (s.entries i).settlement)) [
      | inl over ↦ still-settled s (event ∷ events) i v made over
      | inr waiting ↦ elim (Bool-cases (fires i event)) [
        | inl fired ↦ elim (step-progress s i event v made waiting fired) [
          | inl over ↦ still-settled t events i x.valid there over
          | inr more ↦ run-settles t events i x.valid there (ground (arith, h, limit, fired, more))
        ]
        | inr other ↦ run-settles t events i x.valid there (ground (arith, h, limit, other, grown))
      ]
    ]
