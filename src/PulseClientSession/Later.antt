-- ===== src/PulseClientSession/Later.antt =====
-- src/client/PulseClientSession.ts: how entries may change in time.
use pulse_distributed_real_t.Prelude.{
  ℕ, Bool, Option, [], ◌∷◌, true, ◌≤◌, ◌<◌, ◌≡◌, ◌==◌, arith, if-holds, refl, ◌∙◌, subst,
}
use pulse_distributed_real_t.JsMap.{JsMap}
use pulse_distributed_real_t.PulseClientSession.{
  PulseClientSession, InFlightEntry, SessionOptions, Settlement, put_entry, close_entry, settle,
}
use pulse_distributed_real_t.PulseClientSession.Lifecycle.{is_settled}
use pulse_distributed_real_t.PulseClientSession.Requests.{reject_all}
use pulse_distributed_real_t.PulseClientSession.Entries.{
  AreValid, IsValid, put-IsValid, settle-IsValid, with_entry-IsValid, all_rejected-IsValid,
}
use pulse_distributed_real_t.PulseClientSession.Moves.{IsKept}
use pulse_distributed_real_t.PulseClientSession.History.{IsFree}

-- Retries only grow, and a settled promise stays as it is.
pub record IsLater (was now : InFlightEntry) : Type 0 where
  pub grown : was.retries ≤ now.retries
  pub final : is_settled was.settlement ≡ true → now.settlement ≡ was.settlement

IsLater-refl : (e : InFlightEntry) → IsLater e e
IsLater-refl e = record { grown = omega arith; final = λ h. refl }

IsLater-trans : (a b c : InFlightEntry) → IsLater a b → IsLater b c → IsLater a c
IsLater-trans a b c p q = record {
  grown = ground (arith, p.grown, q.grown);
  final = λ h. let e = p.final h in q.final (ground (arith, e, h)) ∙ e;
}

settle_again : (was outcome : Settlement) → is_settled was ≡ true → settle was outcome ≡ was
unfolding settle is_settled
settle_again Settlement.pending outcome h = cc
settle_again (Settlement.resolved e) outcome h = refl
settle_again Settlement.delivery_timeout outcome h = refl
settle_again Settlement.session_closed outcome h = refl

close-IsLater : (e : InFlightEntry) (outcome : Settlement) → IsLater e (close_entry e outcome)
unfolding close_entry
close-IsLater e outcome = record { grown = omega arith; final = settle_again e.settlement outcome }

-- What became of the session `start`.
pub record Extends (start : PulseClientSession) (options : SessionOptions)
    (entries : ℕ → InFlightEntry) (next : ℕ) (queue : JsMap ℕ) (closed : Bool) (timer : Option ℕ)
    : Type 0 where
  pub valid : AreValid options entries next queue
  pub same : options ≡ start.options
  pub more : start.next_entry ≤ next
  pub later : (i : ℕ) → i < start.next_entry → IsLater (start.entries i) (entries i)

module _ (start : PulseClientSession) where
  abbrev AreLater : (ℕ → InFlightEntry) → Type 0
  AreLater entries = (i : ℕ) → i < start.next_entry → IsLater (start.entries i) (entries i)

  put-AreLater :
      (s : PulseClientSession) (i : ℕ) (e : InFlightEntry)
      → AreLater s.entries
      → IsLater (s.entries i) e
      → AreLater (put_entry s i e).entries
  put-AreLater s i e later now j h =
      if-holds (IsLater (start.entries j)) (i == j) _ _
        (λ same.
          let own : i ≡ j = ground (arith, same) in
          IsLater-trans (start.entries j) (s.entries j) e (later j h)
            (subst (λ k. IsLater (s.entries k) e) own now))
        (λ _. later j h)

  reject_all-AreLater :
      (s : PulseClientSession) (rest : JsMap ℕ)
      → AreLater s.entries
      → AreLater (reject_all s rest).entries
  unfolding reject_all
  reject_all-AreLater s [] later = later
  reject_all-AreLater s ((id, i) ∷ rest) later =
      let e : InFlightEntry = close_entry (s.entries i) Settlement.session_closed in
      reject_all-AreLater (put_entry s i e) rest
        (put-AreLater s i e later (close-IsLater (s.entries i) Settlement.session_closed))

  reject_all-keeps_numbers :
      (s : PulseClientSession) (rest : JsMap ℕ)
      → ((reject_all s rest).next_entry ≡ s.next_entry) × ((reject_all s rest).options ≡ s.options)
  unfolding reject_all
  reject_all-keeps_numbers s [] = (refl, refl)
  reject_all-keeps_numbers s ((id, i) ∷ rest) =
      reject_all-keeps_numbers (put_entry s i (close_entry (s.entries i) Settlement.session_closed))
        rest

  pub Extends-IsKept : IsKept (Extends start)
  unfolding reject_all
  Extends-IsKept = record {
    valid = λ s x. x.valid;
    retried = λ s i e x t same named more. record {
      valid = put-IsValid s i e x.valid t same named;
      same = x.same;
      more = x.more;
      later = put-AreLater s i e x.later (record { grown = more; final = λ h. same });
    };
    settled = λ s i outcome x made h. record {
      valid = settle-IsValid s i outcome x.valid made h;
      same = x.same;
      more = x.more;
      later =
          put-AreLater s i (close_entry (s.entries i) outcome) x.later
            (close-IsLater (s.entries i) outcome);
    };
    made = λ s id e x free. record {
      valid = with_entry-IsValid s id e x.valid free;
      same = ground (arith, x.same, reject_all-keeps_numbers s s.in_flight_queue);
      more = ground (arith, x.more);
      later = λ j h.
          if-holds (IsLater (start.entries j)) (s.next_entry == j) _ _
            (λ same. absurd (ground (arith, same, h, x.more))) (λ _. x.later j h);
    };
    rejected = λ s x. record {
      valid = all_rejected-IsValid s x.valid;
      same = ground (arith, x.same, reject_all-keeps_numbers s s.in_flight_queue);
      more = ground (arith, x.more, reject_all-keeps_numbers s s.in_flight_queue);
      later = reject_all-AreLater s s.in_flight_queue x.later;
    };
  }

  pub start-Extends :
      IsValid start
      → Extends start start.options start.entries start.next_entry start.in_flight_queue
          start.is_explicitly_closed start.reconnect_timer
  start-Extends v = record {
    valid = v;
    same = refl;
    more = omega arith;
    later = λ i h. IsLater-refl (start.entries i);
  }

  pub Extends-IsFree : IsFree (Extends start)
  Extends-IsFree options entries next queue c d t u x = record {
    valid = x.valid;
    same = x.same;
    more = x.more;
    later = x.later;
  }
