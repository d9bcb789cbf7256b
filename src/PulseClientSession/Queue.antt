-- ===== src/PulseClientSession/Queue.antt =====
-- src/client/PulseClientSession.ts: the invariant over a session's histories.
use pulse_distributed_real_t.Prelude.{ℕ, List, arith}
use pulse_distributed_real_t.JsMap.{get}
use pulse_distributed_real_t.PulseClientSession.{SessionOptions, InFlightEntry, new_session}
use pulse_distributed_real_t.PulseClientSession.Requests.{ClientEvent, run}
use pulse_distributed_real_t.PulseClientSession.Entries.{
  AreValid, IsValid, put-IsValid, settle-IsValid, with_entry-IsValid, all_rejected-IsValid,
}
use pulse_distributed_real_t.PulseClientSession.Moves.{IsKept, Property}
use pulse_distributed_real_t.PulseClientSession.History.{run-keeps}

abbrev Validity : Property
Validity options entries next queue closed timer = AreValid options entries next queue

Validity-IsKept : IsKept Validity
Validity-IsKept = record {
  valid = λ s v. v;
  retried = λ s i e v t same named more. put-IsValid s i e v t same named;
  settled = settle-IsValid;
  made = with_entry-IsValid;
  rejected = all_rejected-IsValid;
}

pub new_session-IsValid :
    (options : SessionOptions) (unused : ℕ → InFlightEntry) → IsValid (new_session options unused)
unfolding new_session get
new_session-IsValid options unused = record {
  timed = λ i h. absurd (ground (arith, h));
  distinct = tt;
  bounded = ground arith;
  queued = λ id i h. absurd (ground (arith, h));
}

-- Whatever happens to a new session, an entry's timer runs exactly while its promise is pending and
-- its retries are within the bound; the queue has no more entries than its capacity, no id twice,
-- and only pending entries, each under its own correlation id.
pub run_new_session-IsValid :
    (options : SessionOptions) (unused : ℕ → InFlightEntry) (events : List ClientEvent)
    → IsValid (run (new_session options unused) events)
run_new_session-IsValid options unused events =
    run-keeps Validity Validity-IsKept (λ o e n q c d t u v. v) (new_session options unused) events
      (new_session-IsValid options unused)
