-- ===== src/Delivery/Tests.antt =====
-- A chain of two providers, the first of which rejects every message.
use pezhwan.Base.{
  ◌+◌, ◌*◌, ◌≤◌, ◌≡◌, refl, true, false, List, [], ◌∷◌, none, some, ◌==◌, length, if◌then◌else◌,
  arith,
}
use pezhwan.Delivery.{
  replies, Deps, World, Breaker, Member, new_breaker, opened, guard, dispatch, failure, run,
  run_from, is_open, record_failure, record_success, default_retryable,
}
use pezhwan.Delivery.Retry.{accepted_count, one_if}
use pezhwan.Delivery.Once.{dispatch-accepted_once}
use pezhwan.Delivery.Circuit.{calls, tripped_silent}

abbrev deps : Deps
deps = record {
  answer = λ id n.
      if id == 2
      then replies (record { ok = true; accepted = some true; error = none; status_code = none })
      else replies (failure 9);
  clock = λ n. 1000 + n;
  should_abort = λ n. false;
  attempts = 3;
  base_delay_ms = 250;
  max_delay_ms = 4000;
  failure_threshold = 5;
  success_threshold = 2;
  cooldown_ms = 30000;
}

abbrev chain : List Member
chain =
    record { provider = record { id = 1; supports = true }; breaker = new_breaker }
    ∷ record { provider = record { id = 2; supports = true }; breaker = new_breaker }
    ∷ []

abbrev world : World
world = record { messages = []; waits = []; reads = 0 }

sent_by_second : (dispatch deps chain world).0 ≡ true
unfolding dispatch run_from guard run is_open record_failure record_success default_retryable
sent_by_second = refl

dispatch-accepted_once_example :
    (accepted_count (dispatch deps chain world).1.1 ≡ 0 + one_if (dispatch deps chain world).0)
    × (length (dispatch deps chain world).1.1.messages ≤ 0 + 2 * 3)
dispatch-accepted_once_example = dispatch-accepted_once deps chain world

abbrev worn : Breaker
worn = record new_breaker { failures = 4 }

tripped_silent_example :
    let (after, sent) = (guard deps 1 worn world).1 in
    (after.state ≡ opened) × ((calls deps 1 7 after sent).1.messages ≡ sent.messages)
unfolding guard run run_from is_open record_failure record_success default_retryable
tripped_silent_example =
    tripped_silent deps 1 7 worn world refl (omega arith) refl (λ k h. omega arith)
