-- ===== src/Delivery.antt =====
-- packages/core/src/adapters/otp-provider.ts and otp-delivery-manager.ts: the delivery of codes, with
-- retries, a circuit breaker and a chain of providers. What a provider answers to the n-th message is a
-- parameter, as are the clock, by the number of its reading, and the signal that aborts retries; the
-- jitter of the delays and the measured latencies are left out. Texts are numbers.
pub mod Retry
pub mod Circuit
pub mod Once
mod Tests
use pezhwan.Base.{
  ℕ, zero, suc, ◌+◌, ◌-◌, ◌*◌, ◌^◌, min, Bool, true, false, not, ◌&&◌, ◌||◌, List, [], ◌∷◌, ◌++◌,
  Option, none, some, ◌==◌, length, ltb, leb, if◌then◌else◌,
}

pub record DeliveryResult : Type 0 where
  pub ok : Bool
  pub accepted : Option Bool
  pub error : Option ℕ
  pub status_code : Option ℕ

-- The answer of a provider: a result, or an error with its message, which may be an AbortError.
pub data Answer : Type 0 where
  replies : DeliveryResult → Answer
  throws : (is_abort : Bool) → ℕ → Answer

pub data CircuitState : Type 0 where
  closed opened half_open : CircuitState

pub record Provider : Type 0 where
  pub id : ℕ
  -- Whether it has a method for the channel.
  pub supports : Bool

pub record Deps : Type 0 where
  pub answer : ℕ → ℕ → Answer
  pub clock : ℕ → ℕ
  pub should_abort : ℕ → Bool
  pub attempts : ℕ
  pub base_delay_ms : ℕ
  pub max_delay_ms : ℕ
  pub failure_threshold : ℕ
  pub success_threshold : ℕ
  pub cooldown_ms : ℕ

-- A message to a provider, and whether its reply was ok.
pub record Message : Type 0 where
  pub to : ℕ
  pub accepted : Bool

-- The messages sent, the delays waited for, in order, and the number of readings of the clock.
pub record World : Type 0 where
  pub messages : List Message
  pub waits : List ℕ
  pub reads : ℕ

abbrev pub retry_aborted : ℕ
retry_aborted = 1

abbrev pub delivery_failed : ℕ
delivery_failed = 2

abbrev pub circuit_open : ℕ
circuit_open = 3

abbrev pub failure : ℕ → DeliveryResult
failure e = record { ok = false; accepted = none; error = some e; status_code = none }

abbrev pub code_of : Option ℕ → ℕ
code_of none = 0
code_of (some c) = c

-- Not after 4xx, but after 429.
pub default_retryable : DeliveryResult → Bool
default_retryable r =
    if r.ok
    then false
    else not (
        leb 400 (code_of r.status_code)
        && ltb (code_of r.status_code) 500
        && not (code_of r.status_code == 429))

pub backoff : (base max attempt : ℕ) → ℕ
backoff base max attempt = min (base * 2 ^ (attempt - 1)) max

abbrev pub is_accepted : Answer → Bool
is_accepted (replies r) = r.ok
is_accepted (throws a e) = false

-- Whether the loop returns the answer, and what it returns or remembers.
abbrev pub is_final : (last : Bool) → Answer → Bool
is_final last (replies r) = r.ok || last || not (default_retryable r)
is_final last (throws a e) = last || a

abbrev pub result_of : Answer → DeliveryResult
result_of (replies r) = r
result_of (throws a e) = failure e

abbrev pub or_failed : Option DeliveryResult → DeliveryResult
or_failed none = failure delivery_failed
or_failed (some r) = r

abbrev pub is_zero : ℕ → Bool
is_zero n = n == 0

-- A breaker with its counters.
pub record Breaker : Type 0 where
  pub state : CircuitState
  pub failures : ℕ
  pub successes : ℕ
  pub opened_at : ℕ

abbrev pub new_breaker : Breaker
new_breaker = record { state = closed; failures = 0; successes = 0; opened_at = 0 }

-- A provider of a chain, wrapped.
pub record Member : Type 0 where
  pub provider : Provider
  pub breaker : Breaker

module _ (deps : Deps) where
  abbrev pub send : ℕ → World → Answer × World
  send id w =
      let a = deps.answer id (length w.messages) in
      (a, record w { messages = w.messages ++ record { to = id; accepted = is_accepted a } ∷ [] })

  abbrev pub wait_if : Bool → ℕ → World → World
  wait_if true attempt w = record w {
    waits = w.waits ++ backoff deps.base_delay_ms deps.max_delay_ms attempt ∷ [];
  }
  wait_if false attempt w = w

  -- The loop of withRetry, with the attempts that are left.
  unfoldable pub run_from :
      (left attempt id : ℕ) → Option DeliveryResult → World → DeliveryResult × World
  unfolding backoff
  run_from zero attempt id last w = (or_failed last, w)
  run_from (suc left) attempt id last w =
      let (a, sent) = send id w in
      let further =
        run_from left (suc attempt) id (some (result_of a))
          (wait_if (not (is_zero left)) attempt sent) in
      if deps.should_abort (length w.messages)
      then (failure retry_aborted, w)
      else if is_final (is_zero left) a
      then (result_of a, sent)
      else further

  unfoldable pub run : ℕ → World → DeliveryResult × World
  run id w = run_from deps.attempts 1 id none w

  abbrev pub opens : Breaker → World → Breaker × World
  opens b w = (
    record b { state = opened; opened_at = deps.clock w.reads },
    record w { reads = suc w.reads },
  )

  abbrev pub failed_in : CircuitState → Breaker → World → Breaker × World
  failed_in closed b w = if leb deps.failure_threshold b.failures then opens b w else (b, w)
  failed_in half_open b w = opens b w
  failed_in opened b w = (b, w)

  unfoldable pub record_failure : Breaker → World → Breaker × World
  record_failure b w = failed_in b.state (record b { failures = b.failures + 1; successes = 0 }) w

  abbrev pub succeeded_in : CircuitState → Breaker → Breaker
  succeeded_in half_open b =
      if leb deps.success_threshold b.successes
      then record b { state = closed; failures = 0 }
      else b
  succeeded_in opened b = record b { state = half_open }
  succeeded_in closed b = b

  unfoldable pub record_success : Breaker → Breaker
  record_success b = succeeded_in b.state (record b { successes = b.successes + 1 })

  abbrev pub cooled : ℕ → Breaker → Bool × Breaker
  cooled now b =
      if leb (b.opened_at + deps.cooldown_ms) now
      then (false, record b { state = half_open; failures = 0 })
      else (true, b)

  abbrev pub open_in : CircuitState → Breaker → World → Bool × (Breaker × World)
  open_in opened b w =
      let (shut, after) = cooled (deps.clock w.reads) b in
      (shut, (after, record w { reads = suc w.reads }))
  open_in _ b w = (false, (b, w))

  unfoldable pub is_open : Breaker → World → Bool × (Breaker × World)
  is_open b w = open_in b.state b w

  abbrev pub short_circuited : DeliveryResult
  short_circuited = record {
    ok = false;
    accepted = some false;
    error = some circuit_open;
    status_code = some 503;
  }

  abbrev pub recorded : DeliveryResult → Breaker → World → DeliveryResult × (Breaker × World)
  recorded r b w = if r.ok then (r, (record_success b, w)) else (r, record_failure b w)

  -- `guard` over the retries, which do not throw.
  unfoldable pub guard : ℕ → Breaker → World → DeliveryResult × (Breaker × World)
  unfolding run record_success record_failure is_open
  guard id b w =
      let (shut, (asked, read)) = is_open b w in
      let (r, sent) = run id read in
      if shut then (short_circuited, (asked, read)) else recorded r asked sent

  -- Whether a provider has accepted, with the breakers afterwards.
  unfoldable pub dispatch : List Member → World → Bool × (List Member × World)
  unfolding guard
  dispatch [] w = (false, ([], w))
  dispatch (m ∷ l) w =
      let (r, (b, sent)) = guard m.provider.id m.breaker w in
      let asked : Member = if m.provider.supports then record m { breaker = b } else m in
      let (found, (later, after)) = dispatch l (if m.provider.supports then sent else w) in
      if m.provider.supports && r.ok
      then (true, (asked ∷ l, sent))
      else (found, (asked ∷ later, after))
