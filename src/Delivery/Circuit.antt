-- ===== src/Delivery/Circuit.antt =====
-- When the circuit breaker of packages/core/src/adapters/otp-provider.ts opens, and what it then does.
use pezhwan.Base.{
  ℕ, zero, suc, ◌+◌, ◌≤◌, ◌<◌, ◌≡◌, ◌∙◌, ap, refl, inl, inr, true, false, arith, Bool-cases, leb,
}
use pezhwan.Delivery.{
  CircuitState, closed, opened, half_open, Deps, Breaker, World, run, record_failure,
  record_success, open_in, succeeded_in, is_open, recorded, short_circuited, guard,
}
use pezhwan.Delivery.Retry.{run-reads}

module _ (deps : Deps) (id : ℕ) where
  -- So many calls in a row.
  pub calls : ℕ → Breaker → World → Breaker × World
  calls zero b w = (b, w)
  calls (suc n) b w = let (_, (after, sent)) = guard deps id b w in calls n after sent

  guard-opened :
      (b : Breaker) (w : World)
      → b.state ≡ opened
      → deps.clock w.reads < b.opened_at + deps.cooldown_ms
      → guard deps id b w ≡ (short_circuited deps, (b, record w { reads = suc w.reads }))
  unfolding guard is_open
  guard-opened b w trip early =
      let hot : leb (b.opened_at + deps.cooldown_ms) (deps.clock w.reads) ≡ false = ground arith in
      rw (trip, hot) refl

  calls-opened :
      (n : ℕ) (b : Breaker) (w : World)
      → b.state ≡ opened
      → ((k : ℕ) → k < n → deps.clock (w.reads + k) < b.opened_at + deps.cooldown_ms)
      → (calls n b w).1.messages ≡ w.messages
  unfolding calls
  calls-opened zero b w trip early = refl
  calls-opened (suc n) b w trip early =
      let none_added : w.reads + 0 ≡ w.reads = omega arith in
      rw (calls, guard-opened b w trip (rw none_added at (early 0 (omega arith))))
        (calls-opened n b (record w { reads = suc w.reads }) trip
          (λ k h.
            let moved : w.reads + suc k ≡ suc w.reads + k = omega arith in
            rw moved at (early (suc k) (omega arith))))

  open_in-closed :
      (s : CircuitState) (b : Breaker) (w : World)
      → s ≡ closed
      → open_in deps s b w ≡ (false, (b, w))
  open_in-closed closed b w h = refl
  open_in-closed opened b w h = cc
  open_in-closed half_open b w h = cc

  guard-closed :
      (b : Breaker) (w : World)
      → b.state ≡ closed
      → guard deps id b w ≡ recorded deps (run deps id w).0 b (run deps id w).1
  unfolding guard is_open
  guard-closed b w shut = rw (open_in-closed b.state b w shut) refl

  succeeded_in-closed : (s : CircuitState) (b : Breaker) → s ≡ closed → succeeded_in deps s b ≡ b
  succeeded_in-closed closed b h = refl
  succeeded_in-closed opened b h = cc
  succeeded_in-closed half_open b h = cc

  failure-trips :
      (b : Breaker) (w : World)
      → b.state ≡ closed
      → deps.failure_threshold ≤ b.failures + 1
      → ((record_failure deps b w).0.state ≡ opened)
        × ((record_failure deps b w).0.opened_at ≡ deps.clock w.reads)
        × ((record_failure deps b w).1.reads ≡ suc w.reads)
  unfolding record_failure
  failure-trips b w shut many =
      let over : leb deps.failure_threshold (b.failures + 1) ≡ true = ground arith in
      rw (shut, over) (refl, refl, refl)

  guard-trips :
      (b : Breaker) (w : World)
      → b.state ≡ closed
      → deps.failure_threshold ≤ b.failures + 1
      → (guard deps id b w).0.ok ≡ false
      → ((guard deps id b w).1.0.state ≡ opened)
        × ((guard deps id b w).1.0.opened_at ≡ deps.clock w.reads)
        × ((guard deps id b w).1.1.reads ≡ suc w.reads)
  guard-trips b w shut many missed =
      let failing : (recorded deps (run deps id w).0 b (run deps id w).1).0.ok ≡ false =
        rw (guard-closed b w shut) at missed in
      rw (guard-closed b w shut) (elim (Bool-cases (run deps id w).0.ok) [
        | inl took ↦ cc
        | inr miss ↦
            let (trip, at, read) = failure-trips b (run deps id w).1 shut many in
            rw miss
              (trip, at ∙ ap deps.clock (run-reads deps id w), read ∙ ap suc (run-reads deps id w))
      ])

  succeed_times : ℕ → Breaker → Breaker
  succeed_times zero b = b
  succeed_times (suc n) b = succeed_times n (record_success deps b)

  successes_keep_failures :
      (n : ℕ) (b : Breaker)
      → b.state ≡ closed
      → ((succeed_times n b).state ≡ closed) × ((succeed_times n b).failures ≡ b.failures)
  unfolding succeed_times record_success
  successes_keep_failures zero b shut = (shut, refl)
  successes_keep_failures (suc n) b shut =
      let counted : Breaker = record b { successes = b.successes + 1 } in
      rw (succeed_times, succeeded_in-closed b.state counted shut)
        (successes_keep_failures n counted shut)

-- A breaker that trips stops the messages: where it is closed and its failures on record are one less
-- than the threshold or more, a call that fails opens it, with the clock read as the time of the
-- opening, and of the calls that follow, none sends a message to the provider as long as the clock is
-- less than the cooldown past that reading.
pub tripped_silent :
    (deps : Deps) (id n : ℕ) (b : Breaker) (w : World)
    → b.state ≡ closed
    → deps.failure_threshold ≤ b.failures + 1
    → (guard deps id b w).0.ok ≡ false
    → ((k : ℕ) → k < n → deps.clock (suc w.reads + k) < deps.clock w.reads + deps.cooldown_ms)
    → let (after, sent) = (guard deps id b w).1 in
      (after.state ≡ opened) × ((calls deps id n after sent).1.messages ≡ sent.messages)
tripped_silent deps id n b w shut many missed early =
    let (after, sent) = (guard deps id b w).1 in
    let (trip, at, read) = guard-trips deps id b w shut many missed in
    (trip, calls-opened deps id n after sent trip (λ k h. rw (at, read) (early k h)))

-- Failures need not be consecutive to open the breaker: with one failure less than the threshold on
-- record, any number of successes leave the count as it is, and the next failure opens it.
scattered_failures_trip :
    (deps : Deps) (id n : ℕ) (b : Breaker) (w : World)
    → b.state ≡ closed
    → deps.failure_threshold ≤ b.failures + 1
    → (record_failure deps (succeed_times deps id n b) w).0.state ≡ opened
scattered_failures_trip deps id n b w shut many =
    let (still, same) = successes_keep_failures deps id n b shut in
    (failure-trips deps id (succeed_times deps id n b) w still (rw same many)).0
