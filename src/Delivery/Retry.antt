-- ===== src/Delivery/Retry.antt =====
-- The retries of one provider, in packages/core/src/adapters/otp-provider.ts.
use pezhwan.Base.{
  ℕ, zero, suc, ◌+◌, ◌≤◌, ◌≡◌, refl, inl, inr, Bool, true, false, not, [], ◌∷◌, Option, none, some,
  length, if◌then◌else◌, arith, Bool-cases, count, count-append, length-append, ap, sym,
}
use pezhwan.Delivery.{
  DeliveryResult, Answer, replies, throws, Deps, World, is_accepted, is_final, result_of, or_failed,
  is_zero, send, wait_if, run_from, run,
}

-- How many messages have been accepted.
abbrev pub accepted_count : World → ℕ
accepted_count w = count (λ m. m.accepted) w.messages

abbrev pub one_if : Bool → ℕ
one_if b = if b then 1 else 0

is_accepted-result_of : (a : Answer) → (result_of a).ok ≡ is_accepted a
is_accepted-result_of (replies r) = refl
is_accepted-result_of (throws b e) = refl

unaccepted_of_not_final :
    (last : Bool) (a : Answer) → is_final last a ≡ false → (result_of a).ok ≡ false
unaccepted_of_not_final last (replies r) h = elim (Bool-cases r.ok) [
  | inl took ↦ cc (rw took at h)
  | inr missed ↦ missed
]
unaccepted_of_not_final last (throws b e) h = refl

module _ (deps : Deps) where
  send-accepted_count :
      (id : ℕ) (w : World)
      → accepted_count (send deps id w).1
        ≡ accepted_count w + one_if (is_accepted (send deps id w).0)
  send-accepted_count id w =
      let a = (send deps id w).0 in
      elim (Bool-cases (is_accepted a)) [
        | inl took ↦ rw took (
            ground (
              arith,
              count-append (λ m. m.accepted) w.messages (record { to = id; accepted = true } ∷ []),
            ))
        | inr missed ↦ rw missed (
            ground (
              arith,
              count-append (λ m. m.accepted) w.messages (record { to = id; accepted = false } ∷ []),
            ))
      ]

  wait_if-messages :
      (b : Bool) (attempt : ℕ) (w : World) → (wait_if deps b attempt w).messages ≡ w.messages
  wait_if-messages true attempt w = refl
  wait_if-messages false attempt w = refl

  wait_if-reads : (b : Bool) (attempt : ℕ) (w : World) → (wait_if deps b attempt w).reads ≡ w.reads
  wait_if-reads true attempt w = refl
  wait_if-reads false attempt w = refl

  run_from-accepted_count :
      (left attempt id : ℕ) (last : Option DeliveryResult) (w : World)
      → (or_failed last).ok ≡ false
      → let (r, after) = run_from deps left attempt id last w in
        accepted_count after ≡ accepted_count w + one_if r.ok
  unfolding run_from
  run_from-accepted_count zero attempt id last w fresh = rw fresh (omega arith)
  run_from-accepted_count (suc left) attempt id last w fresh =
      let (a, sent) = send deps id w in
      let next = wait_if deps (not (is_zero left)) attempt sent in
      elim (Bool-cases (deps.should_abort (length w.messages))) [
        | inl stop ↦ rw stop (omega arith)
        | inr on ↦ rw on (elim (Bool-cases (is_final (is_zero left) a)) [
          | inl end ↦ rw (end, is_accepted-result_of a) (send-accepted_count id w)
          | inr more ↦
              let missed = unaccepted_of_not_final (is_zero left) a more in
              let rest =
                run_from-accepted_count left (suc attempt) id (some (result_of a)) next missed in
              rw more (
                omega (
                  arith,
                  rest,
                  ap (λ l. count (λ m. m.accepted) l)
                      (wait_if-messages (not (is_zero left)) attempt sent),
                  send-accepted_count id w,
                  ap one_if (sym (is_accepted-result_of a)),
                  ap one_if missed,
                ))
        ])
      ]

  run_from-length :
      (left attempt id : ℕ) (last : Option DeliveryResult) (w : World)
      → length (run_from deps left attempt id last w).1.messages ≤ length w.messages + left
  unfolding run_from
  run_from-length zero attempt id last w = omega arith
  run_from-length (suc left) attempt id last w =
      let (a, sent) = send deps id w in
      let next = wait_if deps (not (is_zero left)) attempt sent in
      let grown = length-append w.messages (record { to = id; accepted = is_accepted a } ∷ []) in
      elim (Bool-cases (deps.should_abort (length w.messages))) [
        | inl stop ↦ rw stop (omega arith)
        | inr on ↦ rw on (elim (Bool-cases (is_final (is_zero left) a)) [
          | inl end ↦ rw end (omega (arith, grown))
          | inr more ↦ rw more (
              omega (
                arith,
                grown,
                run_from-length left (suc attempt) id (some (result_of a)) next,
                ap length (wait_if-messages (not (is_zero left)) attempt sent),
              ))
        ])
      ]

  pub run-accepted_count :
      (id : ℕ) (w : World)
      → accepted_count (run deps id w).1 ≡ accepted_count w + one_if (run deps id w).0.ok
  unfolding run
  run-accepted_count id w = run_from-accepted_count deps.attempts 1 id none w refl

  pub run-length :
      (id : ℕ) (w : World) → length (run deps id w).1.messages ≤ length w.messages + deps.attempts
  unfolding run
  run-length id w = run_from-length deps.attempts 1 id none w

  run_from-reads :
      (left attempt id : ℕ) (last : Option DeliveryResult) (w : World)
      → (run_from deps left attempt id last w).1.reads ≡ w.reads
  unfolding run_from
  run_from-reads zero attempt id last w = refl
  run_from-reads (suc left) attempt id last w =
      let (a, sent) = send deps id w in
      let next = wait_if deps (not (is_zero left)) attempt sent in
      elim (Bool-cases (deps.should_abort (length w.messages))) [
        | inl stop ↦ rw stop refl
        | inr on ↦ rw on (elim (Bool-cases (is_final (is_zero left) a)) [
          | inl end ↦ rw end refl
          | inr more ↦
              rw (more, run_from-reads left (suc attempt) id (some (result_of a)) next)
                (wait_if-reads (not (is_zero left)) attempt sent)
        ])
      ]

  -- The loop does not read the breaker's clock.
  pub run-reads : (id : ℕ) (w : World) → (run deps id w).1.reads ≡ w.reads
  unfolding run
  run-reads id w = run_from-reads deps.attempts 1 id none w
