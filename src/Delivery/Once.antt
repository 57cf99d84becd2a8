-- ===== src/Delivery/Once.antt =====
-- A code through the chain of providers, in packages/core/src/adapters/otp-delivery-manager.ts.
use pezhwan.Base.{
  ℕ, ◌+◌, ◌*◌, ◌≤◌, ◌≡◌, refl, ap, ◌⊎◌, inl, inr, true, false, ◌&&◌, List, [], ◌∷◌, length,
  if◌then◌else◌, arith, Bool-cases,
}
use pezhwan.Delivery.{
  DeliveryResult, CircuitState, closed, opened, half_open, Deps, Breaker, World, Member, run,
  failed_in, record_failure, open_in, is_open, recorded, guard, dispatch,
}
use pezhwan.Delivery.Retry.{accepted_count, one_if, run-accepted_count, run-length}

module _ (deps : Deps) where
  failed_in-messages :
      (s : CircuitState) (b : Breaker) (w : World) → (failed_in deps s b w).1.messages ≡ w.messages
  failed_in-messages closed b w = ground arith
  failed_in-messages opened b w = refl
  failed_in-messages half_open b w = refl

  is_open-messages : (b : Breaker) (w : World) → (is_open deps b w).1.1.messages ≡ w.messages
  unfolding is_open
  is_open-messages b w = elim b.state as (λ s. (open_in deps s b w).1.1.messages ≡ w.messages) [
    | closed ↦ refl
    | opened ↦ refl
    | half_open ↦ refl
  ]

  recorded-messages :
      (r : DeliveryResult) (b : Breaker) (w : World)
      → ((recorded deps r b w).1.1.messages ≡ w.messages) × ((recorded deps r b w).0 ≡ r)
  unfolding record_failure
  recorded-messages r b w = elim (Bool-cases r.ok) [
    | inl took ↦ rw took (refl, refl)
    | inr missed ↦ rw missed (failed_in-messages b.state _ w, refl)
  ]

  guard-accepted_count :
      (id : ℕ) (b : Breaker) (w : World)
      → accepted_count (guard deps id b w).1.1 ≡ accepted_count w + one_if (guard deps id b w).0.ok
  unfolding guard
  guard-accepted_count id b w =
      let (shut, (asked, read)) = is_open deps b w in
      let (r, sent) = run deps id read in
      let same = ap (λ l. accepted_count (record w { messages = l })) (is_open-messages b w) in
      elim (Bool-cases shut) [
        | inl quiet ↦ rw quiet (omega (arith, same))
        | inr on ↦
            let (kept, e) = recorded-messages r asked sent in
            rw (on, kept, e) (omega (arith, same, run-accepted_count deps id read))
      ]

  guard-length :
      (id : ℕ) (b : Breaker) (w : World)
      → length (guard deps id b w).1.1.messages ≤ length w.messages + deps.attempts
  unfolding guard
  guard-length id b w =
      let (shut, (asked, read)) = is_open deps b w in
      let (r, sent) = run deps id read in
      let same = ap length (is_open-messages b w) in
      elim (Bool-cases shut) [
        | inl quiet ↦ rw quiet (omega (arith, same))
        | inr on ↦
            let (kept, e) = recorded-messages r asked sent in
            rw (on, kept) (omega (arith, same, run-length deps id read))
      ]

  -- What a member of the chain leaves, asked or passed over.
  member-accepted_count :
      (m : Member) (w : World)
      → accepted_count
          (if m.provider.supports then (guard deps m.provider.id m.breaker w).1.1 else w)
        ≡ accepted_count w
          + one_if (m.provider.supports && (guard deps m.provider.id m.breaker w).0.ok)
  member-accepted_count m w = elim (Bool-cases m.provider.supports) [
    | inl can ↦ rw can (guard-accepted_count m.provider.id m.breaker w)
    | inr cannot ↦ rw cannot (omega arith)
  ]

  member-length :
      (m : Member) (w : World)
      → length
          (if m.provider.supports then (guard deps m.provider.id m.breaker w).1.1 else w).messages
        ≤ length w.messages + deps.attempts
  member-length m w = elim (Bool-cases m.provider.supports) [
    | inl can ↦ rw can (guard-length m.provider.id m.breaker w)
    | inr cannot ↦ rw cannot (omega arith)
  ]

  dispatch-cases :
      (m : Member) (l : List Member) (w : World)
      → let sent = (guard deps m.provider.id m.breaker w).1.1 in
        let took = m.provider.supports && (guard deps m.provider.id m.breaker w).0.ok in
        let rest = dispatch deps l (if m.provider.supports then sent else w) in
        (((guard deps m.provider.id m.breaker w).0.ok ≡ true)
          × ((dispatch deps (m ∷ l) w).0 ≡ true)
          × ((dispatch deps (m ∷ l) w).1.1 ≡ sent))
        ⊎ ((took ≡ false)
            × ((dispatch deps (m ∷ l) w).0 ≡ rest.0)
            × ((dispatch deps (m ∷ l) w).1.1 ≡ rest.1.1))
  unfolding dispatch
  dispatch-cases m l w = elim (Bool-cases m.provider.supports) [
    | inr cannot ↦ rw cannot (inr (refl, refl, refl))
    | inl can ↦ rw can (elim (Bool-cases (guard deps m.provider.id m.breaker w).0.ok) [
      | inl took ↦ rw took (inl (refl, refl, refl))
      | inr missed ↦ rw missed (inr (refl, refl, refl))
    ])
  ]

  -- A code is accepted once where its dispatch succeeds, and not at all where it throws: of the messages
  -- of a dispatch, over all providers and all their retries, one is accepted in the first case
  -- and none in the second, and there are at most as many as the attempts of each provider allow.
  pub dispatch-accepted_once :
      (l : List Member) (w : World)
      → let (sent, (_, after)) = dispatch deps l w in
        (accepted_count after ≡ accepted_count w + one_if sent)
        × (length after.messages ≤ length w.messages + length l * deps.attempts)
  unfolding dispatch
  dispatch-accepted_once [] w = (omega arith, omega arith)
  dispatch-accepted_once (m ∷ l) w =
      let next = if m.provider.supports then (guard deps m.provider.id m.breaker w).1.1 else w in
      let (taken, few) = dispatch-accepted_once l next in
      let a = member-accepted_count m w in
      let b = member-length m w in
      elim (dispatch-cases m l w) [
        | inl (took, good, same) ↦
            rw (good, same)
              (
                omega (arith, guard-accepted_count m.provider.id m.breaker w, ap one_if took),
                ground (arith, guard-length m.provider.id m.breaker w),
              )
        | inr (missed, good, same) ↦
            rw (good, same) (omega (arith, a, taken, ap one_if missed), omega (arith, b, few))
      ]
