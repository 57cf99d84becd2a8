-- ===== src/Session/Transaction.antt =====
-- `withTransaction` and `isTransientTransactionError` of
-- packages/core/src/services/session.service.ts.
use pezhwan.Base.{
  ℕ, zero, suc, ◌≡◌, ◌⊎◌, Bool, true, false, List, [], ◌∷◌, Option, none, some, ◌==◌, any, arith,
  refl, inl, inr, Option-cases, Bool-cases, if◌then◌else◌,
}

-- What the driver throws: with the field `code`, or with a message that the pattern for
-- transport errors matches or not.
pub data DriverError : Type 0 where
  coded : ℕ → DriverError
  worded : (transport : Bool) → DriverError

pub data Failure : Type 0 where
  refresh_token_unknown refresh_token_reuse refresh_rotation_failed : Failure
  driver : DriverError → Failure

pub data Result {ℓ} (A : Type ℓ) : Type ℓ where
  ok : A → Result A
  err : Failure → Result A

abbrev pub transient_codes : List ℕ
transient_codes = 112 ∷ 245 ∷ 262 ∷ 249 ∷ 251 ∷ 24 ∷ 103 ∷ 116 ∷ 133 ∷ 13 ∷ []

unfoldable pub is_transient : DriverError → Bool
is_transient (coded code) = any (λ c. code == c) transient_codes
is_transient (worded transport) = transport

module _ {A S : Type 0} (work : S → Result A × S) where
  -- Inside a transaction a throw of the work aborts it: nothing persists.
  abbrev committed : S → Result A × S → Result A × S
  committed before (ok a, after) = (ok a, after)
  committed before (err e, after) = (err e, before)

  -- A failed attempt, with `left` attempts after it: rethrown, retried, or, when the attempts are
  -- used up on an error that is not transient, run without a transaction.
  abbrev failed : Bool → Bool → DriverError → S → Result A × S → Result A × S
  failed true true e s next = (err (driver e), s)
  failed true false e s next = work s
  failed false true e s next = next
  failed false false e s next = (err (driver e), s)

  -- `throws n` is what the driver throws on the attempt that has n attempts after it. The back-off
  -- between two attempts does not touch the state.
  attempts : ℕ → (ℕ → Option DriverError) → S → Result A × S
  attempts zero throws s = elim (throws 0) [
    | none ↦ committed s (work s)
    | some e ↦ failed true (is_transient e) e s (work s)
  ]
  attempts (suc left) throws s = elim (throws (suc left)) [
    | none ↦ committed s (work s)
    | some e ↦ failed false (is_transient e) e s (attempts left throws s)
  ]

  -- MAX_ATTEMPTS is 3. A topology without transactions runs the work as it is.
  pub with_transaction : (supported : Bool) → (ℕ → Option DriverError) → S → Result A × S
  unfolding attempts
  with_transaction supported throws s = if supported then attempts 2 throws s else work s

  -- All or nothing: the result and the state of one whole run, or a failure and the state as it was.
  abbrev pub Atomic : S → Result A × S → Type 0
  Atomic s r =
      ((a : A) × (r ≡ (ok a, (work s).1)) × ((work s).0 ≡ ok a))
      ⊎ ((e : Failure) × (r ≡ (err e, s)))

  committed-Atomic : (s : S) (r : Result A × S) → work s ≡ r → Atomic s (committed s r)
  committed-Atomic s (ok a, after) h = inl (a, ground arith, ground arith)
  committed-Atomic s (err e, after) h = inr (e, refl)

  attempts-Atomic :
      (left : ℕ) (throws : ℕ → Option DriverError) (s : S)
      → ((e : DriverError) → throws 0 ≡ some e → is_transient e ≡ true)
      → Atomic s (attempts left throws s)
  unfolding attempts
  attempts-Atomic zero throws s h = elim (Option-cases (throws 0)) [
    | inl quiet ↦ rw (quiet, attempts) (committed-Atomic s (work s) refl)
    | inr (e, thrown) ↦ inr (driver e, ground (arith, h e thrown))
  ]
  attempts-Atomic (suc left) throws s h = elim (Option-cases (throws (suc left))) [
    | inl quiet ↦ rw (quiet, attempts) (committed-Atomic s (work s) refl)
    | inr (e, thrown) ↦ elim (Bool-cases (is_transient e)) [
      | inl again ↦ rw (thrown, attempts, again) (attempts-Atomic left throws s h)
      | inr fatal ↦ inr (driver e, ground arith)
    ]
  ]

  -- Where transactions are supported, a call ends in one of two ways: with the result and the state
  -- of one whole run of the work, or with a failure and the state as it was before. The last attempt
  -- failing with an error that is not transient is excluded: the work then runs unprotected.
  pub with_transaction-Atomic :
      (throws : ℕ → Option DriverError) (s : S)
      → ((e : DriverError) → throws 0 ≡ some e → is_transient e ≡ true)
      → Atomic s (with_transaction true throws s)
  unfolding with_transaction
  with_transaction-Atomic throws s h = attempts-Atomic 2 throws s h

  attempts-ok :
      (left : ℕ) (throws : ℕ → Option DriverError) (s : S) (a : A)
      → (attempts left throws s).0 ≡ ok a
      → attempts left throws s ≡ work s
  unfolding attempts
  attempts-ok zero throws s a h = ground (arith)
  attempts-ok (suc left) throws s a h = ground (arith, attempts-ok left throws s a)

  -- A result comes from one whole run of the work, in every topology and whatever the driver throws.
  pub with_transaction-ok :
      (supported : Bool) (throws : ℕ → Option DriverError) (s : S) (a : A)
      → (with_transaction supported throws s).0 ≡ ok a
      → with_transaction supported throws s ≡ work s
  unfolding with_transaction
  with_transaction-ok true throws s a h = attempts-ok 2 throws s a h
  with_transaction-ok false throws s a h = refl

  -- Nothing thrown, and a result: the work has run once.
  pub with_transaction-quiet :
      (supported : Bool) (s : S) (a : A)
      → (work s).0 ≡ ok a
      → with_transaction supported (λ _. none) s ≡ work s
  unfolding with_transaction attempts
  with_transaction-quiet true s a h = ground arith
  with_transaction-quiet false s a h = refl
