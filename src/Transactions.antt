-- ===== src/Transactions.antt =====
-- `withTransaction` of packages/core/src/services/infrastructure/mongo-transactions.ts. What the driver
-- throws is an argument; the back-off between two attempts does not touch the state. The function for
-- batches of operations, `transactionalWrite`, is not modelled.
use pezhwan.Base.{
  ℕ, zero, suc, ◌==◌, ◌||◌, any, ◌≡◌, ◌⊎◌, inl, inr, refl, Bool, true, false, Option, none, some,
  arith, Option-cases, Bool-cases, if◌then◌else◌,
}
use pezhwan.Session.Transaction.{transient_codes}

-- An error of the driver: its code, if it has one, and whether the message is of the transport.
pub record DriverError : Type 0 where
  pub code : Option ℕ
  pub transport : Bool

abbrev pub has_transient_code : Option ℕ → Bool
has_transient_code none = false
has_transient_code (some code) = any (λ c. code == c) transient_codes

unfoldable pub is_transient : DriverError → Bool
is_transient e = has_transient_code e.code || e.transport

pub data Outcome {ℓ} (A : Type ℓ) : Type ℓ where
  returned : A → Outcome A
  threw : DriverError → Outcome A

module _ {A S : Type 0} (work : (in_session : Bool) → S → Outcome A × S) where
  -- The error `e` of an attempt that has `left` attempts after it, the first of which is `next`.
  abbrev pub caught : ℕ → Bool → DriverError → S → Outcome A × S → Outcome A × S
  caught zero true e s next = (threw e, s)
  caught zero false e s next = work false s
  caught (suc left) true e s next = next
  caught (suc left) false e s next = (threw e, s)

  -- An attempt ends with a commit, or with an error of the work or of the driver; then it is aborted.
  abbrev pub attempted : ℕ → Option DriverError → Outcome A × S → S → Outcome A × S → Outcome A × S
  attempted left (some e) run s next = caught left (is_transient e) e s next
  attempted left none (returned a, after) s next = (returned a, after)
  attempted left none (threw e, after) s next = caught left (is_transient e) e s next

  -- `throws n` is what the driver throws on the attempt that has n attempts after it.
  unfoldable pub attempts : ℕ → (ℕ → Option DriverError) → S → Outcome A × S
  attempts zero throws s = attempted 0 (throws 0) (work true s) s (work false s)
  attempts (suc left) throws s =
      attempted (suc left) (throws (suc left)) (work true s) s (attempts left throws s)

  -- The default of `maxAttempts` is 3.
  unfoldable pub with_transaction :
      (supported : Bool) → (ℕ → Option DriverError) → S → Outcome A × S
  unfolding attempts
  with_transaction supported throws s = if supported then attempts 2 throws s else work false s

  -- The result and the state of one whole run, in a session or without one, or an error and the state
  -- as it was.
  abbrev pub Whole : S → Outcome A × S → Type 0
  Whole s r = (r ≡ work true s) ⊎ ((r ≡ work false s) ⊎ ((e : DriverError) × (r ≡ (threw e, s))))

  caught-Whole :
      (left : ℕ) (transient : Bool) (e : DriverError) (s : S) (next : Outcome A × S)
      → Whole s next
      → Whole s (caught left transient e s next)
  caught-Whole zero true e s next h = inr (inr (e, refl))
  caught-Whole zero false e s next h = inr (inl refl)
  caught-Whole (suc left) true e s next h = h
  caught-Whole (suc left) false e s next h = inr (inr (e, refl))

  attempted-Whole :
      (left : ℕ) (thrown : Option DriverError) (run : Outcome A × S) (s : S) (next : Outcome A × S)
      → work true s ≡ run
      → Whole s next
      → Whole s (attempted left thrown run s next)
  attempted-Whole left (some e) run s next same h = caught-Whole left (is_transient e) e s next h
  attempted-Whole left none (returned a, after) s next same h = inl (ground arith)
  attempted-Whole left none (threw e, after) s next same h =
      caught-Whole left (is_transient e) e s next h

  attempts-Whole :
      (left : ℕ) (throws : ℕ → Option DriverError) (s : S) → Whole s (attempts left throws s)
  unfolding attempts
  attempts-Whole zero throws s =
      attempted-Whole 0 (throws 0) (work true s) s (work false s) refl (inr (inl refl))
  attempts-Whole (suc left) throws s =
      attempted-Whole (suc left) (throws (suc left)) (work true s) s (attempts left throws s) refl
        (attempts-Whole left throws s)

  pub with_transaction-Whole :
      (supported : Bool) (throws : ℕ → Option DriverError) (s : S)
      → Whole s (with_transaction supported throws s)
  unfolding with_transaction
  with_transaction-Whole true throws s = attempts-Whole 2 throws s
  with_transaction-Whole false throws s = inr (inl refl)

  -- Where transactions are supported and no error that is not transient ends the last attempt, the
  -- result is that of one whole run in a session, or an error with the state as it was.
  abbrev pub InSession : S → Outcome A × S → Type 0
  InSession s r = (r ≡ work true s) ⊎ ((e : DriverError) × (r ≡ (threw e, s)))

  caught-InSession :
      (left : ℕ) (e : DriverError) (s : S) (next : Outcome A × S)
      → is_transient e ≡ true
      → InSession s next ⊎ (left ≡ 0)
      → InSession s (caught left (is_transient e) e s next)
  caught-InSession zero e s next t h = rw t (inr (e, refl))
  caught-InSession (suc left) e s next t (inl h) = rw t h
  caught-InSession (suc left) e s next t (inr h) = absurd (omega arith)

  attempts-InSession :
      (left : ℕ) (throws : ℕ → Option DriverError) (s : S) (a : A) (after : S)
      → work true s ≡ (returned a, after)
      → ((e : DriverError) → throws 0 ≡ some e → is_transient e ≡ true)
      → InSession s (attempts left throws s)
  unfolding attempts
  attempts-InSession zero throws s a after runs h = elim (Option-cases (throws 0)) [
    | inl quiet ↦ rw (quiet, attempts, runs) (inl refl)
    | inr (e, thrown) ↦
        rw (thrown, attempts) (caught-InSession 0 e s (work false s) (h e thrown) (inr refl))
  ]
  attempts-InSession (suc left) throws s a after runs h = elim (Option-cases (throws (suc left))) [
    | inl quiet ↦ rw (quiet, attempts, runs) (inl refl)
    | inr (e, thrown) ↦ elim (Bool-cases (is_transient e)) [
      | inl t ↦
          rw (thrown, attempts)
            (caught-InSession (suc left) e s (attempts left throws s) t
              (inl (attempts-InSession left throws s a after runs h)))
      | inr fatal ↦ inr (e, rw (thrown, attempts, fatal) refl)
    ]
  ]

  pub with_transaction-InSession :
      (throws : ℕ → Option DriverError) (s : S) (a : A) (after : S)
      → work true s ≡ (returned a, after)
      → ((e : DriverError) → throws 0 ≡ some e → is_transient e ≡ true)
      → InSession s (with_transaction true throws s)
  unfolding with_transaction
  with_transaction-InSession throws s a after runs h = attempts-InSession 2 throws s a after runs h
