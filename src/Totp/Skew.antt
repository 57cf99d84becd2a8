-- ===== src/Totp/Skew.antt =====
-- The window of steps of `verifyTotp` in packages/crypto/src/totp.ts.
use pezhwan.Base.{
  ℕ, zero, suc, ◌+◌, ◌-◌, ◌/◌, ◌%◌, ◌≤◌, ◌<◌, ◌≡◌, ◌↔◌, ◌⊎◌, inl, inr, refl, subst, true, false,
  List, [], ◌∷◌, some, ltb, length, length-append, arith, Bool-cases, ==_refl, ==_iff,
}
use pezhwan.Totp.{padded, same_text, hotp, matches_from, verify_totp}

same_text_refl : (s : List ℕ) → same_text s s ≡ true
same_text_refl [] = refl
same_text_refl (a ∷ s) = ground (arith, same_text_refl s, ==_refl a)

same_text-eq : (s t : List ℕ) → same_text s t ≡ true → s ≡ t
same_text-eq [] [] e = refl
same_text-eq [] (b ∷ t) e = ground arith
same_text-eq (a ∷ s) [] e = ground arith
same_text-eq (a ∷ s) (b ∷ t) e = ground (arith, same_text-eq s t, ==_iff a b)

length-padded : (width n : ℕ) → length (padded width n) ≡ width
length-padded zero n = refl
length-padded (suc width) n =
    omega (arith, length-append (padded width (n / 10)) (n % 10 ∷ []), length-padded width (n / 10))

add_zero : (n : ℕ) → n + 0 ≡ n
add_zero n = omega arith

shift : (a i : ℕ) → 0 < i → a + 1 + (i - 1) ≡ a + i
shift a i pos = omega arith

shift' : (a i : ℕ) → a + (i + 1) ≡ a + 1 + i
shift' a i = omega arith

ne_or_pos : (i : ℕ) → (i ≡ 0) ⊎ (0 < i)
ne_or_pos i = omega arith

zero_shift : (a i : ℕ) → i ≡ 0 → a + i ≡ a
zero_shift a i z = omega (arith, z)

back : (from step : ℕ) → from ≤ step → from + (step - from) ≡ step
back from step le = omega arith

module _ (hmac : ℕ → ℕ → List ℕ) (secret : ℕ) where
  matches_at :
      (code : List ℕ) (from count i : ℕ)
      → i < count
      → hotp hmac secret (from + i) 6 ≡ code
      → matches_from hmac code secret from count ≡ true
  unfolding matches_from
  matches_at code from zero i less e = ground arith
  matches_at code from (suc n) i less e =
      elim (Bool-cases (same_text (hotp hmac secret from 6) code)) [
        | inl here ↦ ground arith
        | inr other ↦
            let later = matches_at code (from + 1) n (i - 1) in
            elim (ne_or_pos i) [
              | inl z ↦
                  let here' = subst (λ k. hotp hmac secret k 6 ≡ code) (zero_shift from i z) e in
                  let bad : same_text code code ≡ false = rw here' at other in
                  let good = same_text_refl code in cc
              | inr pos ↦
                  let shifted : hotp hmac secret (from + 1 + (i - 1)) 6 ≡ code =
                    rw (shift from i pos) e in
                  let rest = later (omega arith) shifted in ground arith
            ]
      ]

  matches_only :
      (code : List ℕ) (from count : ℕ)
      → matches_from hmac code secret from count ≡ true
      → (i : ℕ) × ((i < count) × (hotp hmac secret (from + i) 6 ≡ code))
  unfolding matches_from
  matches_only code from zero e = ground arith
  matches_only code from (suc n) e = elim (Bool-cases (same_text (hotp hmac secret from 6) code)) [
    | inl here ↦
        (0, (omega arith, rw (add_zero from) (same_text-eq (hotp hmac secret from 6) code here)))
    | inr other ↦
        let (i, (less, same)) = matches_only code (from + 1) n (ground arith) in
        (i + 1, (omega arith, rw (shift' from i) same))
  ]

  -- A code is accepted exactly where it is the code of the step of the time, of the one before or of
  -- the one after; the first step of the epoch is left out, at which the verification throws.
  pub verify_totp_iff :
      (code : List ℕ) (time : ℕ)
      → 30 ≤ time
      → (verify_totp hmac code secret time ≡ some true) ↔ (
          (step : ℕ) × ((step ≤ time / 30 + 1)
            × ((time / 30 ≤ step + 1) × (hotp hmac secret step 6 ≡ code))))
  unfolding verify_totp
  verify_totp_iff code time late =
      let in_range : ltb (time / 30) 1 ≡ false = ground arith in
      let from = time / 30 - 1 in
      (
        λ e.
            let (i, (less, same)) = matches_only code from 3 (ground arith) in
            (from + i, (omega arith, (omega arith, same))),
        λ h.
            let all =
              matches_at code from 3 (h.0 - from) (omega (arith, h.1.0, h.1.1.0))
                (rw (back from h.0 (omega (arith, h.1.1.0))) h.1.1.1) in
            ground arith,
      )
