-- ===== src/Totp/Tests.antt =====
-- A run of the verification with a small digest.
use pezhwan.Base.{ℕ, ◌+◌, ◌/◌, ◌≤◌, ◌≡◌, ◌↔◌, true, List, [], ◌∷◌, some, arith}
use pezhwan.Totp.{hotp, verify_totp}
use pezhwan.Totp.Skew.{verify_totp_iff}

abbrev digest : ℕ → ℕ → List ℕ
digest secret counter = counter ∷ secret ∷ 7 ∷ 9 ∷ 0 ∷ []

verify_totp_iff_example : (verify_totp digest (0 ∷ 2 ∷ 9 ∷ 1 ∷ 1 ∷ 3 ∷ []) 5 100 ≡ some true) ↔ (
    (step : ℕ) × ((step ≤ 100 / 30 + 1)
      × ((100 / 30 ≤ step + 1) × (hotp digest 5 step 6 ≡ 0 ∷ 2 ∷ 9 ∷ 1 ∷ 1 ∷ 3 ∷ []))))
verify_totp_iff_example = verify_totp_iff digest 5 (0 ∷ 2 ∷ 9 ∷ 1 ∷ 1 ∷ 3 ∷ []) 100 (omega arith)
