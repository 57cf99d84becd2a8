-- ===== src/Otp/Budget.antt =====
-- The attempt budget of packages/core/src/services/otp.service.ts, over several verifications.
use pezhwan.Base.{
  ℕ, ◌+◌, ◌≤◌, ◌≡◌, inl, inr, refl, Bool, true, false, List, [], ◌∷◌, some, arith, bit, count, find,
  find-update_first_unique, Option-cases, ==_refl,
}
use pezhwan.Mongo.{Collection, list_collection}
use pezhwan.Cache.{number_or_zero, IsCache}
use pezhwan.Otp.{
  OtpDoc, Options, World, Request, VerifyResult, verified, invalid, attempts_key, of_request, by_id,
  judged, verify_otp,
}

abbrev pub DistinctIds : List OtpDoc → Type 0
DistinctIds l = (i : ℕ) → count (by_id i) l ≤ 1

abbrev pub is_invalid : VerifyResult → Bool
is_invalid invalid = true
is_invalid _ = false

abbrev pub is_verified : VerifyResult → Bool
is_verified verified = true
is_verified _ = false

-- The times of a run ascend from the first to the last.
abbrev pub Ascending : ℕ → ℕ → List (ℕ × ℕ) → Type 0
Ascending first last [] = Unit
Ascending first last ((code, now) ∷ more) = (first ≤ now) × ((now ≤ last) × Ascending now last more)

module _ (db : Collection OtpDoc) (options : Options) (r : Request) where
  -- How many of the verifications, each a code and its time, in the order given, fail as invalid.
  abbrev pub count_invalid : List (ℕ × ℕ) → World options → ℕ
  count_invalid [] w = 0
  count_invalid ((code, now) ∷ more) w =
      bit (is_invalid (verify_otp db options r code now w).0)
      + count_invalid more (verify_otp db options r code now w).1

module _ (options : Options) (laws : IsCache options.cache) (r : Request) where
  abbrev db : Collection OtpDoc
  db = list_collection

  pub spent_refused :
      (code now : ℕ) (w : World options) (d : OtpDoc)
      → find (of_request options r) w.otps ≡ some d
      → d.consumed ≡ true
      → (is_verified (verify_otp db options r code now w).0 ≡ false)
        × ((is_invalid (verify_otp db options r code now w).0 ≡ false)
            × ((verify_otp db options r code now w).1.otps ≡ w.otps))
  unfolding verify_otp judged
  spent_refused code now w d e spent = ground arith

  -- What one verification leaves, by its result.
  pub verified_consumes :
      (code now : ℕ) (w : World options)
      → DistinctIds w.otps
      → is_verified (verify_otp db options r code now w).0 ≡ true
      → (d : OtpDoc) × ((find (of_request options r) (verify_otp db options r code now w).1.otps
            ≡ some d)
          × (d.consumed ≡ true))
  unfolding verify_otp judged
  verified_consumes code now w ids good = elim (Option-cases (find (of_request options r) w.otps)) [
    | inl out ↦ ground arith
    | inr (d, e) ↦ (
      record d { consumed = true; attempts = d.attempts + 1 },
      (
        ground (
          arith,
          find-update_first_unique (by_id d.id) (of_request options r)
              (λ x. record x { consumed = true; attempts = d.attempts + 1 }) w.otps {x = d}
              (λ a. refl) e (==_refl d.id) (ids d.id),
        ),
        refl,
      ),
    )
  ]

  -- The budget that a cache state holds, as it is read at any time up to a horizon.
  abbrev pub Holds : ℕ → ℕ → ℕ → World options → Type 0
  Holds n now horizon w =
      (t : ℕ) → now ≤ t → t ≤ horizon → number_or_zero (laws.lookup w.cached t (attempts_key r)) ≡ n
