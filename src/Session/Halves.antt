-- ===== src/Session/Halves.antt =====
-- What the two halves of a refresh, the claim and the transaction, do to the live sessions of a family.
use pezhwan.Base.{
  ℕ, ◌≤◌, ◌≡◌, refl, inl, inr, true, List, [], ◌∷◌, ◌++◌, some, arith, count, find, update_first,
  All, find-passes, find-append_hit, update_first_miss, count-append, count-update_first,
  count-update_first_same, Option-cases, Bool-cases,
}
use pezhwan.Mongo.{Collection, list_collection}
use pezhwan.Session.Transaction.{ok}
use pezhwan.Session.Limits.{DistinctIds, live_of}
use pezhwan.Session.Updates.{FamilyAt, Keeps, FamilyAt-update_first, FamilyAt-append}
use pezhwan.Session.{
  SessionDoc, RefreshContext, Deps, by_id, claimable, is_active, set_rotating, set_replaced,
  set_revoked, claim, tx_body, still_rotating,
}

abbrev pub keeps_rotating : (now : ℕ) → Keeps (set_rotating now)
keeps_rotating now d = (refl, refl)

abbrev pub keeps_replaced : (child now : ℕ) → Keeps (set_replaced child now)
keeps_replaced child now d = (refl, refl)

abbrev pub keeps_revoked : (now : ℕ) → Keeps (set_revoked now)
keeps_revoked now d = (refl, refl)

-- What holds of every family's place survives an operation that keeps places.
pub All-owned :
    (l m : List SessionDoc)
    → ((i family : ℕ) → FamilyAt i family l → FamilyAt i family m)
    → (ds : List SessionDoc) → All (λ d. FamilyAt d.id d.family_id l) ds
    → All (λ d. FamilyAt d.id d.family_id m) ds
All-owned l m keep [] h = tt
All-owned l m keep (d ∷ ds) (h, hs) = (keep d.id d.family_id h, All-owned l m keep ds hs)

pub All-split :
    (P : SessionDoc → Type 0) (xs : List SessionDoc) (d : SessionDoc) (ys : List SessionDoc)
    → All P (xs ++ d ∷ ys)
    → P d × All P (xs ++ ys)
All-split P [] d ys h = h
All-split P (x ∷ xs) d ys (h, hs) = let (at, others) = All-split P xs d ys hs in (at, (h, others))

module _ (deps : Deps) where
  abbrev db : Collection SessionDoc
  db = list_collection

  pub claim_found :
      (hash now : ℕ) (ctx : RefreshContext) (l m : List SessionDoc) (d : SessionDoc)
      → claim db deps hash ctx now l ≡ (some d, m)
      → (x : SessionDoc) × (find (claimable hash ctx) l ≡ some x)
        × (d ≡ set_rotating now x)
        × (m ≡ update_first (claimable hash ctx) (set_rotating now) l)
  unfolding claim
  claim_found hash now ctx l m d h = elim (Option-cases (find (claimable hash ctx) l)) [
    | inl missed ↦ absurd (ground arith)
    | inr (x, found) ↦ (x, found, ground arith, ground arith)
  ]

  -- The transaction keeps the number of live sessions of each family.
  pub count-tx_body :
      (parent now : ℕ) (child : SessionDoc) (l : List SessionDoc) (family : ℕ)
      → FamilyAt parent child.family_id l
      → is_active child.status ≡ true
      → (c : SessionDoc) → (tx_body db deps parent child now l).0 ≡ ok c
      → count (live_of family) (tx_body db deps parent child now l).1 ≡ count (live_of family) l
  unfolding tx_body
  count-tx_body parent now child l family (d, found, same) fresh_child c h =
      let l' = l ++ child ∷ [] in
      let found' = find-append_hit (by_id parent) l (child ∷ []) found in
      ground (
        arith,
        found',
        count-append (live_of family) l (child ∷ []),
        count-update_first (live_of family) (by_id parent) (set_replaced child.id now) l' {x = d}
            found',
      )

  pub ids-tx_body :
      (parent now : ℕ) (child : SessionDoc) (l : List SessionDoc)
      → DistinctIds l
      → count (by_id child.id) l ≡ 0
      → DistinctIds (tx_body db deps parent child now l).1
  unfolding tx_body
  ids-tx_body parent now child l distinct unused i = ground (
    arith,
    distinct i,
    count-append (by_id i) l (child ∷ []),
    count-update_first_same (by_id i) (by_id parent) (set_replaced child.id now) (l ++ child ∷ [])
        (λ a. refl),
  )

  pub places-tx_body :
      (parent now : ℕ) (child : SessionDoc) (l : List SessionDoc) (i family : ℕ)
      → FamilyAt i family l
      → FamilyAt i family (tx_body db deps parent child now l).1
  unfolding tx_body
  places-tx_body parent now child l i family h =
      let appended = FamilyAt-append i family l (child ∷ []) h in
      elim (Bool-cases (still_rotating (find (by_id parent) (l ++ child ∷ [])))) [
        | inl yes_rotating ↦ rw yes_rotating (
            FamilyAt-update_first (by_id parent) (set_replaced child.id now)
              (keeps_replaced child.id now) i family (l ++ child ∷ []) appended)
        | inr not_rotating ↦ rw not_rotating appended
      ]

  -- The invariant for the sessions alone.
  abbrev pub Sound : List SessionDoc → Type 0
  Sound l = DistinctIds l × ((family : ℕ) → count (live_of family) l ≤ 1)

  pub claim-Sound :
      (hash now : ℕ) (ctx : RefreshContext) (l : List SessionDoc)
      → Sound l
      → Sound (update_first (claimable hash ctx) (set_rotating now) l)
  claim-Sound hash now ctx l (ids, single) = (
    λ i. omega (
      arith,
      ids i,
      count-update_first_same (by_id i) (claimable hash ctx) (set_rotating now) l (λ a. refl),
    ),
    λ family. elim (Option-cases (find (claimable hash ctx) l)) [
      | inl missed ↦
          rw (update_first_miss (claimable hash ctx) (set_rotating now) l missed) (single family)
      | inr (x, found) ↦ ground (
        arith,
        single family,
        find-passes (claimable hash ctx) l {x = x} found,
        count-update_first (live_of family) (claimable hash ctx) (set_rotating now) l {x = x} found,
      )
    ],
  )
