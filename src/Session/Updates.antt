-- ===== src/Session/Updates.antt =====
-- What the updates of a session leave alone: its id and its family.
use pezhwan.Base.{
  ℕ, ◌≡◌, refl, Bool, List, [], ◌∷◌, ◌++◌, some, arith, find, update_first, update_all,
  find-append_hit, find_unique, Bool-cases, inl, inr, if◌then◌else◌,
}
use pezhwan.Session.{SessionDoc, by_id}
use pezhwan.Session.Limits.{DistinctIds}

-- The session stored under an id belongs to a family.
abbrev pub FamilyAt : ℕ → ℕ → List SessionDoc → Type 0
FamilyAt i family l = (d : SessionDoc) × (find (by_id i) l ≡ some d) × (d.family_id ≡ family)

abbrev pub Keeps : (SessionDoc → SessionDoc) → Type 0
Keeps f = (d : SessionDoc) → ((f d).id ≡ d.id) × ((f d).family_id ≡ d.family_id)

module _ (p : SessionDoc → Bool) (f : SessionDoc → SessionDoc) (keeps : Keeps f)
    (i family : ℕ) where
  pub FamilyAt-update_first :
      (l : List SessionDoc) → FamilyAt i family l → FamilyAt i family (update_first p f l)
  FamilyAt-update_first [] (d, h, k) = cc
  FamilyAt-update_first (x ∷ l) (d, h, k) = elim (Bool-cases (by_id i x)) [
    | inl here ↦ elim (Bool-cases (p x)) [
      | inl touched ↦ (f x, ground (arith, keeps x), ground (arith, keeps x))
      | inr left ↦ (x, ground arith, ground arith)
    ]
    | inr further ↦ elim (Bool-cases (p x)) [
      | inl touched ↦ (d, ground (arith, keeps x), k)
      | inr left ↦
          let (e, found, family_e) = FamilyAt-update_first l (d, ground arith, k) in
          (e, ground arith, family_e)
    ]
  ]

  pub FamilyAt-update_all :
      (l : List SessionDoc) → FamilyAt i family l → FamilyAt i family (update_all p f l)
  FamilyAt-update_all [] (d, h, k) = cc
  FamilyAt-update_all (x ∷ l) (d, h, k) = elim (Bool-cases (by_id i x)) [
    | inl here ↦ ((if p x then f x else x), ground (arith, keeps x), ground (arith, keeps x))
    | inr further ↦
        let (e, found, family_e) = FamilyAt-update_all l (d, ground arith, k) in
        (e, ground (arith, keeps x), family_e)
  ]

pub FamilyAt-append :
    (i family : ℕ) (l m : List SessionDoc) → FamilyAt i family l → FamilyAt i family (l ++ m)
FamilyAt-append i family l m (d, h, k) = (d, find-append_hit (by_id i) l m h, k)

pub FamilyAt-of_found :
    (p : SessionDoc → Bool) (l : List SessionDoc) (d : SessionDoc)
    → DistinctIds l
    → find p l ≡ some d
    → FamilyAt d.id d.family_id l
FamilyAt-of_found p l d distinct h =
    (d, find_unique p (by_id d.id) l h (ground arith) (distinct d.id), refl)
