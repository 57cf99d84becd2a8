-- ===== src/SigningKeys/Newest.antt =====
-- The key that is created last, through the operations of packages/crypto/src/jwt.ts.
use pezhwan.Base.{
  ℕ, ◌≤◌, ◌<◌, ◌≡◌, ◌⊎◌, refl, inl, inr, false, List, [], ◌∷◌, ◌++◌, some, ltb, All, update_first,
  arith, Bool-cases, lt→ltb,
}
use pezhwan.SigningKeys.{SigningKey, by_kid, prune, newest_first, insert_newest, verify_only}

-- The key is in the list, and every other was created before it.
abbrev pub IsNewest : SigningKey → List SigningKey → Type 0
IsNewest k [] = ⊥
IsNewest k (j ∷ l) =
    ((j ≡ k) × All (λ x. x.created_at < k.created_at) l)
    ⊎ ((j.created_at < k.created_at) × IsNewest k l)

abbrev pub Older : SigningKey → List SigningKey → Type 0
Older k l = All (λ x. x.created_at < k.created_at) l

insert-Older :
    (k j : SigningKey) (l : List SigningKey)
    → j.created_at < k.created_at
    → Older k l
    → Older k (insert_newest j l)
unfolding insert_newest
insert-Older k j [] h o = (h, tt)
insert-Older k j (i ∷ l) h (a, o) = ground (arith, insert-Older k j l h o)

sorted-Older : (k : SigningKey) (l : List SigningKey) → Older k l → Older k (newest_first l)
unfolding newest_first
sorted-Older k [] o = tt
sorted-Older k (j ∷ l) (h, o) = insert-Older k j (newest_first l) h (sorted-Older k l o)

insert-first : (k : SigningKey) (l : List SigningKey) → Older k l → insert_newest k l ≡ k ∷ l
unfolding insert_newest
insert-first k [] o = refl
insert-first k (j ∷ l) (h, o) = ground arith

pub sorted-IsNewest :
    (k : SigningKey) (l : List SigningKey)
    → IsNewest k l
    → (rest : List SigningKey) × (newest_first l ≡ k ∷ rest)
unfolding newest_first insert_newest
sorted-IsNewest k [] top = elim top [ ]
sorted-IsNewest k (j ∷ l) (inl (e, o)) =
    (newest_first l, rw e (insert-first k (newest_first l) (sorted-Older k l o)))
sorted-IsNewest k (j ∷ l) (inr (h, top)) =
    let (rest, e) = sorted-IsNewest k l top in
    (insert_newest j rest, rw (e, lt→ltb j.created_at k.created_at h) refl)

pub IsNewest-append : (k : SigningKey) (l : List SigningKey) → Older k l → IsNewest k (l ++ k ∷ [])
IsNewest-append k [] o = inl (refl, tt)
IsNewest-append k (j ∷ l) (h, o) = inr (h, IsNewest-append k l o)

Older-prune : (k : SigningKey) (now : ℕ) (l : List SigningKey) → Older k l → Older k (prune now l)
unfolding prune
Older-prune k now [] o = tt
Older-prune k now (j ∷ l) (h, o) = ground (arith, Older-prune k now l o)

pub IsNewest-prune :
    (k : SigningKey) (now : ℕ) (l : List SigningKey)
    → now ≤ k.expires_at
    → IsNewest k l
    → IsNewest k (prune now l)
unfolding prune
IsNewest-prune k now [] late top = elim top [ ]
IsNewest-prune k now (j ∷ l) late (inl (e, o)) =
    let kept : ltb j.expires_at now ≡ false = rw e (ground arith) in
    rw kept (inl (e, Older-prune k now l o))
IsNewest-prune k now (j ∷ l) late (inr (h, top)) = elim (Bool-cases (ltb j.expires_at now)) [
  | inl old ↦ rw old (IsNewest-prune k now l late top)
  | inr kept ↦ rw kept (inr (h, IsNewest-prune k now l late top))
]

module _ (i now : ℕ) where
  abbrev pub retires_key : SigningKey → SigningKey
  retires_key x = record x { status = verify_only; retired_at = some now }

  Older-retire :
      (k : SigningKey) (l : List SigningKey)
      → Older k l
      → Older k (update_first (by_kid i) retires_key l)
  Older-retire k [] o = tt
  Older-retire k (j ∷ l) (h, o) = ground (arith, Older-retire k l o)

  pub IsNewest-retire :
      (k : SigningKey) (l : List SigningKey)
      → by_kid i k ≡ false
      → IsNewest k l
      → IsNewest k (update_first (by_kid i) retires_key l)
  IsNewest-retire k [] other top = elim top [ ]
  IsNewest-retire k (j ∷ l) other (inl (e, o)) =
      let apart : by_kid i j ≡ false = rw e other in rw apart (inl (e, Older-retire k l o))
  IsNewest-retire k (j ∷ l) other (inr (h, top)) = elim (Bool-cases (by_kid i j)) [
    | inl own ↦ rw own (inr (h, top))
    | inr apart ↦ rw apart (inr (h, IsNewest-retire k l other top))
  ]
