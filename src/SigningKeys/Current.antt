-- ===== src/SigningKeys/Current.antt =====
-- The key that signs is held, in packages/crypto/src/jwt.ts.
use pezhwan.Base.{
  ℕ, ◌≤◌, ◌<◌, ◌≡◌, refl, inl, inr, ◌⊎◌, Bool, true, not, List, [], ◌∷◌, ◌++◌, some, ltb, find,
  count, arith, Bool-cases, Option-cases, ==_refl, find-passes, find-none_of_count,
  find-append_miss, find-filter_kept, any-none_of_count,
}
use pezhwan.SigningKeys.{
  SigningKey, Deps, is_active, by_kid, new_key, add_key, set_key, prune, insert_newest,
  newest_first, is_current, current, default_ttl_ms, KeyStatus, active, generated, staged,
  verify_only, retired, revoked,
}

abbrev Held : SigningKey → List SigningKey → Type 0
Held k [] = ⊥
Held k (j ∷ l) = (j ≡ k) ⊎ Held k l

Held-find :
    (p : SigningKey → Bool) (k : SigningKey) (l : List SigningKey) → find p l ≡ some k → Held k l
Held-find p k [] h = cc
Held-find p k (j ∷ l) h = elim (Bool-cases (p j)) [
  | inl hit ↦ inl (ground arith)
  | inr miss ↦ inr (Held-find p k l (rw miss at h))
]

Held-insert :
    (k j : SigningKey) (l : List SigningKey) → Held k (insert_newest j l) → (j ≡ k) ⊎ Held k l
unfolding insert_newest
Held-insert k j [] (inl e) = inl e
Held-insert k j [] (inr absent) = elim absent [ ]
Held-insert k j (i ∷ l) h = elim (Bool-cases (ltb j.created_at i.created_at)) [
  | inr first ↦ rw first at h
  | inl later ↦ elim (rw later at h) [
    | inl e ↦ inr (inl e)
    | inr deep ↦ elim (Held-insert k j l deep) [ inl e ↦ inl e | inr there ↦ inr (inr there) ]
  ]
]

Held-sorted : (k : SigningKey) (l : List SigningKey) → Held k (newest_first l) → Held k l
unfolding newest_first
Held-sorted k [] h = h
Held-sorted k (j ∷ l) h = elim (Held-insert k j (newest_first l) h) [
  | inl e ↦ inl e
  | inr there ↦ inr (Held-sorted k l there)
]

count_of_Held :
    (p : SigningKey → Bool) (k : SigningKey) (l : List SigningKey)
    → Held k l
    → p k ≡ true
    → 0 < count p l
count_of_Held p k [] absent h = elim absent [ ]
count_of_Held p k (j ∷ l) (inl e) h = let hit : p j ≡ true = rw e h in rw hit (omega arith)
count_of_Held p k (j ∷ l) (inr there) h = ground (arith, count_of_Held p k l there h)

find_of_Held :
    (p : SigningKey → Bool) (k : SigningKey) (l : List SigningKey)
    → Held k l
    → p k ≡ true
    → count p l ≤ 1
    → find p l ≡ some k
find_of_Held p k [] absent h one = elim absent [ ]
find_of_Held p k (j ∷ l) (inl e) h one = let hit : p j ≡ true = rw e h in rw (hit, e) refl
find_of_Held p k (j ∷ l) (inr there) h one =
    ground (arith, count_of_Held p k l there h, find_of_Held p k l there h)

is_active-active : (s : KeyStatus) → is_active s ≡ true → s ≡ active
is_active-active active h = refl
is_active-active generated h = cc
is_active-active staged h = cc
is_active-active verify_only h = cc
is_active-active retired h = cc
is_active-active revoked h = cc

module _ (deps : Deps) (kid material ttl now : ℕ) (l : List SigningKey) where
  added-held :
      count (by_kid kid) l ≡ 0
      → find (by_kid kid) (add_key deps kid material ttl now l).1
        ≡ some (new_key deps kid material ttl now)
  unfolding add_key set_key prune
  added-held unused =
      let k = new_key deps kid material ttl now in
      rw (any-none_of_count (by_kid kid) l unused) (
        find-filter_kept (λ j. not (ltb j.expires_at now)) (by_kid kid) (l ++ k ∷ []) {x = k}
          (rw (find-append_miss (by_kid kid) l (k ∷ []) (find-none_of_count (by_kid kid) l unused))
            (ground (arith, ==_refl kid)))
          (ground arith))

-- The key that signs is held under its kid, active and not expired, where kids are distinct and the one
-- that is drawn is not held.
pub current-held :
    (deps : Deps) (kid material now : ℕ) (l : List SigningKey)
    → ((i : ℕ) → count (by_kid i) l ≤ 1)
    → count (by_kid kid) l ≡ 0
    → let (k, after) = current deps kid material now l in
      (find (by_kid k.kid) after ≡ some k) × (k.status ≡ active) × (now < k.expires_at)
unfolding current add_key
current-held deps kid material now l distinct unused =
    elim (Option-cases (find (is_current now) (newest_first l))) [
      | inr (k, at) ↦
          let passes = find-passes (is_current now) (newest_first l) {x = k} at in
          let there = Held-sorted k l (Held-find (is_current now) k (newest_first l) at) in
          rw at (
            find_of_Held (by_kid k.kid) k l there (==_refl k.kid) (distinct k.kid),
            is_active-active k.status (ground (arith, passes)),
            ground (arith, passes),
          )
      | inl nothing ↦
          rw nothing (added-held deps kid material default_ttl_ms now l unused, refl, omega arith)
    ]
