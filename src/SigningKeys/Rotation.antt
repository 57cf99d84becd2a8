-- ===== src/SigningKeys/Rotation.antt =====
-- Which key signs after a rotation by packages/core/src/services/keyStore.service.ts.
use pezhwan.Base.{
  ℕ, ◌+◌, ◌≤◌, ◌<◌, ◌≡◌, refl, inl, inr, Bool, true, false, not, List, [], ◌∷◌, ◌++◌, Option, none,
  some, ◌==◌, ltb, All, find, count, update_first, arith, Bool-cases, find-none_of_count,
  any-none_of_count, find-append_hit, count-filter-le, ==_refl, count-append,
}
use pezhwan.SigningKeys.{
  SigningKey, Deps, is_revoked, is_active, by_kid, set_key, prune, new_key, add_key, current,
  retire, retire_found, default_ttl_ms,
}
use pezhwan.SigningKeys.Newest.{
  IsNewest, Older, sorted-IsNewest, IsNewest-append, IsNewest-prune, IsNewest-retire, retires_key,
}
use pezhwan.SigningKeys.Persist.{
  Adapter, World, done, retire_throws, rotate, retired_previous, saved,
}

-- What is found in a list is not what no element of it is.
found-apart :
    (q r : SigningKey → Bool) (l : List SigningKey) (p : SigningKey)
    → find q l ≡ some p
    → count r l ≡ 0
    → r p ≡ false
found-apart q r [] p h e = cc
found-apart q r (x ∷ l) p h e = ground (arith, found-apart q r l p)

found_counted :
    (q r : SigningKey → Bool) (l : List SigningKey) (p : SigningKey)
    → find q l ≡ some p
    → r p ≡ true
    → 0 < count r l
found_counted q r [] p h e = cc
found_counted q r (x ∷ l) p h e = ground (arith, found_counted q r l p)

pruned_gone :
    (q : SigningKey → Bool) (now : ℕ) (l : List SigningKey) (p : SigningKey)
    → find q l ≡ some p
    → count (by_kid p.kid) l ≤ 1
    → p.expires_at < now
    → count (by_kid p.kid) (prune now l) ≡ 0
unfolding prune
pruned_gone q now [] p h one old = cc
pruned_gone q now (x ∷ l) p h one old = elim (Bool-cases (q x)) [
  | inl hit ↦
      let same : x ≡ p = ground arith in
      let counted : count (by_kid p.kid) l ≡ 0 = ground (arith, ==_refl p.kid) in
      rw same (ground (arith, count-filter-le (λ k. not (ltb k.expires_at now)) (by_kid p.kid) l))
  | inr miss ↦
      let later : find q l ≡ some p = ground arith in
      ground (
        arith,
        found_counted q (by_kid p.kid) l p later (==_refl p.kid),
        pruned_gone q now l p later,
      )
]

module _ (deps : Deps) (adapter : Adapter) (kid material now : ℕ) (w : World adapter) where
  -- The key that the rotation generates, and the keys with it.
  abbrev pub fresh_key : SigningKey
  fresh_key = new_key deps kid material default_ttl_ms now

  abbrev pub with_fresh : List SigningKey
  with_fresh = (add_key deps kid material default_ttl_ms now w.keys).1

  abbrev pub previous : Option SigningKey
  previous = find (λ k. is_active k.status) w.keys

  added : count (by_kid kid) w.keys ≡ 0 → with_fresh ≡ prune now (w.keys ++ fresh_key ∷ [])
  unfolding add_key set_key
  added unused = rw (any-none_of_count (by_kid kid) w.keys unused) refl

  with_fresh-IsNewest :
      count (by_kid kid) w.keys ≡ 0 → Older fresh_key w.keys → IsNewest fresh_key with_fresh
  with_fresh-IsNewest unused older = rw (added unused) (
      IsNewest-prune fresh_key now (w.keys ++ fresh_key ∷ []) (omega arith)
        (IsNewest-append fresh_key w.keys older))

  newest-signs :
      (l : List SigningKey) (i m t : ℕ)
      → IsNewest fresh_key l
      → t < now + default_ttl_ms
      → (current deps i m t l).0 ≡ fresh_key
  unfolding current
  newest-signs l i m t top soon =
      let (rest, e) = sorted-IsNewest fresh_key l top in rw e (ground arith)

  saved-newest :
      (o : Option (List SigningKey)) (l : List SigningKey) (s : adapter.State)
      → (saved deps adapter o l s).0 ≡ done
      → (m : List SigningKey) × ((o ≡ some m)
          × ((saved deps adapter o l s).1 ≡ record { keys = m; persisted = adapter.save m s }))
  saved-newest none l s h = cc
  saved-newest (some m) l s h = (m, (refl, refl))

  retired-IsNewest :
      (o : Option SigningKey) (i : ℕ) (l m : List SigningKey)
      → (i == kid) ≡ false
      → retire_found o i now l ≡ some m
      → IsNewest fresh_key l
      → IsNewest fresh_key m
  retired-IsNewest none i l m other h top = cc
  retired-IsNewest (some k) i l m other h top = elim (Bool-cases (is_revoked k.status)) [
    | inl gone ↦ cc (rw gone at h)
    | inr there ↦
        let same : update_first (by_kid i) (retires_key i now) l ≡ m = ground arith in
        rw (← same) (IsNewest-retire i now fresh_key l (ground arith) top)
  ]

  rotated-IsNewest :
      (o : Option SigningKey) (l : List SigningKey)
      → ((p : SigningKey) → o ≡ some p → (p.kid == kid) ≡ false)
      → IsNewest fresh_key l
      → (retired_previous deps adapter o now l w.persisted).0 ≡ done
      → let after = (retired_previous deps adapter o now l w.persisted).1 in
        IsNewest fresh_key after.keys × (after.persisted ≡ adapter.save after.keys w.persisted)
  unfolding retire
  rotated-IsNewest none l apart top h = (top, refl)
  rotated-IsNewest (some p) l apart top h =
      let found = find (by_kid p.kid) l in
      let (m, (e, same)) = saved-newest (retire p.kid now l) l w.persisted h in
      rw same (retired-IsNewest found p.kid l m (apart p refl) e top, refl)

-- A rotation that succeeds hands over: the new key signs at every time before its expiry, whatever
-- would be drawn if there were none, and the keys that are held are the ones that are saved. The drawn
-- kid is not held, and all held keys were created before.
pub rotate-new_signs :
    (deps : Deps) (adapter : Adapter) (kid material now : ℕ) (w : World adapter) (i m t : ℕ)
    → count (by_kid kid) w.keys ≡ 0
    → All (λ x. x.created_at < now) w.keys
    → t < now + default_ttl_ms
    → (rotate deps adapter kid material now w).0 ≡ done
    → let after = (rotate deps adapter kid material now w).1 in
      ((current deps i m t after.keys).0 ≡ new_key deps kid material default_ttl_ms now)
      × (after.persisted ≡ adapter.save after.keys w.persisted)
unfolding rotate
rotate-new_signs deps adapter kid material now w i m t unused older soon h =
    let (top, kept) =
      rotated-IsNewest deps adapter kid material now w (previous deps adapter kid material now w)
        (with_fresh deps adapter kid material now w)
        (λ p e. found-apart (λ k. is_active k.status) (by_kid kid) w.keys p e unused)
        (with_fresh-IsNewest deps adapter kid material now w unused older) h in
    (newest-signs deps adapter kid material now w _ i m t top soon, kept)

-- A rotation after the active key has expired throws and saves nothing, and the key that it has
-- generated signs all the same: tokens are then signed with a key that no restart and no other instance
-- has. The drawn kid is not held, the expired one is held once, and all held keys were created before.
rotate-expired_throws :
    (deps : Deps) (adapter : Adapter) (kid material now : ℕ) (w : World adapter) (p : SigningKey)
    (i m t : ℕ)
    → find (λ k. is_active k.status) w.keys ≡ some p
    → p.expires_at < now
    → count (by_kid p.kid) w.keys ≤ 1
    → count (by_kid kid) w.keys ≡ 0
    → All (λ x. x.created_at < now) w.keys
    → t < now + default_ttl_ms
    → let r = rotate deps adapter kid material now w in
      (r.0 ≡ retire_throws)
      × (r.1.persisted ≡ w.persisted)
      × ((current deps i m t r.1.keys).0 ≡ new_key deps kid material default_ttl_ms now)
unfolding rotate retire
rotate-expired_throws deps adapter kid material now w p i m t active old one unused older soon =
    let k = fresh_key deps adapter kid material now w in
    let apart = found-apart (λ j. is_active j.status) (by_kid kid) w.keys p active unused in
    let gone : find (by_kid p.kid) (with_fresh deps adapter kid material now w) ≡ none =
      find-none_of_count (by_kid p.kid) (with_fresh deps adapter kid material now w) (
        rw (added deps adapter kid material now w unused) (
          pruned_gone (λ j. is_active j.status) now (w.keys ++ k ∷ []) p
            (find-append_hit (λ j. is_active j.status) w.keys (k ∷ []) {x = p} active)
            (ground (arith, one, count-append (by_kid p.kid) w.keys (k ∷ []))) old)) in
    rw (active, gone)
      (
        refl,
        refl,
        newest-signs deps adapter kid material now w (with_fresh deps adapter kid material now w) i
            m t (with_fresh-IsNewest deps adapter kid material now w unused older) soon,
      )
