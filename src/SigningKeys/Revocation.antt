-- ===== src/SigningKeys/Revocation.antt =====
-- What a revocation of a signing key leaves, in packages/crypto/src/jwt.ts.
use pezhwan.Base.{
  ℕ, ◌≤◌, ◌≡◌, ◌≢◌, refl, inl, inr, Bool, true, not, ◌&&◌, List, [], ◌∷◌, Option, none, some, ◌==◌,
  ltb, find, any, count, update_first, arith, Bool-cases, Option-cases, count-update_first_le,
  count-update_first_apart, count-filter-le, count-append, count_mono,
}
use pezhwan.SigningKeys.{
  SigningKey, Deps, is_revoked, by_kid, set_key, prune, new_key, add_key, current, current_of,
  key_for, add_key_with_material, is_well_formed, restored, retire, retire_found, revoke,
  newest_first, is_current, default_ttl_ms, verify_only, revoked, jwks,
}
use pezhwan.SigningKeys.Lifetime.{Step, Reach, adds, signs, restores, retires, revokes, here, next}

-- A key of the kid that is not revoked.
abbrev pub open_key : ℕ → SigningKey → Bool
open_key kid k = by_kid kid k && not (is_revoked k.status)

abbrev pub open_keys : ℕ → List SigningKey → ℕ
open_keys kid l = count (open_key kid) l

module _ (deps : Deps) (kid t : ℕ) where
  set_key-closed :
      (k : SigningKey) (l : List SigningKey)
      → kid ≢ k.kid
      → open_keys kid l ≡ 0
      → open_keys kid (set_key k l) ≡ 0
  unfolding set_key
  set_key-closed k l other e = ground (
    arith,
    count-update_first_le (open_key kid) (by_kid k.kid) (λ _. k) l (λ a h. ground arith),
    count-append (open_key kid) l (k ∷ []),
  )

  prune-closed :
      (now : ℕ) (l : List SigningKey) → open_keys kid l ≡ 0 → open_keys kid (prune now l) ≡ 0
  unfolding prune
  prune-closed now l e =
      omega (arith, e, count-filter-le (λ j. not (ltb j.expires_at now)) (open_key kid) l)

  add_key-closed :
      (i m ttl now : ℕ) (l : List SigningKey)
      → kid ≢ i
      → open_keys kid l ≡ 0
      → open_keys kid (add_key deps i m ttl now l).1 ≡ 0
  unfolding add_key
  add_key-closed i m ttl now l other e =
      prune-closed now (set_key (new_key deps i m ttl now) l)
        (set_key-closed (new_key deps i m ttl now) l other e)

  current_of-closed :
      (o : Option SigningKey) (i m now : ℕ) (l : List SigningKey)
      → kid ≢ i
      → open_keys kid l ≡ 0
      → open_keys kid (current_of deps o i m now l).1 ≡ 0
  current_of-closed none i m now l other e = add_key-closed i m default_ttl_ms now l other e
  current_of-closed (some k) i m now l other e = e

  -- A key that is found for a kid without open keys is revoked, so it is not retired.
  found-closed :
      (l : List SigningKey) (k : SigningKey)
      → open_keys kid l ≡ 0
      → find (by_kid kid) l ≡ some k
      → is_revoked k.status ≡ true
  found-closed [] k e h = cc
  found-closed (x ∷ l) k e h = ground (arith, found-closed l k)

  retired-closed :
      (o : Option SigningKey) (i now : ℕ) (l after : List SigningKey)
      → find (by_kid i) l ≡ o
      → retire_found o i now l ≡ some after
      → open_keys kid l ≡ 0
      → open_keys kid after ≡ 0
  retired-closed none i now l after f h e = cc
  retired-closed (some k) i now l after f h e = elim (Bool-cases (is_revoked k.status)) [
    | inl gone ↦ cc (rw gone at h)
    | inr there ↦ elim (Bool-cases (i == kid)) [
      | inl own ↦ let same : i ≡ kid = ground arith in cc (there, found-closed l k e (rw same at f))
      | inr other ↦
          let g : SigningKey → SigningKey =
            λ x. record x { status = verify_only; retired_at = some now } in
          let same : update_first (by_kid i) g l ≡ after = ground arith in
          rw (← same) (
            omega (
              arith,
              e,
              count-update_first_apart (by_kid i) (open_key kid) g l
                  (λ a p. (ground arith, ground arith)),
            ))
    ]
  ]

  closed-Step :
      {l m : List SigningKey} → Step deps kid t l m → open_keys kid l ≡ 0 → open_keys kid m ≡ 0
  unfolding current add_key_with_material retire revoke
  closed-Step {l} (adds i m ttl now other soon) e = add_key-closed i m ttl now l other e
  closed-Step {l} (signs i m now other soon) e =
      current_of-closed (find (is_current now) (newest_first l)) i m now l other e
  closed-Step {l} (restores k now after other soon h) e =
      elim (Bool-cases (is_well_formed deps k)) [
        | inr bad ↦ cc (rw bad at h)
        | inl good ↦
            let same : prune now (set_key (restored k) l) ≡ after = ground arith in
            rw (← same)
              (prune-closed now (set_key (restored k) l) (set_key-closed (restored k) l other e))
      ]
  closed-Step {l} (retires i now after h) e =
      retired-closed (find (by_kid i) l) i now l after refl h e
  closed-Step {l} (revokes i now after other h) e = elim (Bool-cases (any (by_kid i) l)) [
    | inr unknown ↦ cc (rw unknown at h)
    | inl known ↦
        let g : SigningKey → SigningKey =
          λ x. record x { status = revoked; revoked_at = some now } in
        let same : update_first (by_kid i) g l ≡ after = ground arith in
        rw (← same) (
          omega
            (arith, e, count-update_first_le (open_key kid) (by_kid i) g l (λ a p. ground arith)))
  ]

  closed-Reach :
      {l m : List SigningKey} → Reach deps kid t l m → open_keys kid l ≡ 0 → open_keys kid m ≡ 0
  closed-Reach here e = e
  closed-Reach (next r step) e = closed-Step step (closed-Reach r e)

  closed-refused : (now : ℕ) (l : List SigningKey) → open_keys kid l ≡ 0 → key_for kid now l ≡ none
  unfolding key_for
  closed-refused now l e = elim (Option-cases (find (by_kid kid) l)) [
    | inl nothing ↦ rw nothing refl
    | inr (k, at) ↦ rw at (ground (arith, found-closed l k e at))
  ]

  closed-unpublished :
      (now : ℕ) (l : List SigningKey) → open_keys kid l ≡ 0 → count (by_kid kid) (jwks now l) ≡ 0
  unfolding jwks
  closed-unpublished now [] e = refl
  closed-unpublished now (k ∷ l) e = ground (arith, closed-unpublished now l)

  update-closes :
      (now : ℕ) (l : List SigningKey)
      → count (by_kid kid) l ≤ 1
      → open_keys kid
          (update_first (by_kid kid) (λ x. record x { status = revoked; revoked_at = some now }) l)
        ≡ 0
  update-closes now [] one = refl
  update-closes now (x ∷ l) one =
      ground
        (arith, update-closes now l, count_mono (open_key kid) (by_kid kid) (λ a p. ground arith) l)

  revoke-closes :
      (now : ℕ) (l after : List SigningKey)
      → count (by_kid kid) l ≤ 1
      → revoke kid now l ≡ some after
      → open_keys kid after ≡ 0
  unfolding revoke
  revoke-closes now l after one h = elim (Bool-cases (any (by_kid kid) l)) [
    | inr unknown ↦ cc (rw unknown at h)
    | inl known ↦
        let g : SigningKey → SigningKey =
          λ x. record x { status = revoked; revoked_at = some now } in
        let same : update_first (by_kid kid) g l ≡ after = ground arith in
        rw (← same) (update-closes now l one)
  ]

-- A revoked key is gone for good: once a kid has been revoked, no key is found for it and none is
-- published with it, at whatever time, and whatever keys are added, restored, retired or revoked since
-- and whichever sign, as long as the kid is not drawn or restored again. The kid is held once.
pub revoked_key-gone :
    (deps : Deps) (kid now t : ℕ) (l after m : List SigningKey)
    → count (by_kid kid) l ≤ 1
    → revoke kid now l ≡ some after
    → Reach deps kid t after m
    → (time : ℕ) → (key_for kid time m ≡ none) × (count (by_kid kid) (jwks time m) ≡ 0)
revoked_key-gone deps kid now t l after m one h reach time =
    let e = closed-Reach deps kid t reach (revoke-closes deps kid t now l after one h) in
    (closed-refused deps kid t time m e, closed-unpublished deps kid t time m e)
