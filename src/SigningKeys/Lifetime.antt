-- ===== src/SigningKeys/Lifetime.antt =====
-- How long a signing key verifies, in packages/crypto/src/jwt.ts.
use pezhwan.Base.{
  ℕ, ◌≤◌, ◌<◌, ◌≡◌, ap, ◌≢◌, refl, sym, inl, inr, false, not, List, Option, none, some, ◌==◌, ltb,
  find, any, update_first, arith, Bool-cases, find-update_first_apart, find-filter_kept,
  find-append_apart, find-update_first,
}
use pezhwan.SigningKeys.{
  SigningKey, StoredKey, Deps, is_revoked, by_kid, set_key, prune, new_key, add_key, current,
  current_of, key_for, add_key_with_material, is_well_formed, restored, retire, retire_found,
  revoke, newest_first, is_current, verify_only, revoked, default_ttl_ms,
}

abbrev secret_of : SigningKey → ℕ × ℕ
secret_of k = (k.algorithm, k.material)

module _ (deps : Deps) (kid t : ℕ) where
  -- One call by time `t` that does not draw, restore or revoke the kid.
  pub data Step (l : List SigningKey) : List SigningKey → Type 0 where
    adds :
        (i material ttl now : ℕ) → kid ≢ i → now ≤ t → Step l (add_key deps i material ttl now l).1
    signs : (i material now : ℕ) → kid ≢ i → now ≤ t → Step l (current deps i material now l).1
    restores :
        (k : StoredKey) (now : ℕ) (after : List SigningKey)
        → kid ≢ k.kid
        → now ≤ t
        → add_key_with_material deps k now l ≡ some after
        → Step l after
    retires : (i now : ℕ) (after : List SigningKey) → retire i now l ≡ some after → Step l after
    revokes :
        (i now : ℕ) (after : List SigningKey) → kid ≢ i → revoke i now l ≡ some after → Step l after

  pub data Reach (l : List SigningKey) : List SigningKey → Type 0 where
    here : Reach l l
    next : {m n : List SigningKey} → Reach l m → Step m n → Reach l n

  -- The kid is held by a key of the algorithm and the material, not revoked and not expired at `t`.
  abbrev pub Usable : ℕ × ℕ → List SigningKey → Type 0
  Usable secret l =
      (k : SigningKey) × (find (by_kid kid) l ≡ some k)
      × (is_revoked k.status ≡ false)
      × (t < k.expires_at)
      × (secret_of k ≡ secret)

  find-set_key_other :
      (k : SigningKey) (l : List SigningKey)
      → kid ≢ k.kid
      → find (by_kid kid) (set_key k l) ≡ find (by_kid kid) l
  unfolding set_key
  find-set_key_other k l other = elim (Bool-cases (any (by_kid k.kid) l)) [
    | inl old ↦ rw old (
        find-update_first_apart (by_kid k.kid) (by_kid kid) (λ _. k) l
          (λ a h. (ground arith, ground arith)))
    | inr fresh ↦ rw fresh (find-append_apart (by_kid kid) l k (ground arith))
  ]

  Usable-prune :
      (secret : ℕ × ℕ) (now : ℕ) (l : List SigningKey)
      → now ≤ t
      → Usable secret l
      → Usable secret (prune now l)
  unfolding prune
  Usable-prune secret now l soon (k, found, alive, late, same) = (
    k,
    find-filter_kept (λ j. not (ltb j.expires_at now)) (by_kid kid) l {x = k} found (ground arith),
    alive,
    late,
    same,
  )

  Usable-set_key :
      (k : SigningKey) (secret : ℕ × ℕ) (l : List SigningKey)
      → kid ≢ k.kid
      → Usable secret l
      → Usable secret (set_key k l)
  Usable-set_key k secret l other (j, found, alive, late, same) =
      (j, rw (find-set_key_other k l other) found, alive, late, same)

  Usable-add_key :
      (i m ttl now : ℕ) (secret : ℕ × ℕ) (l : List SigningKey)
      → kid ≢ i
      → now ≤ t
      → Usable secret l
      → Usable secret (add_key deps i m ttl now l).1
  unfolding add_key
  Usable-add_key i m ttl now secret l other soon u =
      Usable-prune secret now (set_key (new_key deps i m ttl now) l) soon
        (Usable-set_key (new_key deps i m ttl now) secret l other u)

  Usable-current_of :
      (o : Option SigningKey) (i m now : ℕ) (secret : ℕ × ℕ) (l : List SigningKey)
      → kid ≢ i
      → now ≤ t
      → Usable secret l
      → Usable secret (current_of deps o i m now l).1
  Usable-current_of none i m now secret l other soon u =
      Usable-add_key i m default_ttl_ms now secret l other soon u
  Usable-current_of (some k) i m now secret l other soon u = u

  -- An update of one key that keeps its kid, its expiry and its secret, and does not revoke this one.
  Usable-update :
      (i : ℕ) (secret : ℕ × ℕ) (f : SigningKey → SigningKey) (l : List SigningKey)
      → ((a : SigningKey) → (f a).kid ≡ a.kid)
      → ((a : SigningKey) → (f a).expires_at ≡ a.expires_at)
      → ((a : SigningKey) → secret_of (f a) ≡ secret_of a)
      → ((a : SigningKey) → i ≡ kid → is_revoked (f a).status ≡ false)
      → Usable secret l
      → Usable secret (update_first (by_kid i) f l)
  Usable-update i secret f l same_kid same_expiry same_secret not_revoked
        (k, found, alive, late, same) =
      elim (Bool-cases (i == kid)) [
        | inl own ↦
            let e : i ≡ kid = ground arith in
            (
              f k,
              rw e (find-update_first (by_kid kid) f l {x = k} (λ a. rw (same_kid a) refl) found),
              not_revoked k e,
              rw (same_expiry k) late,
              rw (same_secret k) same,
            )
        | inr other ↦ (
          k,
          rw
              (find-update_first_apart (by_kid i) (by_kid kid) f l
                (λ a h. (ground arith, ground (arith, same_kid a))))
              found,
          alive,
          late,
          same,
        )
      ]

  retired-Usable :
      (o : Option SigningKey) (i now : ℕ) (secret : ℕ × ℕ) (l after : List SigningKey)
      → retire_found o i now l ≡ some after
      → Usable secret l
      → Usable secret after
  retired-Usable none i now secret l after e u = cc
  retired-Usable (some k) i now secret l after e u = elim (Bool-cases (is_revoked k.status)) [
    | inl gone ↦ cc (rw gone at e)
    | inr there ↦
        let f : SigningKey → SigningKey =
          λ x. record x { status = verify_only; retired_at = some now } in
        let same : update_first (by_kid i) f l ≡ after = ground arith in
        rw (← same) (Usable-update i secret f l (λ a. refl) (λ a. refl) (λ a. refl) (λ a h. refl) u)
  ]

  Usable-Step :
      {l m : List SigningKey} (secret : ℕ × ℕ) → Step l m → Usable secret l → Usable secret m
  unfolding current add_key_with_material retire revoke
  Usable-Step {l} secret (adds i m ttl now other soon) u =
      Usable-add_key i m ttl now secret l other soon u
  Usable-Step {l} secret (signs i m now other soon) u =
      Usable-current_of (find (is_current now) (newest_first l)) i m now secret l other soon u
  Usable-Step {l} secret (restores k now after other soon e) u =
      elim (Bool-cases (is_well_formed deps k)) [
        | inr bad ↦ cc (rw bad at e)
        | inl good ↦
            let same : prune now (set_key (restored k) l) ≡ after = ground arith in
            rw (← same) (
              Usable-prune secret now (set_key (restored k) l) soon
                (Usable-set_key (restored k) secret l other u))
      ]
  Usable-Step {l} secret (retires i now after e) u =
      retired-Usable (find (by_kid i) l) i now secret l after e u
  Usable-Step {l} secret (revokes i now after other e) u = elim (Bool-cases (any (by_kid i) l)) [
    | inr unknown ↦ cc (rw unknown at e)
    | inl known ↦
        let f : SigningKey → SigningKey =
          λ x. record x { status = revoked; revoked_at = some now } in
        let same : update_first (by_kid i) f l ≡ after = ground arith in
        rw (← same) (
          Usable-update i secret f l (λ a. refl) (λ a. refl) (λ a. refl)
            (λ a h. absurd (other (sym h))) u)
  ]

  Usable-Reach :
      {l m : List SigningKey} (secret : ℕ × ℕ) → Reach l m → Usable secret l → Usable secret m
  Usable-Reach secret here u = u
  Usable-Reach secret (next r step) u = Usable-Step secret step (Usable-Reach secret r u)

-- A key that has signed verifies until it expires: a held key that is not revoked is found by its kid,
-- with its algorithm and its material, at every time before its expiry, whatever keys are added,
-- restored, retired or revoked by then and whichever sign, as long as its kid is not drawn or restored
-- again nor revoked.
pub key_for-until_expiry :
    (deps : Deps) (kid t : ℕ) (l m : List SigningKey) (k : SigningKey)
    → find (by_kid kid) l ≡ some k
    → is_revoked k.status ≡ false
    → t < k.expires_at
    → Reach deps kid t l m
    → (j : SigningKey) × (key_for kid t m ≡ some j)
      × (j.algorithm ≡ k.algorithm)
      × (j.material ≡ k.material)
unfolding key_for
key_for-until_expiry deps kid t l m k found alive late reach =
    let (j, at, open_still, in_time, same) =
      Usable-Reach deps kid t (secret_of k) reach (k, found, alive, late, refl) in
    (j, ground arith, ap (λ p. p.0) same, ap (λ p. p.1) same)
