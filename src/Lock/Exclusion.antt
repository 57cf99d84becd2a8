-- ===== src/Lock/Exclusion.antt =====
-- Locks of packages/core/src/services/infrastructure/distributed-lock.ts on one key, by several
-- holders of tokens.
use pezhwan.Base.{
  ℕ, ◌+◌, ◌≤◌, ◌<◌, ◌≡◌, ◌≢◌, inl, inr, refl, Bool, true, false, List, [], ◌∷◌, Option, some, ◌==◌,
  arith, Bool-cases,
}
use pezhwan.Cache.{Cache}
use pezhwan.Lock.{
  Client, IsClient, Lock, World, try_acquire, release, extend, ceil_seconds, or_false, or_ttl,
  release_script, extend_script, interpret,
}

-- What other holders of a token do to one key.
pub data Op : Type 0 where
  try' : (token ttl_ms : ℕ) → Op
  release' : Lock → Op
  extend' : Lock → (new_ttl_ms : Option ℕ) → Op

abbrev pub token_of : Op → ℕ
token_of (try' token ttl) = token
token_of (release' lock) = lock.token
token_of (extend' lock ttl) = lock.token

-- The operations are on the key, with a token that is not the owner's, at ascending times.
abbrev pub OfKey : ℕ → Op → Type 0
OfKey key (try' token ttl) = Unit
OfKey key (release' lock) = lock.key ≡ key
OfKey key (extend' lock ttl) = lock.key ≡ key

abbrev pub ByOthers : (key owner first last : ℕ) → List (Op × ℕ) → Type 0
ByOthers key owner first last [] = Unit
ByOthers key owner first last ((op, now) ∷ more) =
    (owner ≢ token_of op)
    × (OfKey key op × ((first ≤ now) × ((now < last) × ByOthers key owner now last more)))

module _ (client : Client) (cache : Cache) (key : ℕ) where
  abbrev pub apply : Op → ℕ → World client cache → Bool × World client cache
  apply (try' token ttl) now = try_acquire client cache true key token (ceil_seconds ttl) now
  apply (release' lock) now = release client cache true lock now
  apply (extend' lock ttl) now = extend client cache true lock ttl now

  abbrev pub gets_lock : Op → Bool → Bool
  gets_lock (try' token ttl) b = b
  gets_lock _ b = false

  -- No attempt to acquire succeeds.
  abbrev pub NoneAcquires : List (Op × ℕ) → World client cache → Type 0
  NoneAcquires [] w = Unit
  NoneAcquires ((op, now) ∷ more) w =
      (gets_lock op (apply op now w).0 ≡ false) × NoneAcquires more (apply op now w).1

or_false-true : (o : Option Bool) → or_false o ≡ true → o ≡ some true
or_false-true o e = ground arith

module _ (client : Client) (cache : Cache) (laws : IsClient client) (key owner last : ℕ) where
  abbrev IsHeld : ℕ → World client cache → Type 0
  IsHeld now w = (t : ℕ) → now ≤ t → t < last → client.store.stored w.redis t key ≡ some owner

  set_refused :
      (token ttl now : ℕ) (w : World client cache)
      → client.store.stored w.redis now key ≡ some owner
      → or_false (client.set_nx_ex key token ttl now w.redis).0 ≡ false
  set_refused token ttl now w held =
      elim (Bool-cases (or_false (client.set_nx_ex key token ttl now w.redis).0)) [
        | inl got ↦ let free = (laws.set_ok key token ttl now w.redis (or_false-true _ got)).0 in cc
        | inr refused ↦ refused
      ]

  -- A script whose first argument is another token does nothing to a key that is held.
  released_other :
      (token now t : ℕ) (s : client.store.State)
      → client.store.stored s now key ≡ some owner
      → owner ≢ token
      → client.store.stored (client.eval release_script key (token ∷ []) now s).1 t key
        ≡ client.store.stored s t key
  unfolding release_script interpret
  released_other token now t s held other =
      let apart : (owner == token) ≡ false = ground (arith, other) in
      elim (laws.eval_law release_script key (token ∷ []) now s) [
        | inl idle ↦ rw idle refl
        | inr ran ↦ rw (ran, held, apart) refl
      ]

  extended_other :
      (token ttl now t : ℕ) (s : client.store.State)
      → client.store.stored s now key ≡ some owner
      → owner ≢ token
      → client.store.stored (client.eval extend_script key (token ∷ ttl ∷ []) now s).1 t key
        ≡ client.store.stored s t key
  unfolding extend_script interpret
  extended_other token ttl now t s held other =
      let apart : (owner == token) ≡ false = ground (arith, other) in
      elim (laws.eval_law extend_script key (token ∷ ttl ∷ []) now s) [
        | inl idle ↦ rw idle refl
        | inr ran ↦ rw (ran, held, apart) refl
      ]

  op_keeps :
      (op : Op) (now : ℕ) (w : World client cache)
      → IsHeld now w
      → now < last
      → owner ≢ token_of op
      → OfKey key op
      → (gets_lock client cache key op (apply client cache key op now w).0 ≡ false)
        × IsHeld now (apply client cache key op now w).1
  unfolding try_acquire release extend
  op_keeps (try' token ttl) now w held soon other here =
      let now_held = held now (omega arith) soon in
      let refused = set_refused token (ceil_seconds ttl) now w now_held in
      elim (Bool-cases (client.ready w.redis)) [
        | inl up ↦ (
          ground (arith, refused),
          λ t after before.
              let kept =
                laws.set_taken key token (ceil_seconds ttl) now t owner w.redis now_held after in
              let h = held t after before in ground (arith, kept, h),
        )
        | inr down ↦ elim (laws.get_law key now w.redis) [
          | inl thrown ↦
              (ground arith, λ t after before. let h = held t after before in ground (arith, h))
          | inr read ↦ (
            ground (arith, read),
            λ t after before. let h = held t after before in ground (arith, h, read, now_held),
          )
        ]
      ]
  op_keeps (release' lock) now w held soon other here =
      let now_held = held now (omega arith) soon in
      (
        refl,
        λ t after before.
            let h = held t after before in
            let kept = released_other lock.token now t w.redis now_held other in
            ground (arith, kept, h),
      )
  op_keeps (extend' lock ttl) now w held soon other here =
      let now_held = held now (omega arith) soon in
      (
        refl,
        λ t after before.
            let h = held t after before in
            let kept =
              extended_other lock.token (or_ttl ttl lock.ttl_ms) now t w.redis now_held other in
            ground (arith, kept, h),
      )

  others_refused :
      (ops : List (Op × ℕ)) (first : ℕ) (w : World client cache)
      → IsHeld first w
      → ByOthers key owner first last ops
      → NoneAcquires client cache key ops w
  others_refused [] first w held others = tt
  others_refused ((op, now) ∷ more) first w held (other, (here, (after, (before, others)))) =
      let (refused, kept) = op_keeps op now w (λ t a. held t (omega arith)) before other here in
      (refused, others_refused more now _ kept others)

-- Mutual exclusion: once a process has acquired a key from Redis, no one else acquires it before the
-- lock's lifetime has passed, whatever others try, release or extend in between, and whether or not
-- the client is ready then. The others have tokens of their own, their times ascend, and the owner does
-- not release or extend in the meantime. The client keeps the documented laws
-- of Redis, which runs the lock's scripts as they are written.
pub mutual_exclusion :
    (client : Client) (cache : Cache) (laws : IsClient client) (key owner ttl_ms now : ℕ)
    (ops : List (Op × ℕ)) (w : World client cache)
    → client.ready w.redis ≡ true
    → (try_acquire client cache true key owner (ceil_seconds ttl_ms) now w).0 ≡ true
    → ByOthers key owner now (now + ttl_ms) ops
    → NoneAcquires client cache key ops
        (try_acquire client cache true key owner (ceil_seconds ttl_ms) now w).1
unfolding try_acquire
mutual_exclusion client cache laws key owner ttl_ms now ops w up got others =
    let ttl = ceil_seconds ttl_ms in
    let reply : (client.set_nx_ex key owner ttl now w.redis).0 ≡ some true =
      or_false-true _ (ground arith) in
    let (free, lives) = laws.set_ok key owner ttl now w.redis reply in
    others_refused client cache laws key owner (now + ttl_ms) ops now
      (try_acquire client cache true key owner ttl now w).1
      (λ t after before. let l = lives t after (omega (arith, before)) in ground (arith, l)) others
