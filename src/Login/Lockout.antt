-- ===== src/Login/Lockout.antt =====
-- The lock of an account after failed logins by password.
use pezhwan.Base.{
  ℕ, ◌+◌, ◌≤◌, ◌<◌, ◌≡◌, ◌⊎◌, inl, inr, refl, sym, ap, subst, Bool, true, false, List, [], ◌∷◌,
  Option, none, some, leb, if◌then◌else◌, arith, find, count, find-update_first_unique,
  count-update_first_same, Bool-cases, ==_refl, lt→ltb,
}
use pezhwan.Mongo.{IsCollection, list_collection, list_collection_unique}
use pezhwan.Login.{
  UserDoc, invalid_credentials, account_locked, Engine, Stores, World, Attempt, find_user,
  lookup_query, login_password, record_failed_login, own_document, is_locked_at, retry_after,
  login_lock_ms, lock_at,
}

-- The store of the accounts is the list of its documents; the others are as they are.
abbrev pub with_list : Stores → Stores
with_list stores = record stores { users = list_collection }

lookup_kept :
    (tenant : ℕ) (email phone : Option ℕ) (d : UserDoc) (n : ℕ) (l : Option ℕ)
    → lookup_query tenant none email phone
        (record d { failed_login_attempts = n; login_lock_until = l })
      ≡ lookup_query tenant none email phone d
lookup_kept tenant none none d n l = refl
lookup_kept tenant none (some phone) d n l = refl
lookup_kept tenant (some email) phone d n l = refl

module _ (stores : Stores) (engine : Engine) (email phone : Option ℕ) where
  -- Logins in the order given, each with a password.
  abbrev pub run : List (ℕ × Attempt) → World engine → World engine
  run [] w = w
  run ((given, a) ∷ more) w = run more (login_password stores engine email phone given a w).1

module _ (stores : Stores) (engine : Engine) (email phone : Option ℕ) where
  abbrev pub own : UserDoc → Bool
  own d = lookup_query engine.tenant_id none email phone d

  -- The handles find one document, whose id is its own in the tenant.
  abbrev pub Finds : UserDoc → World engine → Type 0
  Finds user w =
      (find own w.users ≡ some user) × (count (own_document stores engine user) w.users ≤ 1)

  abbrev pub TenantMatches : UserDoc → Type 0
  TenantMatches user = user.tenant_id ≡ engine.tenant_id

  wrong_list :
      (given hash : ℕ) (a : Attempt) (w : World engine) (user : UserDoc)
      → find own w.users ≡ some user
      → is_locked_at a.fresh.now user.login_lock_until ≡ false
      → user.password_hash ≡ some hash
      → engine.is_argon2_hash hash ≡ true
      → engine.verify_password given hash ≡ false
      → login_password (with_list stores) engine email phone given a w
        ≡ (invalid_credentials, record_failed_login (with_list stores) engine user a.fresh.now w)
  unfolding login_password find_user
  wrong_list given hash a w user e unlocked has argon2 wrong = ground arith

  recorded_list :
      (now : ℕ) (w : World engine) (user : UserDoc)
      → Finds user w
      → TenantMatches user
      → find own (record_failed_login (with_list stores) engine user now w).users
        ≡ some (record user {
          failed_login_attempts = user.failed_login_attempts + 1;
          login_lock_until = lock_at stores engine (user.failed_login_attempts + 1) now;
        })
  unfolding record_failed_login
  recorded_list now w user (e, one) same =
      let next = user.failed_login_attempts + 1 in
      find-update_first_unique (own_document stores engine user) own
        (λ d. record d {
          failed_login_attempts = next;
          login_lock_until = lock_at stores engine next now;
        })
        w.users {x = user}
        (λ d. lookup_kept engine.tenant_id email phone d next (lock_at stores engine next now)) e
        (ground (arith, ==_refl user.id, ==_refl user.tenant_id)) one

  locked_list :
      (given : ℕ) (a : Attempt) (w : World engine) (user : UserDoc)
      → find own w.users ≡ some user
      → is_locked_at a.fresh.now user.login_lock_until ≡ true
      → login_password (with_list stores) engine email phone given a w
        ≡ (account_locked (retry_after a.fresh.now user.login_lock_until), w)
  unfolding login_password find_user
  locked_list given a w user e locked = ground arith

  recorded_single :
      (now : ℕ) (w : World engine) (user : UserDoc) (next : UserDoc)
      → Finds user w
      → next.id ≡ user.id
      → count
          (own_document stores engine next)
          (record_failed_login (with_list stores) engine user now w).users
        ≤ 1
  unfolding record_failed_login
  recorded_single now w user next (e, one) same =
      let n = user.failed_login_attempts + 1 in
      let kept =
        count-update_first_same (own_document stores engine user) (own_document stores engine user)
          (λ d. record d {
            failed_login_attempts = n;
            login_lock_until = lock_at stores engine n now;
          })
          w.users (λ d. refl) in
      rw same (omega (arith, kept, one))

  -- The account that the handles find is open after some failures, with a hash to check; or locked.
  abbrev pub IsOpen : ℕ → ℕ → World engine → Type 0
  IsOpen failures hash w =
      (user : UserDoc) × (Finds user w
        × (TenantMatches user
            × ((user.failed_login_attempts ≡ failures)
                × ((user.login_lock_until ≡ none) × (user.password_hash ≡ some hash)))))

  abbrev pub IsLocked : ℕ → World engine → Type 0
  IsLocked until w =
      (user : UserDoc) × ((find own w.users ≡ some user) × (user.login_lock_until ≡ some until))

  -- Each password is wrong for the hash, and the times lie in an interval and ascend.
  abbrev pub WrongWithin : ℕ → ℕ → ℕ → List (ℕ × Attempt) → Type 0
  WrongWithin hash first last [] = Unit
  WrongWithin hash first last ((given, a) ∷ more) =
      (engine.verify_password given hash ≡ false)
      × ((first ≤ a.fresh.now) × ((a.fresh.now < last) × WrongWithin hash a.fresh.now last more))

  refused_locked :
      (given until : ℕ) (a : Attempt) (w : World engine)
      → IsLocked until w
      → a.fresh.now < until
      → (login_password (with_list stores) engine email phone given a w).1 ≡ w
  refused_locked given until a w (user, (e, l)) soon =
      ap (λ r. r.1) (locked_list given a w user e (rw l (lt→ltb a.fresh.now until soon)))

  IsLocked-run :
      (more : List (ℕ × Attempt)) (hash first last until : ℕ) (w : World engine)
      → IsLocked until w
      → WrongWithin hash first last more
      → last ≤ until
      → IsLocked until (run (with_list stores) engine email phone more w)
  IsLocked-run [] hash first last until w locked order le = locked
  IsLocked-run ((given, a) ∷ more) hash first last until w locked (bad, (after, (before, order)))
        le =
      subst (λ v. IsLocked until (run (with_list stores) engine email phone more v))
        (sym (refused_locked given until a w locked (omega arith)))
        (IsLocked-run more hash a.fresh.now last until w locked order le)

  failure_step :
      (k given hash : ℕ) (a : Attempt) (w : World engine)
      → IsOpen k hash w
      → engine.is_argon2_hash hash ≡ true
      → engine.verify_password given hash ≡ false
      → let w' = (login_password (with_list stores) engine email phone given a w).1 in
        ((k + 1 < 5) × IsOpen (k + 1) hash w')
        ⊎ ((5 ≤ k + 1) × IsLocked (a.fresh.now + login_lock_ms) w')
  failure_step k given hash a w (user, ((e, one), (same, (c, (l, has))))) argon2 bad =
      let now = a.fresh.now in
      let whole = wrong_list given hash a w user e (rw l refl) has argon2 bad in
      let next : UserDoc = record user {
        failed_login_attempts = user.failed_login_attempts + 1;
        login_lock_until = lock_at stores engine (user.failed_login_attempts + 1) now;
      } in
      let found = recorded_list now w user (e, one) same in
      let single = recorded_single now w user next (e, one) refl in
      rw whole (elim (Bool-cases (leb 5 (user.failed_login_attempts + 1))) [
        | inl full ↦ inr (ground arith, (next, (found, ground arith)))
        | inr room ↦ inl (
          ground arith,
          (next, ((found, single), (same, (ap (λ n. n + 1) c, (ground arith, has))))),
        )
      ])

  -- When the lock ends: fifteen minutes after the failure that makes five.
  abbrev pub lock_end : ℕ → List (ℕ × Attempt) → ℕ
  lock_end k [] = 0
  lock_end k ((given, a) ∷ more) =
      if leb 5 (k + 1) then a.fresh.now + login_lock_ms else lock_end (k + 1) more

  wrong_run :
      (more : List (ℕ × Attempt)) (k hash first last : ℕ) (w : World engine)
      → IsOpen k hash w
      → engine.is_argon2_hash hash ≡ true
      → WrongWithin hash first last more
      → last ≤ lock_end k more
      → 0 < last
      → IsLocked (lock_end k more) (run (with_list stores) engine email phone more w)
  wrong_run [] k hash first last w is_open argon2 order le some_made =
      absurd (omega (arith, le, some_made))
  wrong_run ((given, a) ∷ more) k hash first last w is_open argon2 (bad, (after, (before, order)))
        le some_made =
      let w' = (login_password (with_list stores) engine email phone given a w).1 in
      elim (failure_step k given hash a w is_open argon2 bad) [
        | inl (room, open') ↦
            let open_still : leb 5 (k + 1) ≡ false = ground arith in
            rw open_still (
              wrong_run more (k + 1) hash a.fresh.now last w' open' argon2 order
                (rw open_still at le) some_made)
        | inr (full, locked) ↦
            let shut : leb 5 (k + 1) ≡ true = ground arith in
            rw shut (
              IsLocked-run more hash a.fresh.now last (a.fresh.now + login_lock_ms) w' locked order
                (rw shut at le))
      ]

  five_list :
      (more : List (ℕ × Attempt)) (k hash first given : ℕ) (a : Attempt) (w : World engine)
      → IsOpen k hash w
      → engine.is_argon2_hash hash ≡ true
      → WrongWithin hash first (lock_end k more) more
      → a.fresh.now < lock_end k more
      → (retry : ℕ) × (login_password
            (with_list stores)
            engine
            email
            phone
            given
            a
            (run (with_list stores) engine email phone more w)
          ≡ (account_locked retry, run (with_list stores) engine email phone more w))
  five_list more k hash first given a w is_open argon2 order soon =
      let (user, (e, l)) =
        wrong_run more k hash first (lock_end k more) w is_open argon2 order (omega arith)
          (omega (arith, soon)) in
      (
        retry_after a.fresh.now user.login_lock_until,
        locked_list given a (run (with_list stores) engine email phone more w) user e
            (rw l (lt→ltb a.fresh.now (lock_end k more) soon)),
      )

with_list_unique : (stores : Stores) → IsCollection stores.users → with_list stores ≡ stores
with_list_unique stores rules i = record stores {
  users = list_collection_unique stores.users rules i;
}

-- Guessing a password is bounded: from an account with some failures on record and no lock, once
-- wrong passwords make five, every login is refused until fifteen minutes after the failure that makes
-- five, with the right password too, and changes nothing. The wrong passwords come at ascending times
-- before that end, those after the fifth failure included, and the handles find one document, whose id
-- is its own in the tenant.
pub five_wrong_passwords_lock :
    (stores : Stores) (engine : Engine) (email phone : Option ℕ) (rules : IsCollection stores.users)
    (more : List (ℕ × Attempt)) (k hash first given : ℕ) (a : Attempt) (w : World engine)
    → IsOpen stores engine email phone k hash w
    → engine.is_argon2_hash hash ≡ true
    → WrongWithin stores engine email phone hash first
        (lock_end stores engine email phone k more)
        more
    → a.fresh.now < lock_end stores engine email phone k more
    → (retry : ℕ) × (login_password stores engine email phone given a
          (run stores engine email phone more w)
        ≡ (account_locked retry, run stores engine email phone more w))
five_wrong_passwords_lock stores engine email phone rules more k hash first given a w is_open argon2
      order soon =
    subst
      (λ s.
        (retry : ℕ) × (login_password s engine email phone given a (run s engine email phone more w)
          ≡ (account_locked retry, run s engine email phone more w)))
      (with_list_unique stores rules)
      (five_list stores engine email phone more k hash first given a w is_open argon2 order soon)
