-- ===== src/Mfa/Lockout.antt =====
-- The lock of packages/core/src/services/mfa.service.ts after failed challenges.
use pezhwan.Base.{
  ℕ, ◌+◌, ◌≤◌, ◌<◌, ◌≡◌, ◌⊎◌, inl, inr, refl, sym, ap, subst, true, false, List, [], ◌∷◌, none,
  some, leb, if◌then◌else◌, arith, find, filter, count, update_first, find-update_first_unique,
  find-passes, count-update_first_same, Bool-cases,
}
use pezhwan.Mongo.{Collection, IsCollection, list_collection, list_collection_unique}
use pezhwan.Mfa.{
  UserDoc, BackupCode, World, Deps, Outcome, answered, lock_ms, by_id, mfa_locked,
  record_mfa_failure, try_rows, try_backup_code, verify_mfa, unused_of,
}

abbrev pub Single : ℕ → World → Type 0
Single user w = count (by_id user) w.users ≤ 1

-- The account has the second factor on, no lock, and this many failures.
abbrev pub IsOpen : Deps → ℕ → ℕ → World → Type 0
IsOpen deps user failures w =
    (d : UserDoc) × ((find (by_id user) w.users ≡ some d)
      × ((d.mfa_failed_attempts ≡ failures)
          × ((d.mfa_lock_until ≡ none)
              × ((d.mfa_enabled ≡ true) × ((sealed : ℕ) × (d.mfa_secret ≡ some sealed))))))

abbrev pub IsLocked : ℕ → ℕ → World → Type 0
IsLocked user until w =
    (d : UserDoc) × ((find (by_id user) w.users ≡ some d) × (d.mfa_lock_until ≡ some until))

module _ (users : Collection UserDoc) (codes : Collection BackupCode) (deps : Deps) (user : ℕ) where
  -- Challenges in the order given, each a code and its time.
  abbrev pub run : List (List ℕ × ℕ) → World → World
  run [] w = w
  run ((code, now) ∷ more) w = run more (verify_mfa users codes deps user code now w).1

  -- Every challenge is counted as a failure.
  abbrev pub AllFail : List (List ℕ × ℕ) → World → Type 0
  AllFail [] w = Unit
  AllFail ((code, now) ∷ more) w =
      ((verify_mfa users codes deps user code now w).0 ≡ answered false)
      × AllFail more (verify_mfa users codes deps user code now w).1

-- When the lock ends: fifteen minutes after the failure that makes five.
abbrev pub lock_end : ℕ → List (List ℕ × ℕ) → ℕ
lock_end k [] = 0
lock_end k ((code, now) ∷ more) = if leb 5 (k + 1) then now + lock_ms else lock_end (k + 1) more

-- The times lie in an interval and ascend.
abbrev pub Ascending : ℕ → ℕ → List (List ℕ × ℕ) → Type 0
Ascending first last [] = Unit
Ascending first last ((code, now) ∷ more) = (first ≤ now) × ((now < last) × Ascending now last more)

module _ (deps : Deps) (user : ℕ) where
  abbrev verify : List ℕ → ℕ → World → Outcome × World
  verify = verify_mfa list_collection list_collection deps user

  locked_list :
      (code : List ℕ) (now until : ℕ) (w : World)
      → IsLocked user until w
      → now < until
      → verify code now w ≡ (answered false, w)
  unfolding verify_mfa mfa_locked
  locked_list code now until w (d, (e, l)) before = ground arith

  try_rows-miss :
      (rows : List BackupCode) (code : List ℕ) (now : ℕ) (w : World)
      → (try_rows list_collection list_collection deps rows code now w).0 ≡ false
      → (try_rows list_collection list_collection deps rows code now w).1 ≡ w
  unfolding try_rows
  try_rows-miss [] code now w e = refl
  try_rows-miss (row ∷ rows) code now w e = let rest = try_rows-miss rows code now w in ground arith

  failure_counts :
      (k now : ℕ) (w : World)
      → Single user w
      → IsOpen deps user k w
      → let w' = record_mfa_failure list_collection list_collection deps user now w in
        Single user w'
        × (((k + 1 < 5) × IsOpen deps user (k + 1) w')
            ⊎ ((5 ≤ k + 1) × IsLocked user (now + lock_ms) w'))
  unfolding record_mfa_failure
  failure_counts k now w one (d, (e, (c, (l, (on, (sealed, has)))))) =
      let bump : UserDoc → UserDoc =
        λ x. record x { mfa_failed_attempts = x.mfa_failed_attempts + 1 } in
      let lock : UserDoc → UserDoc = λ x. record x { mfa_lock_until = some (now + lock_ms) } in
      let l1 = update_first (by_id user) bump w.users in
      let f1 =
        find-update_first_unique (by_id user) (by_id user) bump w.users {x = d} (λ a. refl) e
          (find-passes (by_id user) w.users {x = d} e) one in
      let c1 = count-update_first_same (by_id user) (by_id user) bump w.users (λ a. refl) in
      let f2 =
        find-update_first_unique (by_id user) (by_id user) lock l1 {x = bump d} (λ a. refl) f1
          (find-passes (by_id user) l1 {x = bump d} f1) (omega (arith, c1, one)) in
      let c2 = count-update_first_same (by_id user) (by_id user) lock l1 (λ a. refl) in
      elim (Bool-cases (leb 5 (d.mfa_failed_attempts + 1))) [
        | inl full ↦ (
          ground (arith, c1, c2),
          inr (ground arith, (lock (bump d), (ground (arith, f2), refl))),
        )
        | inr room ↦ (
          ground (arith, c1),
          inl (
            ground arith,
            (bump d, (ground (arith, f1), (ap (λ n. n + 1) c, (l, (on, (sealed, has)))))),
          ),
        )
      ]

  fail_step :
      (code : List ℕ) (k now : ℕ) (w : World)
      → IsOpen deps user k w
      → (verify code now w).0 ≡ answered false
      → (verify code now w).1 ≡ record_mfa_failure list_collection list_collection deps user now w
  unfolding verify_mfa mfa_locked try_backup_code
  fail_step code k now w (d, (e, (c, (l, (on, (sealed, has)))))) said =
      let missed = try_rows-miss (filter (unused_of user) w.codes) code now w in
      ground (arith, missed)

  IsLocked-run :
      (more : List (List ℕ × ℕ)) (first last until : ℕ) (w : World)
      → IsLocked user until w
      → Ascending first last more
      → last ≤ until
      → IsLocked user until (run list_collection list_collection deps user more w)
  IsLocked-run [] first last until w locked order le = locked
  IsLocked-run ((code, now) ∷ more) first last until w locked (after, (before, order)) le =
      let same = locked_list code now until w locked (omega arith) in
      subst (λ v. IsLocked user until (run list_collection list_collection deps user more v))
        (ap (λ r. r.1) (sym same)) (IsLocked-run more now last until w locked order le)

  guesses_list :
      (more : List (List ℕ × ℕ)) (k first last : ℕ) (w : World)
      → Single user w
      → IsOpen deps user k w
      → AllFail list_collection list_collection deps user more w
      → Ascending first last more
      → last ≤ lock_end k more
      → 0 < last
      → IsLocked user (lock_end k more) (run list_collection list_collection deps user more w)
  guesses_list [] k first last w one is_open fails order le some_made =
      absurd (omega (arith, le, some_made))
  guesses_list ((code, now) ∷ more) k first last w one is_open (fail, fails)
        (after, (before, order)) le some_made =
      let w' = (verify code now w).1 in
      let step = fail_step code k now w is_open fail in
      let (one', next) = failure_counts k now w one is_open in
      elim next [
        | inl (room, open') ↦
            let open_still : leb 5 (k + 1) ≡ false = ground arith in
            rw open_still (
              guesses_list more (k + 1) now last w' (rw step one') (rw step open') fails order
                (rw open_still at le) some_made)
        | inr (full, locked) ↦
            let shut : leb 5 (k + 1) ≡ true = ground arith in
            rw shut
              (IsLocked-run more now last (now + lock_ms) w' (rw step locked) order (rw shut at le))
      ]

-- Guessing is bounded: from an account with `failures` on record, once enough challenges have failed
-- to make five, no code at all is accepted, a right one included, until fifteen minutes after the
-- failure that makes five, and the challenge changes nothing. The failed challenges come at ascending
-- times before that end, those after the fifth failure included, the account has the second factor on
-- and no lock at the start, and ids are distinct.
pub five_failures_lock :
    (users : Collection UserDoc) (codes : Collection BackupCode) (rules : IsCollection users)
    (rules' : IsCollection codes) (deps : Deps) (user failures first t : ℕ)
    (more : List (List ℕ × ℕ)) (code : List ℕ) (w : World)
    → Single user w
    → IsOpen deps user failures w
    → AllFail users codes deps user more w
    → Ascending first (lock_end failures more) more
    → t < lock_end failures more
    → let w' = run users codes deps user more w in
      verify_mfa users codes deps user code t w' ≡ (answered false, w')
five_failures_lock users codes rules rules' deps user failures first t more code w one is_open fails
      order soon =
    let fails' : AllFail list_collection list_collection deps user more w =
      rw (list_collection_unique users rules, list_collection_unique codes rules') fails in
    let w' = run list_collection list_collection deps user more w in
    let locked =
      guesses_list deps user more failures first (lock_end failures more) w one is_open fails' order
        (omega arith) (omega (arith, soon)) in
    subst
      (λ u.
        verify_mfa u codes deps user code t (run u codes deps user more w)
        ≡ (answered false, run u codes deps user more w))
      (list_collection_unique users rules)
      (subst
        (λ c.
          verify_mfa list_collection c deps user code t (run list_collection c deps user more w)
          ≡ (answered false, run list_collection c deps user more w))
        (list_collection_unique codes rules')
        (locked_list deps user code t (lock_end failures more) w' locked soon))
