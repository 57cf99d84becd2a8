-- ===== src/Mfa/Backup.antt =====
-- The backup codes of packages/core/src/services/mfa.service.ts.
use pezhwan.Base.{
  ℕ, ◌+◌, ◌≤◌, ◌≡◌, inl, inr, refl, Bool, true, false, ◌&&◌, List, [], ◌∷◌, none, some, ◌==◌, arith,
  find, filter, count, update_first, count-update_first, find-passes, find_unique,
  find-none_of_count, Option-cases, Bool-cases, ==_refl,
}
use pezhwan.Mongo.{Collection, IsCollection, list_collection, list_collection_unique}
use pezhwan.Mfa.{
  UserDoc, BackupCode, World, Deps, by_code, unused_of, try_rows, try_backup_code,
  remaining_backup_codes,
}

-- The unused codes of a user that have the hash of a code.
abbrev pub usable : Deps → ℕ → List ℕ → BackupCode → Bool
usable deps user code c = unused_of user c && (c.code_hash == deps.hash code)

module _ (deps : Deps) (user : ℕ) where
  abbrev try : List ℕ → ℕ → World → Bool × World
  try = try_backup_code list_collection list_collection deps user

  try_rows-found :
      (l : List BackupCode) (code : List ℕ) (now : ℕ) (w : World)
      → try_rows list_collection list_collection deps (filter (unused_of user) l) code now w
        ≡ (elim (find (usable deps user code) l) [
          | none ↦ (false, w)
          | some row ↦ (
            true,
            record w {
              codes = update_first (by_code row.id) (λ c. record c { used_at = some now }) w.codes;
            },
          )
        ])
  unfolding try_rows
  try_rows-found [] code now w = refl
  try_rows-found (row ∷ l) code now w =
      let rest = try_rows-found l code now w in
      elim (Bool-cases (unused_of user row)) [
        | inl free ↦ elim (Bool-cases (row.code_hash == deps.hash code)) [
          | inl hit ↦ ground arith
          | inr miss ↦ ground (arith, rest)
        ]
        | inr taken ↦ ground (arith, rest)
      ]

  none-usable :
      (code : List ℕ) (now : ℕ) (w : World)
      → find (usable deps user code) w.codes ≡ none
      → (try code now w).0 ≡ false
  unfolding try_backup_code
  none-usable code now w out = ground (arith, try_rows-found w.codes code now w)

  used_row :
      (code : List ℕ) (now : ℕ) (w : World)
      → (try code now w).0 ≡ true
      → (row : BackupCode) × ((find (usable deps user code) w.codes ≡ some row)
          × ((try code now w).1.codes
              ≡ update_first (by_code row.id) (λ c. record c { used_at = some now }) w.codes))
  unfolding try_backup_code
  used_row code now w used =
      let whole = try_rows-found w.codes code now w in
      elim (Option-cases (find (usable deps user code) w.codes)) [
        | inl out ↦ ground (arith, whole)
        | inr (row, e) ↦ (row, (e, ground (arith, whole)))
      ]

  spent_list :
      (code : List ℕ) (now : ℕ) (w : World)
      → ((i : ℕ) → count (by_code i) w.codes ≤ 1)
      → (try code now w).0 ≡ true
      → (count (usable deps user code) (try code now w).1.codes + 1
          ≡ count (usable deps user code) w.codes)
        × (count (unused_of user) (try code now w).1.codes + 1 ≡ count (unused_of user) w.codes)
  spent_list code now w ids used =
      let (row, (e, same)) = used_row code now w used in
      let f : BackupCode → BackupCode = λ c. record c { used_at = some now } in
      let q = usable deps user code in
      let passes = find-passes q w.codes {x = row} e in
      let at = find_unique q (by_code row.id) w.codes {x = row} e (==_refl row.id) (ids row.id) in
      let moved = count-update_first q (by_code row.id) f w.codes {x = row} at in
      let moved' = count-update_first (unused_of user) (by_code row.id) f w.codes {x = row} at in
      rw same (ground (arith, passes, moved), ground (arith, passes, moved'))

-- A backup code is used once: a code that is accepted uses up one of the user's codes, and is refused
-- from then on where the user had one unused code of its hash. Document ids are distinct.
backup_used_once :
    (users : Collection UserDoc) (codes : Collection BackupCode) (rules : IsCollection users)
    (rules' : IsCollection codes) (deps : Deps) (user now t : ℕ) (code : List ℕ) (w : World)
    → ((i : ℕ) → count (by_code i) w.codes ≤ 1)
    → count (usable deps user code) w.codes ≤ 1
    → (try_backup_code users codes deps user code now w).0 ≡ true
    → let w' = (try_backup_code users codes deps user code now w).1 in
      (remaining_backup_codes users codes deps user w' + 1
        ≡ remaining_backup_codes users codes deps user w)
      × ((try_backup_code users codes deps user code t w').0 ≡ false)
unfolding remaining_backup_codes
backup_used_once users codes rules rules' deps user now t code w ids one used =
    let used' : (try_backup_code list_collection list_collection deps user code now w).0 ≡ true =
      rw (list_collection_unique users rules, list_collection_unique codes rules') used in
    let (spent, left) = spent_list deps user code now w ids used' in
    let w' = (try_backup_code list_collection list_collection deps user code now w).1 in
    let out = find-none_of_count (usable deps user code) w'.codes (omega (arith, spent, one)) in
    rw (← list_collection_unique users rules, ← list_collection_unique codes rules')
      (left, none-usable deps user code t w' out)
