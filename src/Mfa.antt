-- ===== src/Mfa.antt =====
-- packages/core/src/services/mfa.service.ts: the second factor, a TOTP code or a single-use backup
-- code, with a durable lock against guessing. The envelope encryption of a secret is a parameter, and
-- the audit calls are not modelled.
mod Model
pub mod Lockout
pub mod Backup
mod Tests
pub use Model.*
use pezhwan.Base.{
  ℕ, suc, ◌+◌, ◌*◌, ◌/◌, ◌≡◌, Bool, true, false, ◌&&◌, List, [], ◌∷◌, Option, none, some, ◌==◌, ltb,
  leb, if◌then◌else◌,
}
use pezhwan.Mongo.{Collection}
use pezhwan.Totp.{verify_totp}

module _ (users : Collection UserDoc) (codes : Collection BackupCode) (deps : Deps) where
  abbrev pub lock_of : ℕ → ℕ → Option UserDoc → World → Bool × World
  lock_of user now none w = (false, w)
  lock_of user now (some d) w =
      let until = time_of d.mfa_lock_until in
      if ltb 0 until && ltb now until
      then (true, w)
      else if ltb 0 until
      then (false, record w { users = users.update_one (by_id user) clear_failures w.users })
      else (false, w)

  pub mfa_locked : ℕ → ℕ → World → Bool × World
  mfa_locked user now w = lock_of user now (users.find_one (by_id user) w.users) w

  abbrev pub lock_if : Option UserDoc → ℕ → ℕ → List UserDoc → List UserDoc
  lock_if none user now l = l
  lock_if (some d) user now l =
      if leb max_attempts d.mfa_failed_attempts
      then users.update_one (by_id user) (λ x. record x { mfa_lock_until = some (now + lock_ms) }) l
      else l

  pub record_mfa_failure : ℕ → ℕ → World → World
  record_mfa_failure user now w =
      let (updated, l) =
        users.find_one_and_update (by_id user)
          (λ d. record d { mfa_failed_attempts = d.mfa_failed_attempts + 1 }) w.users in
      record w { users = lock_if updated user now l }

  pub reset_mfa_failures : ℕ → World → World
  reset_mfa_failures user w = record w {
    users =
        users.update_one (λ d. by_id user d && ltb 0 d.mfa_failed_attempts) clear_failures w.users;
  }

  abbrev pub touch_verified : ℕ → ℕ → World → World
  touch_verified user now w = record w {
    users =
        users.update_one (by_id user) (λ d. record d { mfa_secret_verified_at = some now }) w.users;
  }

  -- The loop over the unused codes of a user.
  pub try_rows : List BackupCode → List ℕ → ℕ → World → Bool × World
  try_rows [] code now w = (false, w)
  try_rows (row ∷ rows) code now w =
      let rest = try_rows rows code now w in
      if row.code_hash == deps.hash code
      then (
        true,
        record w {
          codes = codes.update_one (by_code row.id) (λ c. record c { used_at = some now }) w.codes;
        },
      )
      else rest

  pub try_backup_code : ℕ → List ℕ → ℕ → World → Bool × World
  unfolding try_rows
  try_backup_code user code now w = try_rows (codes.find (unused_of user) w.codes) code now w

  abbrev pub passed : ℕ → ℕ → World → Outcome × World
  passed user now w = (answered true, reset_mfa_failures user (touch_verified user now w))

  abbrev pub backup_used : ℕ → ℕ → Bool × World → Outcome × World
  backup_used user now (used, w) =
      if used then passed user now w else (answered false, record_mfa_failure user now w)

  abbrev pub totp_checked : ℕ → List ℕ → ℕ → Option Bool → World → Outcome × World
  totp_checked user code now none w = (range_error, w)
  totp_checked user code now (some right) w =
      if right then passed user now w else backup_used user now (try_backup_code user code now w)

  abbrev pub unwrapped : ℕ → List ℕ → ℕ → Option ℕ → World → Outcome × World
  unwrapped user code now none w = (invalid_mfa_secret, w)
  unwrapped user code now (some secret) w =
      totp_checked user code now (verify_totp deps.hmac code secret (now / 1000)) w

  abbrev pub secret_checked : ℕ → List ℕ → ℕ → Option ℕ → World → Outcome × World
  secret_checked user code now none w = (answered false, w)
  secret_checked user code now (some sealed) w = unwrapped user code now (deps.unwrap sealed) w

  abbrev pub user_checked : ℕ → List ℕ → ℕ → Option UserDoc → World → Outcome × World
  user_checked user code now none w = (answered false, w)
  user_checked user code now (some d) w =
      if d.mfa_enabled then secret_checked user code now d.mfa_secret w else (answered false, w)

  pub verify_mfa : ℕ → List ℕ → ℕ → World → Outcome × World
  verify_mfa user code now w =
      let (locked, w') = mfa_locked user now w in
      if locked
      then (answered false, w')
      else user_checked user code now (users.find_one (by_id user) w'.users) w'

  -- What `disable` does with the user it has found and read before the lock is looked at.
  pub turned_off : ℕ → ℕ → World → Outcome × World
  turned_off user now w =
      let w' = reset_mfa_failures user w in
      (
        answered true,
        record {
          users =
              users.update_one (by_id user)
                (λ d. record d {
                  mfa_enabled = false;
                  mfa_secret = none;
                  mfa_secret_verified_at = none;
                })
                w'.users;
          codes = codes.delete_many (λ c. c.user_id == user) w'.codes;
        },
      )

  abbrev pub disable_by_backup : ℕ → ℕ → Bool × World → Outcome × World
  disable_by_backup user now (used, w) =
      if used then turned_off user now w else (invalid_totp, record_mfa_failure user now w)

  abbrev pub disable_by : ℕ → List ℕ → ℕ → Option Bool → World → Outcome × World
  disable_by user code now none w = (range_error, w)
  disable_by user code now (some right) w =
      if right
      then turned_off user now w
      else disable_by_backup user now (try_backup_code user code now w)

  abbrev pub disable_unwrapped : ℕ → List ℕ → ℕ → Option ℕ → World → Outcome × World
  disable_unwrapped user code now none w = (invalid_mfa_secret, w)
  disable_unwrapped user code now (some secret) w =
      disable_by user code now (verify_totp deps.hmac code secret (now / 1000)) w

  abbrev pub disable_secret : ℕ → List ℕ → ℕ → Option ℕ → World → Outcome × World
  disable_secret user code now none w = disable_by_backup user now (try_backup_code user code now w)
  disable_secret user code now (some sealed) w =
      disable_unwrapped user code now (deps.unwrap sealed) w

  abbrev pub disable_enabled : ℕ → List ℕ → ℕ → Option ℕ → Bool × World → Outcome × World
  disable_enabled user code now secret (locked, w) =
      if locked then (invalid_totp, w) else disable_secret user code now secret w

  abbrev pub disable_found : ℕ → List ℕ → ℕ → Option UserDoc → World → Outcome × World
  disable_found user code now none w = (mfa_not_enabled, w)
  disable_found user code now (some d) w =
      if d.mfa_enabled
      then disable_enabled user code now d.mfa_secret (mfa_locked user now w)
      else (mfa_not_enabled, w)

  pub disable : ℕ → List ℕ → ℕ → World → Outcome × World
  disable user code now w = disable_found user code now (users.find_one (by_id user) w.users) w

  abbrev pub enable_by : ℕ → ℕ → Option Bool → World → Outcome × World
  enable_by user now none w = (range_error, w)
  enable_by user now (some right) w =
      if right
      then (
        answered true,
        record w {
          users =
              users.update_one (by_id user)
                (λ d. record d { mfa_enabled = true; mfa_secret_verified_at = some now }) w.users;
        },
      )
      else (invalid_totp, w)

  abbrev pub enable_unwrapped : ℕ → List ℕ → ℕ → Option ℕ → World → Outcome × World
  enable_unwrapped user code now none w = (invalid_mfa_secret, w)
  enable_unwrapped user code now (some secret) w =
      enable_by user now (verify_totp deps.hmac code secret (now / 1000)) w

  abbrev pub enable_pending : ℕ → List ℕ → ℕ → Bool → Option ℕ → World → Outcome × World
  enable_pending user code now enabled none w = (mfa_setup_required, w)
  enable_pending user code now enabled (some sealed) w =
      if enabled
      then (mfa_already_enabled, w)
      else enable_unwrapped user code now (deps.unwrap sealed) w

  abbrev pub enable_found : ℕ → List ℕ → ℕ → Option UserDoc → World → Outcome × World
  enable_found user code now none w = (mfa_setup_required, w)
  enable_found user code now (some d) w = enable_pending user code now d.mfa_enabled d.mfa_secret w

  pub enable : ℕ → List ℕ → ℕ → World → Outcome × World
  enable user code now w = enable_found user code now (users.find_one (by_id user) w.users) w

  -- `insertMany` of the new batch; each code comes with the id of its document.
  pub insert_codes : ℕ → List (ℕ × List ℕ) → List BackupCode → List BackupCode
  insert_codes user [] l = l
  insert_codes user ((id, code) ∷ more) l = insert_codes user more (
      codes.create
        (record {
          id = id;
          user_id = user;
          tenant_id = deps.tenant_id;
          code_hash = deps.hash code;
          used_at = none;
        })
        l)

  abbrev pub setup_found : ℕ → ℕ → List (ℕ × List ℕ) → Option UserDoc → World → Outcome × World
  setup_found user secret batch none w = (user_not_found, w)
  setup_found user secret batch (some d) w = if d.mfa_enabled then (mfa_already_enabled, w) else (
    answered true,
    record {
      users =
          users.update_one (by_id user)
            (λ x. record x { mfa_secret = some (deps.wrap secret); mfa_secret_verified_at = none })
            w.users;
      codes =
          insert_codes user batch
            (codes.delete_many (λ c. c.user_id == user && c.tenant_id == deps.tenant_id) w.codes);
    },
  )

  -- `secret` and `batch` are what the call draws, and hands back with the provisioning URI.
  pub begin_setup : ℕ → (secret : ℕ) → (batch : List (ℕ × List ℕ)) → World → Outcome × World
  begin_setup user secret batch w =
      setup_found user secret batch (users.find_one (by_id user) w.users) w

  pub remaining_backup_codes : ℕ → World → ℕ
  remaining_backup_codes user w = codes.count_documents (unused_of user) w.codes

  abbrev pub enabled_of : Option UserDoc → Bool
  enabled_of none = false
  enabled_of (some d) = d.mfa_enabled

  unfoldable pub is_enabled : ℕ → World → Bool
  is_enabled user w = enabled_of (users.find_one (by_id user) w.users)
