-- ===== src/Login.antt =====
-- The logins of packages/core/src/auth/auth.engine.ts: by password, by one-time code, and the second
-- factor, over the services that they call. A user's document is read here in its fields for the login,
-- and in Mfa and Authorization in theirs. Failures of the store, a custom look-up of users, and the
-- signature of the access token, here the claims that are signed, are not modelled.
mod Model
pub mod Lockout
pub mod Gates
pub mod Tests
pub use Model.*
use pezhwan.Base.{
  ℕ, ◌+◌, ◌-◌, ◌≡◌, Bool, true, false, ◌&&◌, List, Option, none, some, ◌==◌, ltb, leb,
  if◌then◌else◌,
}
use pezhwan.Authorization
use pezhwan.Authorization.{IdentityContext}
use pezhwan.Cache.{Cache}
use pezhwan.Mfa
use pezhwan.Mongo.{Collection}
use pezhwan.Otp
use pezhwan.Session
use pezhwan.Session.{SessionDoc, CreatedSession}

module _ (stores : Stores) (engine : Engine) where
  pub find_user : Lookup → World engine → Option UserDoc
  find_user q w =
      stores.users.find_one (lookup_query engine.tenant_id q.user_id q.email q.phone) w.users

  abbrev pub context_of : UserDoc → Attempt → Session.SessionContext
  context_of user a = record {
    user_id = user.id;
    tenant_id = engine.tenant_id;
    application_id = a.application_id;
    ip = a.ip;
    user_agent = a.user_agent;
    device_label = a.device_label;
  }

  unfoldable pub mint_tokens :
      UserDoc → CreatedSession → Attempt → AuthMethod → World engine → Tokens
  mint_tokens user session a method w = record {
    access_token = record {
      identity =
          Authorization.build_identity_context stores.authorization engine.cache
            (record {
              user_id = user.id;
              tenant_id = engine.tenant_id;
              application_id = a.application_id;
            })
            session.session_id (method_number method) a.fresh.now w.authorization;
      token_version = user.token_version;
    };
    refresh_token = session.refresh_token;
    session = session;
  }

  pub complete_login : UserDoc → AuthMethod → Attempt → World engine → LoginResult × World engine
  complete_login user method a w =
      let (session, s) =
        Session.create stores.sessions engine.sessions (context_of user a) a.fresh w.sessions in
      let w' : World engine = record w { sessions = s } in
      (logged_in user.id (mint_tokens user session a method w'), w')

  abbrev pub own_document : UserDoc → UserDoc → Bool
  own_document user d = d.id == user.id && d.tenant_id == engine.tenant_id

  abbrev pub lock_at : ℕ → ℕ → Option ℕ
  lock_at next now = if leb max_failed_logins next then some (now + login_lock_ms) else none

  -- The count is that of the document as it was read at the start of the login.
  pub record_failed_login : UserDoc → ℕ → World engine → World engine
  record_failed_login user now w =
      let next = user.failed_login_attempts + 1 in
      record w {
        users =
            stores.users.update_one (own_document user)
              (λ d. record d { failed_login_attempts = next; login_lock_until = lock_at next now })
              w.users;
      }

  pub clear_failed_login : UserDoc → World engine → World engine
  clear_failed_login user w = record w {
    users =
        stores.users.update_one (own_document user)
          (λ d. record d { failed_login_attempts = 0; login_lock_until = none }) w.users;
  }

  abbrev pub has_second_factor : UserDoc → World engine → Bool
  has_second_factor user w =
      engine.has_mfa && Mfa.is_enabled stores.mfa_users stores.backup_codes engine.mfa user.id w.mfa

  pub gated : UserDoc → AuthMethod → Attempt → World engine → LoginResult × World engine
  gated user method a w =
      if has_second_factor user w then (mfa_required user.id, w) else complete_login user method a w

  abbrev pub checked_password : UserDoc → Bool → Attempt → World engine → LoginResult × World engine
  checked_password user right a w =
      if right
      then if user.is_active
        then gated user password a (clear_failed_login user w)
        else (account_disabled, w)
      else (invalid_credentials, record_failed_login user a.fresh.now w)

  abbrev pub hash_checked :
      UserDoc → Option ℕ → ℕ → Attempt → World engine → LoginResult × World engine
  hash_checked user none given a w = (invalid_credentials, w)
  hash_checked user (some hash) given a w =
      if engine.is_argon2_hash hash
      then checked_password user (engine.verify_password given hash) a w
      else (invalid_credentials, w)

  abbrev pub found_by_password :
      Option UserDoc → ℕ → Attempt → World engine → LoginResult × World engine
  found_by_password none given a w = (invalid_credentials, w)
  found_by_password (some user) given a w =
      if is_locked_at a.fresh.now user.login_lock_until
      then (account_locked (retry_after a.fresh.now user.login_lock_until), w)
      else hash_checked user user.password_hash given a w

  pub login_password :
      (email phone : Option ℕ) → (given : ℕ) → Attempt → World engine → LoginResult × World engine
  login_password email phone given a w =
      found_by_password (find_user (record { user_id = none; email = email; phone = phone }) w)
        given a w

  abbrev pub found_by_code : Option UserDoc → Attempt → World engine → LoginResult × World engine
  found_by_code none a w = (invalid_otp, w)
  found_by_code (some user) a w =
      if user.is_active then gated user email_otp a w else (account_disabled, w)

  abbrev pub is_verified : Otp.VerifyResult → Bool
  is_verified Otp.verified = true
  is_verified _ = false

  -- The purpose `login` is a number of the application's.
  pub login_otp :
      Otp.Request
      → (email phone : Option ℕ) → (code : ℕ) → Attempt
      → World engine
      → LoginResult × World engine
  login_otp r email phone code a w =
      let (answer, o) = Otp.verify_otp stores.otps engine.otp r code a.fresh.now w.otp in
      let w' : World engine = record w { otp = o } in
      if is_verified answer
      then found_by_code (find_user (record { user_id = none; email = email; phone = phone }) w') a
          w'
      else (invalid_otp, w')

  abbrev pub found_after_mfa : Option UserDoc → Attempt → World engine → LoginResult × World engine
  found_after_mfa none a w = (user_not_found, w)
  found_after_mfa (some user) a w = complete_login user mfa_totp a w

  abbrev pub after_challenge : ℕ → Attempt → Mfa.Outcome → World engine → LoginResult × World engine
  after_challenge user a (Mfa.answered right) w =
      if right
      then found_after_mfa
          (find_user (record { user_id = some user; email = none; phone = none }) w) a w
      else (invalid_mfa_code, w)
  after_challenge user a other w = (second_factor_throws other, w)

  abbrev pub challenged :
      ℕ → Option UserDoc → List ℕ → Attempt → World engine → LoginResult × World engine
  challenged user none code a w = (account_disabled, w)
  challenged user (some d) code a w =
      if d.is_active
      then (let (outcome, m) =
            Mfa.verify_mfa stores.mfa_users stores.backup_codes engine.mfa user code a.fresh.now
              w.mfa in
          after_challenge user a outcome (record w { mfa = m }))
      else (account_disabled, w)

  pub verify_mfa_login :
      (user : ℕ) → (code : List ℕ) → Attempt → World engine → LoginResult × World engine
  verify_mfa_login user code a w =
      if engine.has_mfa
      then challenged user
          (find_user (record { user_id = some user; email = none; phone = none }) w) code a w
      else (mfa_not_configured, w)
