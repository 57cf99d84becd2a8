-- ===== src/Login/Model.antt =====
-- The documents, inputs and results of the logins of packages/core/src/auth/auth.engine.ts, and the
-- query that finds a user.
use pezhwan.Base.{ℕ, ◌-◌, Bool, false, ◌&&◌, List, Option, none, some, ◌==◌, ltb}
use pezhwan.Authorization
use pezhwan.Authorization.{IdentityContext}
use pezhwan.Cache.{Cache}
use pezhwan.Mfa
use pezhwan.Mongo.{Collection}
use pezhwan.Otp
use pezhwan.Session
use pezhwan.Session.{SessionDoc, CreatedSession}

pub record UserDoc : Type 0 where
  pub id : ℕ
  pub tenant_id : ℕ
  pub email : Option ℕ
  pub phone : Option ℕ
  pub password_hash : Option ℕ
  pub is_active : Bool
  pub token_version : ℕ
  pub failed_login_attempts : ℕ
  pub login_lock_until : Option ℕ

-- `UserLookupInput`.
pub record Lookup : Type 0 where
  pub user_id : Option ℕ
  pub email : Option ℕ
  pub phone : Option ℕ

pub data AuthMethod : Type 0 where
  password email_otp mfa_totp magic_link : AuthMethod

pub record Claims : Type 0 where
  pub identity : IdentityContext
  pub token_version : ℕ

pub record Tokens : Type 0 where
  pub access_token : Claims
  pub refresh_token : ℕ
  pub session : CreatedSession

pub data LoginResult : Type 0 where
  logged_in : (user_id : ℕ) → Tokens → LoginResult
  mfa_required : (user_id : ℕ) → LoginResult
  invalid_credentials account_disabled invalid_otp invalid_mfa_code mfa_not_configured : LoginResult
  user_not_found : LoginResult
  account_locked : (retry_after_ms : ℕ) → LoginResult
  second_factor_throws : Mfa.Outcome → LoginResult

pub record Engine : Type 1 where
  pub tenant_id : ℕ
  pub sessions : Session.Deps
  pub otp : Otp.Options
  -- The second factor is configured, or not.
  pub has_mfa : Bool
  pub mfa : Mfa.Deps
  pub cache : Cache
  pub is_argon2_hash : ℕ → Bool
  pub verify_password : (password hash : ℕ) → Bool

pub record Stores : Type 0 where
  pub users : Collection UserDoc
  pub sessions : Collection SessionDoc
  pub otps : Collection Otp.OtpDoc
  pub mfa_users : Collection Mfa.UserDoc
  pub backup_codes : Collection Mfa.BackupCode
  pub authorization : Authorization.Store

pub record World (engine : Engine) : Type 0 where
  pub users : List UserDoc
  pub sessions : Session.World engine.sessions
  pub otp : Otp.World engine.otp
  pub mfa : Mfa.World
  pub authorization : Authorization.World engine.cache

-- The application, the device, and what the session that may be created draws.
pub record Attempt : Type 0 where
  pub application_id : ℕ
  pub ip : Option ℕ
  pub user_agent : Option ℕ
  pub device_label : Option ℕ
  pub fresh : Session.Fresh

abbrev pub has_value : Option ℕ → ℕ → Bool
has_value none v = false
has_value (some x) v = x == v

abbrev pub by_phone : ℕ → Option ℕ → UserDoc → Bool
by_phone tenant none d = d.tenant_id == tenant
by_phone tenant (some phone) d = d.tenant_id == tenant && has_value d.phone phone

abbrev pub by_email : ℕ → Option ℕ → Option ℕ → UserDoc → Bool
by_email tenant none phone d = by_phone tenant phone d
by_email tenant (some email) phone d = d.tenant_id == tenant && has_value d.email email

-- The query of `findUser`. Addresses are in lower case, to which the code brings the one it is given.
abbrev pub lookup_query : ℕ → Option ℕ → Option ℕ → Option ℕ → UserDoc → Bool
lookup_query tenant none email phone d = by_email tenant email phone d
lookup_query tenant (some user) email phone d = d.tenant_id == tenant && d.id == user

abbrev pub method_number : AuthMethod → ℕ
method_number password = 0
method_number email_otp = 1
method_number mfa_totp = 2
method_number magic_link = 3

abbrev pub max_failed_logins : ℕ
max_failed_logins = 5

abbrev pub login_lock_ms : ℕ
login_lock_ms = 900000

abbrev pub is_locked_at : ℕ → Option ℕ → Bool
is_locked_at now none = false
is_locked_at now (some until) = ltb now until

abbrev pub retry_after : ℕ → Option ℕ → ℕ
retry_after now none = 0
retry_after now (some until) = until - now
