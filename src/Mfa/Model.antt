-- ===== src/Mfa/Model.antt =====
-- The documents of the second factor, in packages/core/src/models, and the constants, filters and
-- updates of packages/core/src/services/mfa.service.ts.
use pezhwan.Base.{ℕ, Bool, true, false, ◌&&◌, List, Option, none, some, ◌==◌}

pub record UserDoc : Type 0 where
  pub id : ℕ
  pub mfa_enabled : Bool
  pub mfa_secret : Option ℕ
  pub mfa_secret_verified_at : Option ℕ
  pub mfa_failed_attempts : ℕ
  pub mfa_lock_until : Option ℕ

pub record BackupCode : Type 0 where
  pub id : ℕ
  pub user_id : ℕ
  pub tenant_id : ℕ
  pub code_hash : ℕ
  pub used_at : Option ℕ

pub record World : Type 0 where
  pub users : List UserDoc
  pub codes : List BackupCode

-- `hash` is `hashBackupCode`; `wrap` and `unwrap` are the envelope, which `unwrap` may find invalid.
pub record Deps : Type 0 where
  pub tenant_id : ℕ
  pub hmac : ℕ → ℕ → List ℕ
  pub hash : List ℕ → ℕ
  pub wrap : ℕ → ℕ
  pub unwrap : ℕ → Option ℕ

pub data Outcome : Type 0 where
  answered : Bool → Outcome
  user_not_found mfa_already_enabled mfa_setup_required mfa_not_enabled invalid_totp
        invalid_mfa_secret range_error :
      Outcome

abbrev pub max_attempts : ℕ
max_attempts = 5

abbrev pub lock_ms : ℕ
lock_ms = 900000

abbrev pub by_id : ℕ → UserDoc → Bool
by_id i d = d.id == i

abbrev pub by_code : ℕ → BackupCode → Bool
by_code i c = c.id == i

abbrev pub is_unused : Option ℕ → Bool
is_unused none = true
is_unused (some t) = false

abbrev pub unused_of : ℕ → BackupCode → Bool
unused_of user c = c.user_id == user && is_unused c.used_at

abbrev pub clear_failures : UserDoc → UserDoc
clear_failures d = record d { mfa_failed_attempts = 0; mfa_lock_until = none }

-- `Number(null)` is 0.
abbrev pub time_of : Option ℕ → ℕ
time_of none = 0
time_of (some t) = t
