-- ===== src/Login/Tests.antt =====
-- Runs of the logins for one account.
use pezhwan.Base.{ℕ, ◌+◌, ◌≡◌, refl, Bool, true, false, [], ◌∷◌, none, some, ◌==◌, find, arith}
use pezhwan.Cache.Memory.Interface.{memory_cache, new_cache}
use pezhwan.Mfa
use pezhwan.Mongo.{list_collection, list_collection-IsCollection}
use pezhwan.Otp
use pezhwan.Session
use pezhwan.Session.{CreatedSession}
use pezhwan.Login.Gates.{
  login_password-asks, second_factor_gate, login_otp-first_account, MayLogIn, is_logged_in, handle,
}
use pezhwan.Login.Lockout.{five_wrong_passwords_lock, run}
use pezhwan.Login.{
  UserDoc, logged_in, account_locked, password, Tokens, Engine, Stores, World, Attempt, find_user,
  login_password, login_otp, gated, complete_login, clear_failed_login, mint_tokens, context_of,
}

abbrev pub engine_with : Bool → Engine
engine_with has_mfa = record {
  tenant_id = 3;
  sessions = record {
    cache = memory_cache;
    hash = λ token. token + 1000;
    oldest = find;
    refresh_token_ttl_ms = 60000;
    max_active_sessions = 2;
  };
  otp = record {
    cache = memory_cache;
    hash = λ code. code + 1000;
    tenant_id = 3;
    application_id = 4;
    has_sms = false;
    ttl_ms = 300000;
    max_attempts = 2;
    resend_cooldown_ms = 60000;
    attempts_window_ms = 600000;
  };
  has_mfa = has_mfa;
  mfa = record {
    tenant_id = 3;
    hmac = λ secret counter. [];
    hash = λ code. 0;
    wrap = λ secret. secret;
    unwrap = λ sealed. some sealed;
  };
  cache = memory_cache;
  is_argon2_hash = λ hash. true;
  verify_password = λ given hash. given == hash;
}

abbrev pub stores : Stores
stores = record {
  users = list_collection;
  sessions = list_collection;
  otps = list_collection;
  mfa_users = list_collection;
  backup_codes = list_collection;
  authorization = record {
    users = list_collection;
    roles = list_collection;
    assignments = list_collection;
    permissions = list_collection;
  };
}

abbrev pub user_with : ℕ → UserDoc
user_with failures = record {
  id = 7;
  tenant_id = 3;
  email = some 8;
  phone = none;
  password_hash = some 55;
  is_active = true;
  token_version = 5;
  failed_login_attempts = failures;
  login_lock_until = none;
}

-- A code that was sent to the address 9, which is nobody's.
abbrev sent_code : Otp.OtpDoc
sent_code = record {
  id = 1;
  tenant_id = 3;
  application_id = 4;
  purpose = 1;
  channel = Otp.email;
  target = 9;
  code_hash = 1042;
  expires_at = 300000;
  consumed = false;
  attempts = 0;
}

abbrev pub world_with : (has_mfa : Bool) → ℕ → World (engine_with has_mfa)
world_with has_mfa failures = record {
  users = user_with failures ∷ [];
  sessions = record { sessions = []; cached = new_cache 100 };
  otp = record { otps = sent_code ∷ []; cached = new_cache 100; sent_messages = [] };
  mfa = record {
    users =
        record {
          id = 7;
          mfa_enabled = true;
          mfa_secret = some 5;
          mfa_secret_verified_at = none;
          mfa_failed_attempts = 0;
          mfa_lock_until = none;
        }
        ∷ [];
    codes = [];
  };
  authorization = record {
    roles = [];
    assignments = [];
    permissions = [];
    accounts = record { users = []; cached = new_cache 100 };
  };
}

abbrev pub attempt_at : ℕ → Attempt
attempt_at now = record {
  application_id = 4;
  ip = none;
  user_agent = none;
  device_label = none;
  fresh = record { id = 2; family = 20; token = 9; now = now };
}

abbrev to_nobody : Otp.Request
to_nobody = record { channel = Otp.email; target = 9; purpose = 1 }

login_otp-first_account_example :
    (t : Tokens) × ((login_otp stores
        (engine_with false)
        to_nobody
        none
        none
        42
        (attempt_at 100)
        (world_with false 0)).0
      ≡ logged_in 7 t)
unfolding Otp.verify_otp Otp.judged pezhwan.Cache.Memory.get
login_otp-first_account_example =
    login_otp-first_account stores (engine_with false) to_nobody 42 (attempt_at 100)
      (world_with false 0) (user_with 0) refl refl refl refl

second_factor_gate_example :
    ((is_logged_in
          (login_password stores
            (engine_with true)
            (some 8)
            none
            55
            (attempt_at 100)
            (world_with true 0)).0
        ≡ false)
      × ((login_password stores
            (engine_with true)
            (some 8)
            none
            55
            (attempt_at 100)
            (world_with true 0)).1.sessions
          ≡ (world_with true 0).sessions))
    × ((is_logged_in
            (login_otp stores
              (engine_with true)
              to_nobody
              (some 8)
              none
              42
              (attempt_at 100)
              (world_with true 0)).0
          ≡ false)
        × ((login_otp stores
              (engine_with true)
              to_nobody
              (some 8)
              none
              42
              (attempt_at 100)
              (world_with true 0)).1.sessions
            ≡ (world_with true 0).sessions))
unfolding find_user Mfa.is_enabled
second_factor_gate_example =
    second_factor_gate stores (engine_with true) (some 8) none 55 42 to_nobody (attempt_at 100)
      (world_with true 0) (user_with 0) refl refl

five_wrong_passwords_lock_example :
    (retry : ℕ) × (login_password stores (engine_with false) (some 8) none 55 (attempt_at 900099) (
        run stores
          (engine_with false)
          (some 8)
          none
          ((54, attempt_at 100) ∷ [])
          (world_with false 4))
      ≡ (
        account_locked retry,
        run stores
            (engine_with false)
            (some 8)
            none
            ((54, attempt_at 100) ∷ [])
            (world_with false 4),
      ))
five_wrong_passwords_lock_example =
    five_wrong_passwords_lock stores (engine_with false) (some 8) none list_collection-IsCollection
      ((54, attempt_at 100) ∷ []) 4 55 100 55 (attempt_at 900099) (world_with false 4)
      (user_with 4, ((refl, omega arith), (refl, (refl, (refl, refl))))) refl
      (refl, (omega arith, (omega arith, tt))) (omega arith)

abbrev new_session : CreatedSession × Session.World (engine_with false).sessions
new_session =
    Session.create list_collection (engine_with false).sessions
      (context_of stores (engine_with false) (user_with 0) (attempt_at 100)) (attempt_at 100).fresh
      (world_with false 0).sessions

abbrev tokens : Tokens
tokens =
    mint_tokens stores (engine_with false) (user_with 0) new_session.0 (attempt_at 100) password
      (record (clear_failed_login stores (engine_with false) (user_with 0) (world_with false 0)) {
        sessions = new_session.1;
      })

login_password-asks_example :
    (user : UserDoc) × ((find_user stores
          (engine_with false)
          (handle stores (engine_with false) (some 8) none)
          (world_with false 0)
        ≡ some user)
      × (MayLogIn stores (engine_with false) user 55 100 (world_with false 0)
          × ((complete_login stores
                (engine_with false)
                user
                password
                (attempt_at 100)
                (clear_failed_login stores (engine_with false) user (world_with false 0))).0
              ≡ logged_in 7 tokens)))
unfolding login_password find_user gated clear_failed_login complete_login
login_password-asks_example =
    login_password-asks stores (engine_with false) (some 8) none 55 (attempt_at 100)
      (world_with false 0) 7 tokens refl

pub found_by_address :
    find_user stores
      (engine_with true)
      (record { user_id = none; email = some 8; phone = none })
      (world_with true 0)
    ≡ some (user_with 0)
unfolding find_user
found_by_address = refl

pub found_by_id :
    find_user stores
      (engine_with true)
      (record { user_id = some 7; email = none; phone = none })
      (world_with true 0)
    ≡ some (user_with 0)
unfolding find_user
found_by_id = refl
