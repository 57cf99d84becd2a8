-- ===== src/Reset.antt =====
-- `changePassword` and `resetPassword` of packages/core/src/auth/auth.engine.ts. A user's document is
-- read in two parts, by Login and by AccountState, and both are updated. Hashing is a parameter, and so
-- is whether the policy accepts a new password, which PasswordPolicy has for the text.
pub mod Version
mod Tests
use pezhwan.Base.{
  ℕ, ◌+◌, ◌≡◌, Bool, true, false, ◌&&◌, List, Option, none, some, ◌==◌, if◌then◌else◌,
}
use pezhwan.AccountState
use pezhwan.Login.{
  UserDoc, Engine, Stores, World, Attempt, Tokens, AuthMethod, password, email_otp, find_user,
  own_document, context_of, mint_tokens, is_verified,
}
use pezhwan.Otp
use pezhwan.Session
use pezhwan.Mongo.{Collection}
use pezhwan.VerificationToken.{
  TokenDoc, Service, Kind, password_reset, Redeemed, redeemed, kind_eq, redeem,
}

pub data ChangeResult : Type 0 where
  changed password_policy user_not_found invalid_current_password : ChangeResult

pub data ResetResult : Type 0 where
  reset : (user_id : ℕ) → Tokens → ResetResult
  refused_by_policy invalid_otp user_unknown : ResetResult
  token_refused : Redeemed → ResetResult

-- What a password is hashed to, and whether the policy accepts it.
pub record Passwords : Type 0 where
  pub accepted : ℕ → Bool
  pub hash_password : ℕ → ℕ

abbrev pub of_user : ℕ → ℕ → UserDoc → Bool
of_user tenant user d = d.id == user && d.tenant_id == tenant

abbrev pub if_channel : Otp.Channel → Otp.Channel → ℕ → Option ℕ
if_channel Otp.email Otp.email target = some target
if_channel Otp.phone Otp.phone target = some target
if_channel _ _ target = none

module _ (stores : Stores) (engine : Engine) (passwords : Passwords) where
  -- The account state of the user is dropped from the cache, and the version is set.
  abbrev pub set_version : UserDoc → ℕ → World engine → World engine
  set_version user version w =
      let accounts = w.authorization.accounts in
      record w {
        authorization = record w.authorization {
          accounts =
              AccountState.invalidate stores.authorization.users engine.cache user.id
                (record accounts {
                  users =
                      stores.authorization.users.update_one (AccountState.by_id user.id)
                        (λ d. record d { token_version = version }) accounts.users;
                });
        };
      }

  abbrev pub change_for :
      UserDoc → (current new : ℕ) → Option ℕ → World engine → ChangeResult × World engine
  change_for user current new none w = (invalid_current_password, w)
  change_for user current new (some hash) w =
      if engine.verify_password current hash
      then (let version = user.token_version + 1 in
          (
            changed,
            set_version user version (record w {
              users =
                  stores.users.update_one (own_document stores engine user)
                    (λ d. record d {
                      password_hash = some (passwords.hash_password new);
                      token_version = version;
                    })
                    w.users;
            }),
          ))
      else (invalid_current_password, w)

  abbrev pub change_found :
      (current new : ℕ) → Option UserDoc → World engine → ChangeResult × World engine
  change_found current new none w = (user_not_found, w)
  change_found current new (some user) w = change_for user current new user.password_hash w

  pub change_password : (user current new : ℕ) → World engine → ChangeResult × World engine
  change_password user current new w =
      if passwords.accepted new
      then change_found current new (stores.users.find_one (of_user engine.tenant_id user) w.users)
          w
      else (password_policy, w)

  abbrev pub with_new_hash : UserDoc → ℕ → World engine → World engine
  with_new_hash user new w = record w {
    users =
        stores.users.update_one (own_document stores engine user)
          (λ d. record d {
            password_hash = some (passwords.hash_password new);
            token_version = user.token_version + 1;
            failed_login_attempts = 0;
            login_lock_until = none;
          })
          w.users;
  }

  -- The tokens are minted for the user as it was read before the update.
  pub reset_for :
      UserDoc → (new : ℕ) → AuthMethod → Attempt → World engine → ResetResult × World engine
  reset_for user new method a w =
      let w' = set_version user (user.token_version + 1) (with_new_hash user new w) in
      let revoked =
        Session.revoke_all stores.sessions engine.sessions user.id (some a.application_id) none
          a.fresh.now w'.sessions in
      let (session, s) =
        Session.create stores.sessions engine.sessions (context_of stores engine user a) a.fresh
          revoked in
      let w'' : World engine = record w' { sessions = s } in
      (reset user.id (mint_tokens stores engine user session a method w''), w'')

  abbrev pub reset_found :
      (new : ℕ) → Attempt → Option UserDoc → World engine → ResetResult × World engine
  reset_found new a none w = (invalid_otp, w)
  reset_found new a (some user) w = reset_for user new password a w

  -- The purpose of the request is `password_reset`.
  pub reset_password :
      Otp.Request → (code new : ℕ) → Attempt → World engine → ResetResult × World engine
  reset_password r code new a w =
      if passwords.accepted new
      then (let (answer, o) = Otp.verify_otp stores.otps engine.otp r code a.fresh.now w.otp in
          let w' : World engine = record w { otp = o } in
          if is_verified stores engine answer
          then reset_found new a
              (find_user stores engine
                (record {
                  user_id = none;
                  email = if_channel r.channel Otp.email r.target;
                  phone = if_channel r.channel Otp.phone r.target;
                })
                w')
              w'
          else (invalid_otp, w'))
      else (refused_by_policy, w)

  abbrev pub reset_known :
      (new : ℕ) → Attempt → Option UserDoc → World engine → ResetResult × World engine
  reset_known new a none w = (user_unknown, w)
  reset_known new a (some user) w = reset_for user new email_otp a w

  -- A token of another kind is refused, after it has been consumed.
  abbrev pub reset_redeemed :
      (new : ℕ) → Attempt → Redeemed → World engine → ResetResult × World engine
  reset_redeemed new a (redeemed r) w =
      if kind_eq r.kind password_reset
      then reset_known new a
          (find_user stores engine (record { user_id = some r.user_id; email = none; phone = none })
            w)
          w
      else (token_refused (redeemed r), w)
  reset_redeemed new a other w = (token_refused other, w)

  -- `resetPasswordWithToken`, over the tokens of the verification-token service.
  pub reset_password_with_token :
      Collection TokenDoc
      → Service
      → (token new : ℕ) → Attempt
      → List TokenDoc
      → World engine
      → ResetResult × (World engine × List TokenDoc)
  reset_password_with_token tokens service token new a l w =
      if passwords.accepted new
      then (let (answer, l') = redeem tokens service token a.fresh.now l in
          let (r, w') = reset_redeemed new a answer w in (r, (w', l')))
      else (refused_by_policy, (w, l))
