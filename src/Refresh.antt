-- ===== src/Refresh.antt =====
-- `refreshSession` of packages/core/src/auth/auth.engine.ts, over the sessions. The application is that
-- of the engine's options. The signature of the access token, here the claims that are signed, is not
-- modelled.
pub mod Burns
mod Tests
use pezhwan.Base.{ℕ, Bool, ◌&&◌, Option, none, some, ◌==◌, if◌then◌else◌}
use pezhwan.Authorization
use pezhwan.Login.{UserDoc, Engine, Stores, World, Claims, password, method_number, find_user}
use pezhwan.Session
use pezhwan.Session.{CreatedSession, RefreshContext, Fresh}
use pezhwan.Session.Transaction.{Result, ok, err, Failure, DriverError}

pub data RefreshResult : Type 0 where
  refreshed : Claims → CreatedSession → RefreshResult
  session_context_invalid : RefreshResult
  refresh_throws : Failure → RefreshResult

-- The context that `refreshSession` hands to `refresh`: the device, and no scope.
abbrev pub unscoped : (ip user_agent device_label : Option ℕ) → RefreshContext
unscoped ip user_agent device_label = record {
  ip = ip;
  user_agent = user_agent;
  device_label = device_label;
  tenant_id = none;
  application_id = none;
}

abbrev pub version_of : Option UserDoc → ℕ
version_of none = 0
version_of (some user) = user.token_version

module _ (stores : Stores) (engine : Engine) (application : ℕ) where
  abbrev pub in_context : CreatedSession → Bool
  in_context session =
      session.tenant_id == engine.tenant_id && session.application_id == application

  abbrev pub refreshed_claims : CreatedSession → ℕ → World engine → Claims
  refreshed_claims session now w = record {
    identity =
        Authorization.build_identity_context stores.authorization engine.cache
          (record {
            user_id = session.user_id;
            tenant_id = engine.tenant_id;
            application_id = application;
          })
          session.session_id (method_number password) now w.authorization;
    token_version = version_of (
        find_user stores engine
          (record { user_id = some session.user_id; email = none; phone = none }) w);
  }

  -- The context is looked at once the sessions have rotated.
  abbrev pub after_refresh : Result CreatedSession → ℕ → World engine → RefreshResult × World engine
  after_refresh (err e) now w = (refresh_throws e, w)
  after_refresh (ok session) now w =
      if in_context session
      then (refreshed (refreshed_claims session now w) session, w)
      else (session_context_invalid, w)

  pub refresh_session :
      (token : ℕ) (ip user_agent device_label : Option ℕ)
      → Fresh
      → (supported : Bool) → (throws : ℕ → Option DriverError) → World engine
      → RefreshResult × World engine
  refresh_session token ip user_agent device_label fresh supported throws w =
      let (r, s) =
        Session.refresh stores.sessions engine.sessions token (unscoped ip user_agent device_label)
          fresh supported throws w.sessions in
      after_refresh r fresh.now (record w { sessions = s })
