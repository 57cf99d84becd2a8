-- ===== src/Oauth/Codes.antt =====
-- The redemption of authorization codes, in packages/core/src/services/oauth.service.ts.
use pezhwan.Base.{ℕ, Bool, false, not, ◌&&◌, List, Option, none, some, ◌==◌, ltb, if◌then◌else◌}
use pezhwan.Session
use pezhwan.Session.{CreatedSession, Fresh, RefreshContext, SessionContext}
use pezhwan.Oauth.Model.{
  OauthClientDoc, CodeDoc, ExchangeInput, Refusal, code_required, code_invalid, code_expired,
  redirect_uri_mismatch, code_verifier_required, pkce_failed, code_used, IdClaims, TokenResponse,
  ExchangeResult, granted, refused, Deps, Stores, World, Method, s256, user_subject, openid,
  includes, by_code,
}
use pezhwan.Oauth.Authorize.{requested}

module _ (stores : Stores) (deps : Deps) where
  unfoldable pub verify_pkce : (verifier challenge : ℕ) → Method → Bool
  verify_pkce verifier challenge s256 = deps.challenge_of verifier == challenge
  verify_pkce verifier challenge _ = verifier == challenge

  abbrev pub is_uri : Option ℕ → ℕ → Bool
  is_uri none stored = false
  is_uri (some given) stored = given == stored

  abbrev pub verifier_checked : Option ℕ → ℕ → Method → Option Refusal
  verifier_checked none challenge m = some code_verifier_required
  verifier_checked (some verifier) challenge m =
      if verify_pkce verifier challenge m then none else some pkce_failed

  abbrev pub pkce_checked : Option ℕ → Option ℕ → Method → Option Refusal
  pkce_checked none verifier m = none
  pkce_checked (some challenge) verifier m = verifier_checked verifier challenge m

  -- Why a stored code is not redeemed, if it is not.
  abbrev pub code_checked : CodeDoc → ExchangeInput → (now : ℕ) → Option Refusal
  code_checked d input now =
      if ltb d.expires_at now
      then some code_expired
      else if not (is_uri input.redirect_uri d.redirect_uri)
      then some redirect_uri_mismatch
      else pkce_checked d.code_challenge input.code_verifier d.code_challenge_method

  abbrev pub by_id : CodeDoc → OauthClientDoc → ExchangeInput → ℕ → CodeDoc → Bool
  by_id d c input hash x =
      x.id == d.id && by_code hash c.client_id input.tenant_id input.application_id x

  -- The one update that redeems a code.
  unfoldable pub consume :
      CodeDoc
      → OauthClientDoc
      → ExchangeInput
      → (hash now : ℕ) → List CodeDoc
      → Option CodeDoc × List CodeDoc
  consume d c input hash now =
      stores.codes.find_one_and_update (by_id d c input hash)
        (λ x. record x { consumed_at = some now })

  abbrev pub context_of : CodeDoc → ExchangeInput → SessionContext
  context_of d input = record {
    user_id = d.user_id;
    tenant_id = d.tenant_id;
    application_id = d.application_id;
    ip = input.ip;
    user_agent = input.user_agent;
    device_label = input.device_label;
  }

  abbrev pub id_token_of : CodeDoc → CreatedSession → Option IdClaims
  id_token_of d s =
      if includes openid d.scope
      then some (record {
        user_id = d.user_id;
        tenant_id = d.tenant_id;
        application_id = d.application_id;
        nonce = d.nonce;
        session_id = s.session_id;
        scope = d.scope;
        client_id = d.client_id;
      })
      else none

  abbrev pub code_tokens : CodeDoc → CreatedSession → TokenResponse
  code_tokens d s = record {
    access_token = record {
      subject = user_subject d.user_id;
      tenant_id = d.tenant_id;
      application_id = d.application_id;
      session_id = s.session_id;
      is_service = false;
      auth_method = d.auth_method;
      scope = some (requested stores deps d.scope);
      client_id = d.client_id;
    };
    refresh_token = some s.refresh_token;
    id_token = id_token_of d s;
    expires_in = deps.access_token_ttl;
    scope = requested stores deps d.scope;
  }

  abbrev pub consumed_code :
      CodeDoc → ExchangeInput → Fresh → Option CodeDoc → World deps → ExchangeResult × World deps
  consumed_code d input fresh none w = (refused code_used, w)
  consumed_code d input fresh (some _) w =
      let (s, sessions) =
        Session.create stores.sessions deps.sessions (context_of d input) fresh w.sessions in
      (granted (code_tokens d s), record w { sessions = sessions })

  -- A wrong verifier revokes the session in which the code was issued.
  abbrev pub after_check :
      CodeDoc
      → OauthClientDoc
      → ExchangeInput
      → (hash : ℕ) → Fresh
      → Option Refusal
      → World deps
      → ExchangeResult × World deps
  after_check d c input hash fresh (some pkce_failed) w = (
    refused pkce_failed,
    record w {
      sessions = Session.revoke stores.sessions deps.sessions d.session_id fresh.now w.sessions;
    },
  )
  after_check d c input hash fresh (some r) w = (refused r, w)
  after_check d c input hash fresh none w =
      let (taken, codes) = consume d c input hash fresh.now w.codes in
      consumed_code d input fresh taken (record w { codes = codes })

  abbrev pub found_code :
      OauthClientDoc
      → ExchangeInput
      → (hash : ℕ) → Fresh
      → Option CodeDoc
      → World deps
      → ExchangeResult × World deps
  found_code c input hash fresh none w = (refused code_invalid, w)
  found_code c input hash fresh (some d) w =
      after_check d c input hash fresh (code_checked d input fresh.now) w

  abbrev pub exchange_authorization_code :
      OauthClientDoc → ExchangeInput → Option ℕ → Fresh → World deps → ExchangeResult × World deps
  exchange_authorization_code c input none fresh w = (refused code_required, w)
  exchange_authorization_code c input (some code) fresh w =
      let hash = deps.hash_secret code in
      found_code c input hash fresh
        (stores.codes.find_one (by_code hash c.client_id input.tenant_id input.application_id)
          w.codes)
        w
