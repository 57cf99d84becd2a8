-- ===== src/Oauth.antt =====
-- packages/core/src/services/oauth.service.ts: clients, authorization codes with PKCE, and the token
-- endpoint with its three grants, over the session service. The digests are parameters. Tokens are the
-- claims that are signed. Audit calls and the discovery document are not modelled.
mod Model
mod Clients
mod Authorize
mod Codes
mod Tests
pub mod Requests
pub mod Guards
pub mod Redemption
pub mod Live
pub mod Spend
pub mod Once
pub mod Flow
pub use Model.*
unfoldable pub use Clients.*
unfoldable pub use Authorize.*
unfoldable pub use Codes.*
use pezhwan.Base.{
  ℕ, ◌+◌, ◌*◌, ◌≡◌, Bool, true, false, not, ◌&&◌, List, [], ◌∷◌, Option, none, some, ◌==◌, ltb, any,
  all, if◌then◌else◌,
}
use pezhwan.Session
use pezhwan.Session.{CreatedSession, Fresh, RefreshContext, SessionContext}
use pezhwan.Session.Transaction.{Result, ok, err, DriverError}

module _ (stores : Stores) (deps : Deps) where
  abbrev pub refresh_tokens : OauthClientDoc → CreatedSession → TokenResponse
  refresh_tokens c s = record {
    access_token = record {
      subject = user_subject s.user_id;
      tenant_id = s.tenant_id;
      application_id = s.application_id;
      session_id = s.session_id;
      is_service = false;
      auth_method = by_oauth;
      scope = none;
      client_id = c.client_id;
    };
    refresh_token = some s.refresh_token;
    id_token = none;
    expires_in = deps.access_token_ttl;
    scope = openid ∷ [];
  }

  abbrev pub refreshed : OauthClientDoc → Result CreatedSession → ExchangeResult
  refreshed c (ok s) = granted (refresh_tokens c s)
  refreshed c (err e) = refused (refresh_failed e)

  abbrev pub refresh_context : ExchangeInput → RefreshContext
  refresh_context input = record {
    ip = input.ip;
    user_agent = input.user_agent;
    device_label = input.device_label;
    tenant_id = some input.tenant_id;
    application_id = some input.application_id;
  }

  abbrev pub exchange_refresh_token :
      OauthClientDoc
      → ExchangeInput
      → Option ℕ
      → Fresh
      → (supported : Bool) → (ℕ → Option DriverError)
      → World deps
      → ExchangeResult × World deps
  exchange_refresh_token c input token fresh supported throws w =
      if not (allows refresh_token c) then (refused Refusal.unsupported_grant, w) else elim token [
        | none ↦ (refused refresh_token_required, w)
        | some t ↦
            let (r, sessions) =
              Session.refresh stores.sessions deps.sessions t (refresh_context input) fresh
                supported throws w.sessions in
            (refreshed c r, record w { sessions = sessions })
      ]

  abbrev pub or_default : Option (List ℕ) → List ℕ
  or_default none = default_scope ∷ []
  or_default (some l) = l

  abbrev pub service_tokens : OauthClientDoc → ExchangeInput → ℕ → TokenResponse
  service_tokens c input session = record {
    access_token = record {
      subject = client_subject c.client_id;
      tenant_id = input.tenant_id;
      application_id = input.application_id;
      session_id = session;
      is_service = true;
      auth_method = by_service;
      scope = some (or_default input.scope);
      client_id = c.client_id;
    };
    refresh_token = none;
    id_token = none;
    expires_in = 900;
    scope = or_default input.scope;
  }

  abbrev pub exchange_client_credentials :
      OauthClientDoc → ExchangeInput → (session : ℕ) → ExchangeResult
  exchange_client_credentials c input session =
      if not (allows client_credentials c)
      then refused Refusal.unsupported_grant
      else if any (λ s. not (includes s c.scopes)) (or_default input.scope)
      then refused Refusal.invalid_scope
      else granted (service_tokens c input session)

  abbrev pub by_grant :
      Grant
      → OauthClientDoc
      → ExchangeInput
      → Fresh
      → (supported : Bool) → (ℕ → Option DriverError)
      → World deps
      → ExchangeResult × World deps
  by_grant authorization_code c input fresh supported throws w =
      exchange_authorization_code stores deps c input input.code fresh w
  by_grant refresh_token c input fresh supported throws w =
      exchange_refresh_token c input input.refresh_token fresh supported throws w
  by_grant client_credentials c input fresh supported throws w =
      (exchange_client_credentials c input fresh.id, w)
  by_grant unknown_grant c input fresh supported throws w = (refused Refusal.unsupported_grant, w)

  abbrev pub authenticated_client :
      OauthClientDoc
      → ExchangeInput
      → Fresh
      → (supported : Bool) → (ℕ → Option DriverError)
      → Option Refusal
      → World deps
      → ExchangeResult × World deps
  authenticated_client c input fresh supported throws (some r) w = (refused r, w)
  authenticated_client c input fresh supported throws none w =
      if in_scope stores deps c input.tenant_id input.application_id
      then by_grant input.grant_type c input fresh supported throws w
      else (refused Refusal.invalid_client, w)

  abbrev pub found_client :
      Option OauthClientDoc
      → ExchangeInput
      → Fresh
      → (supported : Bool) → (ℕ → Option DriverError)
      → World deps
      → ExchangeResult × World deps
  found_client none input fresh supported throws w = (refused Refusal.invalid_client, w)
  found_client (some c) input fresh supported throws w =
      authenticated_client c input fresh supported throws
        (authenticated stores deps c input.client_secret) w

  pub exchange :
      ExchangeInput
      → Fresh
      → (supported : Bool) → (ℕ → Option DriverError)
      → World deps
      → ExchangeResult × World deps
  unfolding consume verify_pkce
  exchange input fresh supported throws w =
      found_client (find_client stores deps input.client_id input.tenant_id input.application_id w)
        input fresh supported throws w
