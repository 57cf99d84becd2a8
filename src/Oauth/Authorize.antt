-- ===== src/Oauth/Authorize.antt =====
-- Authorization requests, in packages/core/src/services/oauth.service.ts.
use pezhwan.Base.{ℕ, ◌+◌, ◌*◌, not, List, [], ◌∷◌, Option, none, some, any, if◌then◌else◌}
use pezhwan.Oauth.Model.{
  OauthClientDoc, CodeDoc, AuthorizeInput, AuthorizeResult, authorized, unknown_client,
  invalid_redirect_uri, pkce_required, invalid_pkce_method, Deps, Stores, World, Method, s256,
  plain, authorization_code, openid, method_eq, includes, allows,
}
use pezhwan.Oauth.Clients.{find_client, in_scope}

module _ (stores : Stores) (deps : Deps) where
  abbrev pub requested : List ℕ → List ℕ
  requested [] = openid ∷ []
  requested (x ∷ l) = x ∷ l

  abbrev pub or_s256 : Option Method → Method
  or_s256 none = s256
  or_s256 (some m) = m

  abbrev pub stored_method : Method → Method
  stored_method plain = plain
  stored_method _ = s256

  abbrev pub code_ttl_seconds : ℕ
  code_ttl_seconds = 10 * 60

  abbrev pub new_code : AuthorizeInput → (challenge : ℕ) → (raw id now : ℕ) → CodeDoc
  new_code input challenge raw id now = record {
    id = id;
    code_hash = deps.hash_secret raw;
    tenant_id = input.tenant_id;
    application_id = input.application_id;
    client_id = input.client_id;
    user_id = input.user_id;
    session_id = input.session_id;
    redirect_uri = input.redirect_uri;
    scope = requested input.scope;
    code_challenge = some challenge;
    code_challenge_method = stored_method (or_s256 input.code_challenge_method);
    nonce = input.nonce;
    auth_method = input.auth_method;
    expires_at = now + code_ttl_seconds * 1000;
    consumed_at = none;
  }

  abbrev pub challenged :
      OauthClientDoc
      → AuthorizeInput
      → Option ℕ
      → (raw id now : ℕ) → World deps
      → AuthorizeResult × World deps
  challenged c input none raw id now w = (pkce_required, w)
  challenged c input (some challenge) raw id now w =
      if any (λ m. method_eq m (or_s256 input.code_challenge_method)) c.pkce_methods
      then (
        authorized raw code_ttl_seconds,
        record w { codes = stores.codes.create (new_code input challenge raw id now) w.codes },
      )
      else (invalid_pkce_method, w)

  abbrev pub authorized_client :
      Option OauthClientDoc
      → AuthorizeInput
      → (raw id now : ℕ) → World deps
      → AuthorizeResult × World deps
  authorized_client none input raw id now w = (unknown_client, w)
  authorized_client (some c) input raw id now w =
      if not c.is_active
      then (unknown_client, w)
      else if not (in_scope stores deps c input.tenant_id input.application_id)
      then (AuthorizeResult.invalid_client, w)
      else if not (includes input.redirect_uri c.redirect_uris)
      then (invalid_redirect_uri, w)
      else if not (allows authorization_code c)
      then (AuthorizeResult.unsupported_grant, w)
      else if any (λ s. not (includes s c.scopes)) (requested input.scope)
      then (AuthorizeResult.invalid_scope, w)
      else challenged c input input.code_challenge raw id now w

  -- `raw` and `id` are drawn.
  unfoldable pub authorize_code :
      AuthorizeInput → (raw id now : ℕ) → World deps → AuthorizeResult × World deps
  authorize_code input raw id now w =
      authorized_client
        (find_client stores deps input.client_id input.tenant_id input.application_id w) input raw
        id now w
