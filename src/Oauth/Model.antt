-- ===== src/Oauth/Model.antt =====
-- The data of packages/core/src/services/oauth.service.ts, with the documents of
-- packages/core/src/models/oauthClient.model.ts and packages/core/src/models/authorizationCode.model.ts.
-- Texts are numbers, and a scope is the list of its words. An absent or empty text is `none`, but
-- for the scope of an exchange, where an absent one is `none` and an empty text splits into the one word
-- of no letters.
use pezhwan.Base.{ℕ, Bool, true, false, ◌&&◌, List, [], ◌∷◌, Option, none, some, ◌==◌, any}
use pezhwan.Mongo.{Collection}
use pezhwan.Session
use pezhwan.Session.{SessionDoc, CreatedSession}
use pezhwan.Session.Transaction.{Failure}

pub data Grant : Type 0 where
  authorization_code refresh_token client_credentials unknown_grant : Grant

pub data Method : Type 0 where
  s256 plain no_method : Method

pub data EndpointMethod : Type 0 where
  client_secret_basic client_secret_post no_secret : EndpointMethod

pub record OauthClientDoc : Type 0 where
  pub tenant_id : ℕ
  pub application_id : ℕ
  pub name : ℕ
  pub client_id : ℕ
  pub client_secret_hash : Option ℕ
  pub redirect_uris : List ℕ
  pub grants : List Grant
  pub pkce_methods : List Method
  pub scopes : List ℕ
  pub is_active : Bool
  pub is_confidential : Bool
  pub token_endpoint_auth_method : EndpointMethod

pub record CodeDoc : Type 0 where
  pub id : ℕ
  pub code_hash : ℕ
  pub tenant_id : ℕ
  pub application_id : ℕ
  pub client_id : ℕ
  pub user_id : ℕ
  pub session_id : ℕ
  pub redirect_uri : ℕ
  pub scope : List ℕ
  pub code_challenge : Option ℕ
  pub code_challenge_method : Method
  pub nonce : Option ℕ
  pub auth_method : ℕ
  pub expires_at : ℕ
  pub consumed_at : Option ℕ

pub record ClientInput : Type 0 where
  pub tenant_id : ℕ
  pub application_id : ℕ
  pub name : ℕ
  pub redirect_uris : List ℕ
  pub grants : List Grant
  pub scopes : Option (List ℕ)
  pub confidential : Option Bool
  pub client_secret : Option ℕ

pub record AuthorizeInput : Type 0 where
  pub client_id : ℕ
  pub redirect_uri : ℕ
  pub scope : List ℕ
  pub nonce : Option ℕ
  pub user_id : ℕ
  pub session_id : ℕ
  pub application_id : ℕ
  pub tenant_id : ℕ
  pub auth_method : ℕ
  pub code_challenge : Option ℕ
  pub code_challenge_method : Option Method

pub record ExchangeInput : Type 0 where
  pub grant_type : Grant
  pub client_id : ℕ
  pub client_secret : Option ℕ
  pub code : Option ℕ
  pub redirect_uri : Option ℕ
  pub code_verifier : Option ℕ
  pub refresh_token : Option ℕ
  pub scope : Option (List ℕ)
  pub tenant_id : ℕ
  pub application_id : ℕ
  pub ip : Option ℕ
  pub user_agent : Option ℕ
  pub device_label : Option ℕ

pub data AuthorizeResult : Type 0 where
  authorized : (code expires_in : ℕ) → AuthorizeResult
  unknown_client invalid_client invalid_redirect_uri unsupported_grant : AuthorizeResult
  invalid_scope pkce_required invalid_pkce_method : AuthorizeResult

pub data Refusal : Type 0 where
  invalid_client client_authentication_required unsupported_grant : Refusal
  code_required code_invalid code_expired redirect_uri_mismatch code_verifier_required : Refusal
  pkce_failed code_used refresh_token_required invalid_scope : Refusal
  refresh_failed : Failure → Refusal

pub data Subject : Type 0 where
  user_subject : ℕ → Subject
  client_subject : ℕ → Subject

-- The claims of an access token and of an ID token, before they are signed.
pub record AccessClaims : Type 0 where
  pub subject : Subject
  pub tenant_id : ℕ
  pub application_id : ℕ
  pub session_id : ℕ
  pub is_service : Bool
  pub auth_method : ℕ
  pub scope : Option (List ℕ)
  pub client_id : ℕ

pub record IdClaims : Type 0 where
  pub user_id : ℕ
  pub tenant_id : ℕ
  pub application_id : ℕ
  pub nonce : Option ℕ
  pub session_id : ℕ
  pub scope : List ℕ
  pub client_id : ℕ

pub record TokenResponse : Type 0 where
  pub access_token : AccessClaims
  pub refresh_token : Option ℕ
  pub id_token : Option IdClaims
  pub expires_in : ℕ
  pub scope : List ℕ

pub data ExchangeResult : Type 0 where
  granted : TokenResponse → ExchangeResult
  refused : Refusal → ExchangeResult

-- `hash_secret` prints a SHA-256 digest in base64, and `challenge_of` one in base64url.
pub record Deps : Type 1 where
  pub sessions : Session.Deps
  pub hash_secret : ℕ → ℕ
  pub challenge_of : ℕ → ℕ
  pub access_token_ttl : ℕ

pub record Stores : Type 0 where
  pub clients : Collection OauthClientDoc
  pub codes : Collection CodeDoc
  pub sessions : Collection SessionDoc

pub record World (deps : Deps) : Type 0 where
  pub clients : List OauthClientDoc
  pub codes : List CodeDoc
  pub sessions : Session.World deps.sessions

-- The words `openid`, `profile`, `email` and `default`, and two authentication methods.
abbrev pub openid : ℕ
openid = 1

abbrev pub profile_and_email : List ℕ
profile_and_email = 2 ∷ 3 ∷ []

abbrev pub default_scope : ℕ
default_scope = 4

abbrev pub by_oauth : ℕ
by_oauth = 1

abbrev pub by_service : ℕ
by_service = 2

abbrev pub grant_eq : Grant → Grant → Bool
grant_eq authorization_code authorization_code = true
grant_eq refresh_token refresh_token = true
grant_eq client_credentials client_credentials = true
grant_eq _ _ = false

abbrev pub method_eq : Method → Method → Bool
method_eq s256 s256 = true
method_eq plain plain = true
method_eq no_method no_method = true
method_eq _ _ = false

abbrev pub includes : ℕ → List ℕ → Bool
includes x l = any (λ y. y == x) l

-- `client.grants.includes(grant)`.
abbrev pub allows : Grant → OauthClientDoc → Bool
allows g c = any (λ h. grant_eq h g) c.grants

abbrev pub is_unused : Option ℕ → Bool
is_unused none = true
is_unused (some t) = false

-- The scoped look-up of a client, and the filter for a code that a client presents.
abbrev pub by_client : (client tenant application : ℕ) → OauthClientDoc → Bool
by_client client tenant application c =
    c.client_id == client && (c.tenant_id == tenant && c.application_id == application)

abbrev pub by_code : (hash client tenant application : ℕ) → CodeDoc → Bool
by_code hash client tenant application d =
    d.code_hash == hash
    && (d.client_id == client
        && (d.tenant_id == tenant && (d.application_id == application && is_unused d.consumed_at)))
