-- ===== src/Oauth/Tests.antt =====
-- Runs of the authorization-code flow for one client without a secret.
use pezhwan.Base.{ℕ, ◌+◌, ◌≡◌, ◌≢◌, refl, true, [], ◌∷◌, Option, none, some, find, arith}
use pezhwan.Cache.Memory.Interface.{memory_cache, new_cache}
use pezhwan.Mongo.{list_collection, list_collection-IsCollection}
use pezhwan.Session.{Fresh}
use pezhwan.Session.Transaction.{DriverError}
use pezhwan.Oauth.{
  OauthClientDoc, AuthorizeInput, authorized, ExchangeInput, granted, TokenResponse, Deps, Stores,
  World, s256, no_secret, authorization_code, user_subject, openid, find_client, authorize_code,
  exchange, new_code, consume, verify_pkce,
}
use pezhwan.Oauth.Guards.{MayAsk}
use pezhwan.Oauth.Redemption.{Redeems, exchange-Redeems}
use pezhwan.Oauth.Once.{here, redeemed_once}
use pezhwan.Oauth.Flow.{authorized_code-exchanges}

abbrev deps : Deps
deps = record {
  sessions = record {
    cache = memory_cache;
    hash = λ token. token + 1000;
    oldest = find;
    refresh_token_ttl_ms = 60000;
    max_active_sessions = 2;
  };
  hash_secret = λ s. s + 500;
  challenge_of = λ v. v + 700;
  access_token_ttl = 900000;
}

abbrev stores : Stores
stores = record { clients = list_collection; codes = list_collection; sessions = list_collection }

abbrev app : OauthClientDoc
app = record {
  tenant_id = 3;
  application_id = 4;
  name = 9;
  client_id = 20;
  client_secret_hash = none;
  redirect_uris = 30 ∷ [];
  grants = authorization_code ∷ [];
  pkce_methods = s256 ∷ [];
  scopes = openid ∷ [];
  is_active = true;
  is_confidential = true;
  token_endpoint_auth_method = no_secret;
}

abbrev world : World deps
world = record {
  clients = app ∷ [];
  codes = [];
  sessions = record { sessions = []; cached = new_cache 100 };
}

abbrev request : AuthorizeInput
request = record {
  client_id = 20;
  redirect_uri = 30;
  scope = [];
  nonce = some 6;
  user_id = 7;
  session_id = 1;
  application_id = 4;
  tenant_id = 3;
  auth_method = 0;
  code_challenge = some 711;
  code_challenge_method = none;
}

abbrev redemption : ExchangeInput
redemption = record {
  grant_type = authorization_code;
  client_id = 20;
  client_secret = none;
  code = some 41;
  redirect_uri = some 30;
  code_verifier = some 11;
  refresh_token = none;
  scope = none;
  tenant_id = 3;
  application_id = 4;
  ip = none;
  user_agent = none;
  device_label = none;
}

abbrev at : ℕ → Fresh
at now = record { id = 2; family = 20; token = 9; now = now }

abbrev calm : ℕ → Option DriverError
calm n = none

-- The world after the authorization.
abbrev issued : World deps
issued = record world { codes = new_code stores deps request 711 41 1 100 ∷ [] }

granted_once :
    (t : TokenResponse) × ((exchange stores deps redemption (at 200) true calm issued).0
      ≡ granted t)
unfolding exchange consume verify_pkce
granted_once = (_, refl)

exchange-Redeems_example :
    (c : OauthClientDoc) × (find_client stores deps 20 3 4 issued ≡ some c)
    × MayAsk stores deps c redemption
    × Redeems stores deps c redemption 41 (at 200) issued granted_once.0
exchange-Redeems_example =
    exchange-Redeems stores deps redemption 41 (at 200) true calm issued granted_once.0 refl refl
      granted_once.1

redeemed_once_example :
    (exchange stores deps redemption
      (at 300)
      true
      calm
      (exchange stores deps redemption (at 200) true calm issued).1).0
    ≢ granted granted_once.0
redeemed_once_example =
    redeemed_once stores deps list_collection-IsCollection redemption 41 (at 200) true calm issued
      (exchange stores deps redemption (at 200) true calm issued).1 granted_once.0 (omega arith)
      refl refl granted_once.1 here redemption (at 300) true calm granted_once.0 refl refl

authorized_code-exchanges_example :
    (t : TokenResponse) × ((exchange stores deps redemption
        (at 200)
        true
        calm
        (authorize_code stores deps request 41 1 100 world).1).0
      ≡ granted t)
    × (t.access_token.subject ≡ user_subject 7)
    × (t.scope ≡ openid ∷ [])
unfolding authorize_code
authorized_code-exchanges_example =
    authorized_code-exchanges stores deps list_collection-IsCollection request 41 1 100 41 600 world
      app redemption (at 200) true calm 11 711 refl refl refl refl refl refl refl refl refl refl
      refl refl refl refl refl (omega arith)

authorized_request : (authorize_code stores deps request 41 1 100 world).0 ≡ authorized 41 600
unfolding authorize_code
authorized_request = refl
