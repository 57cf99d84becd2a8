-- ===== src/Oauth/Clients.antt =====
-- The registration of clients and their authentication, in
-- packages/core/src/services/oauth.service.ts.
use pezhwan.Base.{
  ℕ, Bool, true, false, not, ◌&&◌, List, [], ◌∷◌, Option, none, some, ◌==◌, if◌then◌else◌,
}
use pezhwan.Oauth.Model.{
  OauthClientDoc, ClientInput, Refusal, client_authentication_required, Deps, Stores, World, s256,
  plain, EndpointMethod, no_secret, client_secret_post, openid, profile_and_email, by_client,
}

module _ (stores : Stores) (deps : Deps) where
  abbrev pub find_client : (client tenant application : ℕ) → World deps → Option OauthClientDoc
  find_client client tenant application w =
      stores.clients.find_one (by_client client tenant application) w.clients

  abbrev pub in_scope : OauthClientDoc → (tenant application : ℕ) → Bool
  in_scope c tenant application = c.tenant_id == tenant && c.application_id == application

  abbrev pub is_public : Option Bool → Bool
  is_public (some false) = true
  is_public _ = false

  abbrev pub or_secret : Option ℕ → ℕ → ℕ
  or_secret none drawn = drawn
  or_secret (some s) drawn = s

  abbrev pub or_scopes : Option (List ℕ) → List ℕ
  or_scopes none = openid ∷ profile_and_email
  or_scopes (some l) = l

  abbrev pub new_client : ClientInput → (client_id secret : ℕ) → OauthClientDoc
  new_client input client_id secret =
      let open_client = is_public input.confidential in
      record {
        tenant_id = input.tenant_id;
        application_id = input.application_id;
        name = input.name;
        client_id = client_id;
        client_secret_hash = if open_client then none else some (deps.hash_secret secret);
        redirect_uris = input.redirect_uris;
        grants = input.grants;
        pkce_methods = if open_client then s256 ∷ [] else s256 ∷ plain ∷ [];
        scopes = or_scopes input.scopes;
        is_active = true;
        is_confidential = not open_client;
        token_endpoint_auth_method = if open_client then no_secret else client_secret_post;
      }

  -- The id of the client and a secret are drawn.
  unfoldable pub register_client :
      ClientInput → (client_id drawn : ℕ) → World deps → (ℕ × Option ℕ) × World deps
  register_client input client_id drawn w =
      let secret = or_secret input.client_secret drawn in
      (
        (client_id, if is_public input.confidential then none else some secret),
        record w { clients = stores.clients.create (new_client input client_id secret) w.clients },
      )

  abbrev pub secret_matches : Option ℕ → ℕ → Bool
  secret_matches none given = false
  secret_matches (some h) given = deps.hash_secret given == h

  abbrev pub secret_checked : OauthClientDoc → Option ℕ → Option Refusal
  secret_checked c none = some client_authentication_required
  secret_checked c (some given) =
      if secret_matches c.client_secret_hash given then none else some Refusal.invalid_client

  abbrev pub by_method : EndpointMethod → OauthClientDoc → Option ℕ → Option Refusal
  by_method no_secret c secret = none
  by_method _ c secret = secret_checked c secret

  -- A refusal, or none for a client that is authenticated.
  abbrev pub authenticated : OauthClientDoc → Option ℕ → Option Refusal
  authenticated c secret =
      if c.is_active
      then by_method c.token_endpoint_auth_method c secret
      else some Refusal.invalid_client
