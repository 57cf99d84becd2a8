-- ===== src/Oauth/Guards.antt =====
-- Who gets tokens from the token endpoint of packages/core/src/services/oauth.service.ts.
use pezhwan.Base.{
  ℕ, ◌≡◌, ◌⊎◌, refl, inl, inr, Bool, true, Option, none, some, arith, Option-cases, Bool-cases,
}
use pezhwan.Session.Transaction.{DriverError}
use pezhwan.Session.{Fresh}
use pezhwan.Oauth.{
  OauthClientDoc, ExchangeInput, granted, TokenResponse, Deps, Stores, World, EndpointMethod,
  no_secret, client_secret_basic, client_secret_post, find_client, authenticated, by_method,
  secret_checked, secret_matches, in_scope, exchange, by_grant, found_client,
}

module _ (stores : Stores) (deps : Deps) where
  -- The client has no secret to give, or gave the one whose hash is stored.
  abbrev pub GaveSecret : OauthClientDoc → Option ℕ → Type 0
  GaveSecret c secret =
      (c.token_endpoint_auth_method ≡ no_secret)
      ⊎ ((s : ℕ) × ((secret ≡ some s) × (c.client_secret_hash ≡ some (deps.hash_secret s))))

  -- What the token endpoint asks of a client.
  pub record MayAsk (c : OauthClientDoc) (input : ExchangeInput) : Type 0 where
    pub active : c.is_active ≡ true
    pub secret : GaveSecret c input.client_secret
    pub tenant : c.tenant_id ≡ input.tenant_id
    pub application : c.application_id ≡ input.application_id

  matched_secret :
      (stored : Option ℕ) (given : ℕ)
      → secret_matches stores deps stored given ≡ true
      → stored ≡ some (deps.hash_secret given)
  matched_secret none given h = cc
  matched_secret (some x) given h = ground arith

  checked-GaveSecret :
      (c : OauthClientDoc) (secret : Option ℕ)
      → secret_checked stores deps c secret ≡ none
      → GaveSecret c secret
  checked-GaveSecret c none h = cc
  checked-GaveSecret c (some s) h =
      elim (Bool-cases (secret_matches stores deps c.client_secret_hash s)) [
        | inl right ↦ inr (s, (refl, matched_secret c.client_secret_hash s right))
        | inr wrong ↦ cc (rw wrong at h)
      ]

  by_method-GaveSecret :
      (m : EndpointMethod) (c : OauthClientDoc) (secret : Option ℕ)
      → c.token_endpoint_auth_method ≡ m
      → by_method stores deps m c secret ≡ none
      → GaveSecret c secret
  by_method-GaveSecret no_secret c secret e h = inl e
  by_method-GaveSecret client_secret_basic c secret e h = checked-GaveSecret c secret h
  by_method-GaveSecret client_secret_post c secret e h = checked-GaveSecret c secret h

  found-MayAsk :
      (c : OauthClientDoc) (input : ExchangeInput) (fresh : Fresh) (supported : Bool)
      (throws : ℕ → Option DriverError) (w : World deps) (t : TokenResponse)
      → (found_client stores deps (some c) input fresh supported throws w).0 ≡ granted t
      → MayAsk c input
        × ((by_grant stores deps input.grant_type c input fresh supported throws w).0 ≡ granted t)
  found-MayAsk c input fresh supported throws w t h =
      elim (Option-cases (authenticated stores deps c input.client_secret)) [
        | inr (r, no_entry) ↦ cc (rw no_entry at h)
        | inl entry ↦ elim (Bool-cases c.is_active) [
          | inr off ↦ cc (rw off at entry)
          | inl active ↦
              elim (Bool-cases (in_scope stores deps c input.tenant_id input.application_id)) [
                | inr out ↦ cc (rw (entry, out) at h)
                | inl inside ↦ (
                  record {
                    active = active;
                    secret =
                        by_method-GaveSecret c.token_endpoint_auth_method c input.client_secret refl
                          (ground arith);
                    tenant = ground arith;
                    application = ground arith;
                  },
                  rw (entry, inside) at h,
                )
              ]
        ]
      ]

  -- Nobody gets tokens who is not a client: where the token endpoint answers with tokens, whatever the
  -- grant, the client is stored for the tenant and the application of the request, is active, and gave
  -- the secret whose hash is stored, or is registered to have none.
  pub exchange-MayAsk :
      (input : ExchangeInput) (fresh : Fresh) (supported : Bool) (throws : ℕ → Option DriverError)
      (w : World deps) (t : TokenResponse)
      → (exchange stores deps input fresh supported throws w).0 ≡ granted t
      → (c : OauthClientDoc) × ((find_client stores deps input.client_id input.tenant_id
              input.application_id w
            ≡ some c)
          × (MayAsk c input
              × ((by_grant stores deps input.grant_type c input fresh supported throws w).0
                  ≡ granted t)))
  unfolding exchange
  exchange-MayAsk input fresh supported throws w t h =
      elim (Option-cases
        (find_client stores deps input.client_id input.tenant_id input.application_id w)) [
          | inl nobody ↦ cc (rw nobody at h)
          | inr (c, e) ↦ (c, (e, found-MayAsk c input fresh supported throws w t (rw e at h)))
        ]
