-- ===== src/Oauth/Requests.antt =====
-- Which authorization requests get a code, in packages/core/src/services/oauth.service.ts.
use pezhwan.Base.{
  ℕ, ◌≡◌, ◌≢◌, ◌⊎◌, inl, inr, Bool, true, false, Option, none, some, List, [], ◌∷◌, ◌==◌, any, not,
  All, arith, Option-cases, Bool-cases, if-passed,
}
use pezhwan.Oauth.{
  OauthClientDoc, AuthorizeInput, authorized, Deps, Stores, World, Method, s256, plain, no_method,
  Grant, authorization_code, find_client, authorize_code, authorized_client, challenged, requested,
  in_scope, includes, allows, or_s256, method_eq, grant_eq, refresh_token, client_credentials,
  unknown_grant,
}

abbrev pub Member : {A : Type 0} → A → List A → Type 0
Member x [] = ⊥
Member x (y ∷ l) = (x ≡ y) ⊎ Member x l

any-Member :
    {A : Type 0} (eq : A → A → Bool)
    → ((a b : A) → eq a b ≡ true → b ≡ a)
    → (x : A) (l : List A) → any (λ y. eq y x) l ≡ true
    → Member x l
any-Member eq sound x [] h = cc
any-Member eq sound x (y ∷ l) h = elim (Bool-cases (eq y x)) [
  | inl same ↦ inl (sound y x same)
  | inr other ↦ inr (any-Member eq sound x l (rw other at h))
]

number_sound : (a b : ℕ) → (a == b) ≡ true → b ≡ a
number_sound a b h = ground arith

grant_eq_sound : (a b : Grant) → grant_eq a b ≡ true → b ≡ a
grant_eq_sound authorization_code b h = ground arith
grant_eq_sound refresh_token b h = ground arith
grant_eq_sound client_credentials b h = ground arith
grant_eq_sound unknown_grant b h = cc

method_eq_sound : (a b : Method) → method_eq a b ≡ true → b ≡ a
method_eq_sound s256 b h = ground arith
method_eq_sound plain b h = ground arith
method_eq_sound no_method b h = ground arith

allowed-Member :
    (l allowed : List ℕ)
    → any (λ s. not (includes s allowed)) l ≡ false
    → All (λ s. Member s allowed) l
allowed-Member [] allowed h = tt
allowed-Member (x ∷ l) allowed h = elim (Bool-cases (includes x allowed)) [
  | inl inside ↦
      (any-Member ◌==◌ number_sound x allowed inside, allowed-Member l allowed (rw inside at h))
  | inr outside ↦ cc (rw outside at h)
]

module _ (stores : Stores) (deps : Deps) where
  -- What an authorization asks of the request and its client.
  pub record MayAuthorize (c : OauthClientDoc) (input : AuthorizeInput) : Type 0 where
    pub active : c.is_active ≡ true
    pub tenant : c.tenant_id ≡ input.tenant_id
    pub application : c.application_id ≡ input.application_id
    pub uri : Member input.redirect_uri c.redirect_uris
    pub grant : Member authorization_code c.grants
    pub scopes : All (λ s. Member s c.scopes) (requested stores deps input.scope)
    pub challenge : input.code_challenge ≢ none
    pub method : Member (or_s256 stores deps input.code_challenge_method) c.pkce_methods

  challenged-asks :
      (o : Option ℕ) (c : OauthClientDoc) (input : AuthorizeInput) (raw id now code expiry : ℕ)
      (w : World deps)
      → (challenged stores deps c input o raw id now w).0 ≡ authorized code expiry
      → (o ≢ none) × Member (or_s256 stores deps input.code_challenge_method) c.pkce_methods
  challenged-asks none c input raw id now code expiry w h = cc
  challenged-asks (some ch) c input raw id now code expiry w h =
      elim (Bool-cases
        (any (λ m. method_eq m (or_s256 stores deps input.code_challenge_method)) c.pkce_methods)) [
          | inr other ↦ cc (rw other at h)
          | inl fits ↦ (λ e. cc, any-Member method_eq method_eq_sound _ c.pkce_methods fits)
        ]

  found-MayAuthorize :
      (c : OauthClientDoc) (input : AuthorizeInput) (raw id now code expiry : ℕ) (w : World deps)
      → (authorized_client stores deps (some c) input raw id now w).0 ≡ authorized code expiry
      → MayAuthorize c input
  found-MayAuthorize c input raw id now code expiry w h =
      let v = authorized code expiry in
      let (active, h1) = if-passed v (not c.is_active) _ _ (λ e. cc) h in
      let (inside, h2) =
        if-passed v (not (in_scope stores deps c input.tenant_id input.application_id)) _ _
          (λ e. cc) h1 in
      let (uri, h3) =
        if-passed v (not (includes input.redirect_uri c.redirect_uris)) _ _ (λ e. cc) h2 in
      let (grant, h4) = if-passed v (not (allows authorization_code c)) _ _ (λ e. cc) h3 in
      let (scopes, h5) =
        if-passed v (any (λ s. not (includes s c.scopes)) (requested stores deps input.scope)) _ _
          (λ e. cc) h4 in
      let (challenge, method) =
        challenged-asks input.code_challenge c input raw id now code expiry w h5 in
      record {
        active = ground arith;
        tenant = ground arith;
        application = ground arith;
        uri = any-Member ◌==◌ number_sound input.redirect_uri c.redirect_uris (ground arith);
        grant = any-Member grant_eq grant_eq_sound authorization_code c.grants (ground arith);
        scopes = allowed-Member (requested stores deps input.scope) c.scopes scopes;
        challenge = challenge;
        method = method;
      }

  -- A code is issued for what the client is registered for, and with PKCE: where an authorization is
  -- granted, the client is stored for the tenant and the application and is active, the redirect URI,
  -- the grant and every scope are among those of its registration, a challenge is given, and its method
  -- is one that the client may use.
  authorize_code-asks :
      (input : AuthorizeInput) (raw id now code expiry : ℕ) (w : World deps)
      → (authorize_code stores deps input raw id now w).0 ≡ authorized code expiry
      → (c : OauthClientDoc) × ((find_client stores deps input.client_id input.tenant_id
              input.application_id w
            ≡ some c)
          × MayAuthorize c input)
  unfolding authorize_code
  authorize_code-asks input raw id now code expiry w h =
      elim (Option-cases
        (find_client stores deps input.client_id input.tenant_id input.application_id w)) [
          | inl nobody ↦ cc (rw nobody at h)
          | inr (c, e) ↦ (c, (e, found-MayAuthorize c input raw id now code expiry w (rw e at h)))
        ]
