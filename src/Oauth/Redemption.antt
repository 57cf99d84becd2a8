-- ===== src/Oauth/Redemption.antt =====
-- What is asked before an authorization code is redeemed, in packages/core/src/services/oauth.service.ts.
use pezhwan.Base.{
  ℕ, ◌≤◌, ◌≡◌, ◌≢◌, ◌⊎◌, refl, inl, inr, Bool, true, Option, none, some, ltb, arith, Option-cases,
  Bool-cases,
}
use pezhwan.Session
use pezhwan.Session.Transaction.{DriverError}
use pezhwan.Session.{Fresh}
use pezhwan.Oauth.{
  OauthClientDoc, CodeDoc, ExchangeInput, granted, TokenResponse, Deps, Stores, World, Method, s256,
  plain, no_method, Refusal, Grant, authorization_code, find_client, by_code, verify_pkce,
  verifier_checked, code_checked, exchange, code_tokens, by_grant, is_uri, after_check,
  consumed_code, exchange_authorization_code, consume, context_of,
}
use pezhwan.Oauth.Guards.{MayAsk, exchange-MayAsk}

module _ (stores : Stores) (deps : Deps) where
  -- The verifier fits a challenge by its method.
  abbrev pub Fits : (verifier challenge : ℕ) → Method → Type 0
  Fits verifier challenge s256 = deps.challenge_of verifier ≡ challenge
  Fits verifier challenge plain = verifier ≡ challenge
  Fits verifier challenge no_method = verifier ≡ challenge

  -- What a code asks of the request that redeems it.
  pub record MayRedeem (d : CodeDoc) (input : ExchangeInput) (now : ℕ) : Type 0 where
    pub in_time : now ≤ d.expires_at
    pub same_uri : input.redirect_uri ≡ some d.redirect_uri
    pub proved :
        (d.code_challenge ≡ none)
        ⊎ ((challenge : ℕ) × (verifier : ℕ) × (d.code_challenge ≡ some challenge)
            × (input.code_verifier ≡ some verifier)
            × Fits verifier challenge d.code_challenge_method)

  verified-Fits :
      (verifier challenge : ℕ) (m : Method)
      → verify_pkce stores deps verifier challenge m ≡ true
      → Fits verifier challenge m
  unfolding verify_pkce
  verified-Fits verifier challenge s256 h = ground arith
  verified-Fits verifier challenge plain h = ground arith
  verified-Fits verifier challenge no_method h = ground arith

  uri-eq :
      (given : Option ℕ) (stored : ℕ) → is_uri stores deps given stored ≡ true → given ≡ some stored
  uri-eq none stored h = cc
  uri-eq (some x) stored h = ground arith

  verifier_checked-Fits :
      (given : Option ℕ) (challenge : ℕ) (m : Method)
      → verifier_checked stores deps given challenge m ≡ none
      → (verifier : ℕ) × (given ≡ some verifier) × Fits verifier challenge m
  verifier_checked-Fits none challenge m h = cc
  verifier_checked-Fits (some v) challenge m h =
      elim (Bool-cases (verify_pkce stores deps v challenge m)) [
        | inl right ↦ (v, refl, verified-Fits v challenge m right)
        | inr wrong ↦ cc (rw wrong at h)
      ]

  checked-MayRedeem :
      (d : CodeDoc) (input : ExchangeInput) (now : ℕ)
      → code_checked stores deps d input now ≡ none
      → MayRedeem d input now
  checked-MayRedeem d input now h = elim (Bool-cases (ltb d.expires_at now)) [
    | inl late ↦ cc (rw late at h)
    | inr in_time ↦ elim (Bool-cases (is_uri stores deps input.redirect_uri d.redirect_uri)) [
      | inr other ↦ cc (rw (in_time, other) at h)
      | inl same ↦ record {
        in_time = ground arith;
        same_uri = uri-eq input.redirect_uri d.redirect_uri same;
        proved = elim (Option-cases d.code_challenge) [
          | inl open_code ↦ inl open_code
          | inr (challenge, e) ↦
              let (v, given, fits) =
                verifier_checked-Fits input.code_verifier challenge d.code_challenge_method
                  (ground arith) in
              inr (challenge, v, e, given, fits)
        ];
      }
    ]
  ]

  after_check-refuses :
      (d : CodeDoc) (c : OauthClientDoc) (input : ExchangeInput) (hash : ℕ) (fresh : Fresh)
      (r : Refusal) (w : World deps) (t : TokenResponse)
      → (after_check stores deps d c input hash fresh (some r) w).0 ≢ granted t
  after_check-refuses d c input hash fresh Refusal.pkce_failed w t h = cc
  after_check-refuses d c input hash fresh r w t h = cc

  consumed-granted :
      (d : CodeDoc) (input : ExchangeInput) (fresh : Fresh) (taken : Option CodeDoc)
      (w : World deps) (t : TokenResponse)
      → (consumed_code stores deps d input fresh taken w).0 ≡ granted t
      → t
        ≡ code_tokens stores deps d
            (Session.create stores.sessions deps.sessions
              (context_of stores deps d input)
              fresh
              w.sessions).0
  consumed-granted d input fresh none w t h = cc
  consumed-granted d input fresh (some x) w t h = cc

  -- The redemption of a stored code, and the tokens for it.
  pub record Redeems (c : OauthClientDoc) (input : ExchangeInput) (code : ℕ) (fresh : Fresh)
      (w : World deps) (t : TokenResponse) : Type 0 where
    pub doc : CodeDoc
    pub stored :
        stores.codes.find_one
          (by_code (deps.hash_secret code) c.client_id input.tenant_id input.application_id)
          w.codes
        ≡ some doc
    pub asked : MayRedeem doc input fresh.now
    pub tokens :
        t
        ≡ code_tokens stores deps doc
            (Session.create stores.sessions deps.sessions
              (context_of stores deps doc input)
              fresh
              w.sessions).0

  found-Redeems :
      (c : OauthClientDoc) (input : ExchangeInput) (code : ℕ) (fresh : Fresh) (w : World deps)
      (t : TokenResponse)
      → (exchange_authorization_code stores deps c input (some code) fresh w).0 ≡ granted t
      → Redeems c input code fresh w t
  found-Redeems c input code fresh w t h =
      let hash = deps.hash_secret code in
      elim (Option-cases (
        stores.codes.find_one (by_code hash c.client_id input.tenant_id input.application_id)
          w.codes)) [
            | inl nothing ↦ cc (rw nothing at h)
            | inr (d, e) ↦ elim (Option-cases (code_checked stores deps d input fresh.now)) [
              | inr (r, bad) ↦
                  absurd (after_check-refuses d c input hash fresh r w t (rw (e, bad) at h))
              | inl good ↦ record {
                doc = d;
                stored = e;
                asked = checked-MayRedeem d input fresh.now good;
                tokens =
                    let (taken, codes) = consume stores deps d c input hash fresh.now w.codes in
                    consumed-granted d input fresh taken (record w { codes = codes }) t
                      (rw (e, good) at h);
              }
            ]
          ]

  given-Redeems :
      (given : Option ℕ) (c : OauthClientDoc) (input : ExchangeInput) (code : ℕ) (fresh : Fresh)
      (w : World deps) (t : TokenResponse)
      → given ≡ some code
      → (exchange_authorization_code stores deps c input given fresh w).0 ≡ granted t
      → Redeems c input code fresh w t
  given-Redeems given c input code fresh w t e h = found-Redeems c input code fresh w t (rw e at h)

  by_code_grant :
      (g : Grant) (c : OauthClientDoc) (input : ExchangeInput) (fresh : Fresh) (supported : Bool)
      (throws : ℕ → Option DriverError) (w : World deps) (t : TokenResponse)
      → g ≡ authorization_code
      → (by_grant stores deps g c input fresh supported throws w).0 ≡ granted t
      → (exchange_authorization_code stores deps c input input.code fresh w).0 ≡ granted t
  by_code_grant g c input fresh supported throws w t e h = rw e at h

  -- A code is redeemed for whom it was issued: where the token endpoint answers an authorization code
  -- with tokens, the client is authenticated, the code is stored for that client, tenant and
  -- application, is unused and has not expired, the redirect URI is the one it was issued with, a
  -- challenge that was stored with it is met by the verifier, and the tokens are those of its user in a
  -- new session.
  pub exchange-Redeems :
      (input : ExchangeInput) (code : ℕ) (fresh : Fresh) (supported : Bool)
      (throws : ℕ → Option DriverError) (w : World deps) (t : TokenResponse)
      → input.grant_type ≡ authorization_code
      → input.code ≡ some code
      → (exchange stores deps input fresh supported throws w).0 ≡ granted t
      → (c : OauthClientDoc) × (find_client stores deps input.client_id input.tenant_id
            input.application_id w
          ≡ some c)
        × MayAsk stores deps c input
        × Redeems c input code fresh w t
  exchange-Redeems input code fresh supported throws w t grant given h =
      let (c, (e, (may, done))) = exchange-MayAsk stores deps input fresh supported throws w t h in
      (
        c,
        e,
        may,
        given-Redeems input.code c input code fresh w t given
            (by_code_grant input.grant_type c input fresh supported throws w t grant done),
      )
