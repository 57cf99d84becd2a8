-- ===== src/Oauth/Spend.antt =====
-- A redemption takes one of the codes that can be redeemed, in
-- packages/core/src/services/oauth.service.ts.
use pezhwan.Base.{
  ℕ, ◌+◌, ◌≡◌, refl, inl, inr, Bool, Option, none, some, List, arith, Option-cases, Bool-cases,
  count, find, count-update_first, find-passes, subst,
}
use pezhwan.Mongo.{IsCollection}
use pezhwan.Session.Transaction.{DriverError}
use pezhwan.Session.{Fresh}
use pezhwan.Oauth.{
  OauthClientDoc, CodeDoc, ExchangeInput, granted, TokenResponse, Deps, Stores, World, Refusal,
  Grant, authorization_code, refresh_token, client_credentials, unknown_grant, find_client, by_code,
  by_id, code_checked, exchange, in_scope, by_grant, after_check, consumed_code, found_code,
  exchange_authorization_code, authenticated, authenticated_client, found_client, consume,
}
use pezhwan.Oauth.Live.{live_with, consumed_code-live}

module _ (stores : Stores) (deps : Deps) (rules : IsCollection stores.codes) where
  -- A redemption takes a live code of the hash.
  consume-spends :
      (d : CodeDoc) (c : OauthClientDoc) (input : ExchangeInput) (hash now : ℕ) (l : List CodeDoc)
      (x : CodeDoc)
      → (consume stores deps d c input hash now l).0 ≡ some x
      → count (live_with hash) (consume stores deps d c input hash now l).1 + 1
        ≡ count (live_with hash) l
  unfolding consume
  consume-spends d c input hash now l x h =
      let p = by_id stores deps d c input hash in
      let f : CodeDoc → CodeDoc = λ y. record y { consumed_at = some now } in
      let law = rules.find_one_and_update_law p f l in
      elim (Option-cases (find p l)) [
        | inl miss ↦ cc (rw (law, miss) at h)
        | inr (y, hit) ↦ rw law (
            ground (
              arith,
              count-update_first (live_with hash) p f l {x = y} hit,
              find-passes p l {x = y} hit,
            ))
      ]

  consumed_code-taken :
      (d : CodeDoc) (input : ExchangeInput) (fresh : Fresh) (taken : Option CodeDoc)
      (w : World deps) (t : TokenResponse)
      → (consumed_code stores deps d input fresh taken w).0 ≡ granted t
      → (x : CodeDoc) × (taken ≡ some x)
  consumed_code-taken d input fresh none w t h = cc
  consumed_code-taken d input fresh (some x) w t h = (x, refl)

  after_check-spends :
      (r : Option Refusal) (d : CodeDoc) (c : OauthClientDoc) (input : ExchangeInput) (hash : ℕ)
      (fresh : Fresh) (w : World deps) (t : TokenResponse)
      → (after_check stores deps d c input hash fresh r w).0 ≡ granted t
      → count (live_with hash) (after_check stores deps d c input hash fresh r w).1.codes + 1
        ≡ count (live_with hash) w.codes
  after_check-spends none d c input hash fresh w t h =
      let (taken, codes) = consume stores deps d c input hash fresh.now w.codes in
      let w' : World deps = record w { codes = codes } in
      let (x, e) = consumed_code-taken d input fresh taken w' t h in
      omega (
        arith,
        consumed_code-live stores deps rules hash input fresh d taken w',
        consume-spends d c input hash fresh.now w.codes x e,
      )
  after_check-spends (some Refusal.pkce_failed) d c input hash fresh w t h = cc
  after_check-spends (some r) d c input hash fresh w t h = cc

  found_code-spends :
      (o : Option CodeDoc) (c : OauthClientDoc) (input : ExchangeInput) (hash : ℕ) (fresh : Fresh)
      (w : World deps) (t : TokenResponse)
      → (found_code stores deps c input hash fresh o w).0 ≡ granted t
      → count (live_with hash) (found_code stores deps c input hash fresh o w).1.codes + 1
        ≡ count (live_with hash) w.codes
  found_code-spends none c input hash fresh w t h = cc
  found_code-spends (some d) c input hash fresh w t h =
      after_check-spends (code_checked stores deps d input fresh.now) d c input hash fresh w t h

  module _ (input : ExchangeInput) (code : ℕ) (fresh : Fresh) (supported : Bool)
      (throws : ℕ → Option DriverError) (t : TokenResponse) where
    -- The codes of the hash that are live before are one more than those after.
    abbrev pub Spends : World deps → World deps → Type 0
    Spends w w' =
        count (live_with (deps.hash_secret code)) w'.codes + 1
        ≡ count (live_with (deps.hash_secret code)) w.codes

    exchange_code-Spends :
        (o : Option ℕ) (c : OauthClientDoc) (w : World deps)
        → o ≡ some code
        → (exchange_authorization_code stores deps c input o fresh w).0 ≡ granted t
        → Spends w (exchange_authorization_code stores deps c input o fresh w).1
    exchange_code-Spends none c w e h = cc
    exchange_code-Spends (some other) c w e h =
        let same : other ≡ code = cc in
        let hash = deps.hash_secret other in
        subst
          (λ k.
            count (live_with (deps.hash_secret k))
                (exchange_authorization_code stores deps c input (some other) fresh w).1.codes
              + 1
            ≡ count (live_with (deps.hash_secret k)) w.codes)
          same
          (found_code-spends
            (stores.codes.find_one (by_code hash c.client_id input.tenant_id input.application_id)
              w.codes)
            c input hash fresh w t h)

    by_grant-Spends :
        (g : Grant) (c : OauthClientDoc) (w : World deps)
        → g ≡ authorization_code
        → input.code ≡ some code
        → (by_grant stores deps g c input fresh supported throws w).0 ≡ granted t
        → Spends w (by_grant stores deps g c input fresh supported throws w).1
    by_grant-Spends authorization_code c w e given h = exchange_code-Spends input.code c w given h
    by_grant-Spends refresh_token c w e given h = cc
    by_grant-Spends client_credentials c w e given h = cc
    by_grant-Spends unknown_grant c w e given h = cc

    authenticated_client-Spends :
        (r : Option Refusal) (c : OauthClientDoc) (w : World deps)
        → input.grant_type ≡ authorization_code
        → input.code ≡ some code
        → (authenticated_client stores deps c input fresh supported throws r w).0 ≡ granted t
        → Spends w (authenticated_client stores deps c input fresh supported throws r w).1
    authenticated_client-Spends (some r) c w e given h = cc
    authenticated_client-Spends none c w e given h =
        elim (Bool-cases (in_scope stores deps c input.tenant_id input.application_id)) [
          | inr out ↦ cc (rw out at h)
          | inl inside ↦ rw inside (by_grant-Spends input.grant_type c w e given (rw inside at h))
        ]

    found_client-Spends :
        (o : Option OauthClientDoc) (w : World deps)
        → input.grant_type ≡ authorization_code
        → input.code ≡ some code
        → (found_client stores deps o input fresh supported throws w).0 ≡ granted t
        → Spends w (found_client stores deps o input fresh supported throws w).1
    found_client-Spends none w e given h = cc
    found_client-Spends (some c) w e given h =
        authenticated_client-Spends (authenticated stores deps c input.client_secret) c w e given h

    pub exchange-Spends :
        (w : World deps)
        → input.grant_type ≡ authorization_code
        → input.code ≡ some code
        → (exchange stores deps input fresh supported throws w).0 ≡ granted t
        → Spends w (exchange stores deps input fresh supported throws w).1
    unfolding exchange
    exchange-Spends w e given h =
        found_client-Spends
          (find_client stores deps input.client_id input.tenant_id input.application_id w) w e given
          h
