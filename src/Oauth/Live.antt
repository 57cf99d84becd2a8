-- ===== src/Oauth/Live.antt =====
-- The codes that can still be redeemed, in packages/core/src/services/oauth.service.ts.
use pezhwan.Base.{
  ℕ, ◌≤◌, ◌≡◌, refl, Bool, ◌&&◌, Option, none, some, List, ◌==◌, arith, count,
  count-update_first_le,
}
use pezhwan.Mongo.{IsCollection}
use pezhwan.Session.Transaction.{DriverError}
use pezhwan.Session.{Fresh}
use pezhwan.Oauth.{
  OauthClientDoc, CodeDoc, ExchangeInput, Deps, Stores, World, Refusal, Grant, authorization_code,
  refresh_token, client_credentials, unknown_grant, is_unused, find_client, by_code, by_id,
  code_checked, exchange, by_grant, after_check, consumed_code, found_code,
  exchange_authorization_code, exchange_refresh_token, authenticated, authenticated_client,
  found_client, consume,
}

-- A stored code with a hash, used or not; and one that is unused.
abbrev pub with_hash : ℕ → CodeDoc → Bool
with_hash h d = d.code_hash == h

abbrev pub live_with : ℕ → CodeDoc → Bool
live_with h d = with_hash h d && is_unused d.consumed_at

module _ (stores : Stores) (deps : Deps) (rules : IsCollection stores.codes) where
  pub consume-live_le :
      (d : CodeDoc) (c : OauthClientDoc) (input : ExchangeInput) (hash now h : ℕ) (l : List CodeDoc)
      → count (live_with h) (consume stores deps d c input hash now l).1 ≤ count (live_with h) l
  unfolding consume
  consume-live_le d c input hash now h l =
      rw
        (rules.find_one_and_update_law (by_id stores deps d c input hash)
          (λ x. record x { consumed_at = some now }) l)
        (count-update_first_le (live_with h) (by_id stores deps d c input hash)
          (λ x. record x { consumed_at = some now }) l (λ a. ground arith))

  module _ (h : ℕ) (input : ExchangeInput) (fresh : Fresh) where
    abbrev live : World deps → ℕ
    live w = count (live_with h) w.codes

    pub consumed_code-live :
        (d : CodeDoc) (taken : Option CodeDoc) (w : World deps)
        → live (consumed_code stores deps d input fresh taken w).1 ≡ live w
    consumed_code-live d none w = refl
    consumed_code-live d (some x) w = refl

    after_check-live_le :
        (r : Option Refusal) (d : CodeDoc) (c : OauthClientDoc) (hash : ℕ) (w : World deps)
        → live (after_check stores deps d c input hash fresh r w).1 ≤ live w
    after_check-live_le none d c hash w =
        let (taken, codes) = consume stores deps d c input hash fresh.now w.codes in
        omega (
          arith,
          consumed_code-live d taken (record w { codes = codes }),
          consume-live_le d c input hash fresh.now h w.codes,
        )
    after_check-live_le (some Refusal.pkce_failed) d c hash w = omega arith
    after_check-live_le (some r) d c hash w = omega arith

    found_code-live_le :
        (o : Option CodeDoc) (c : OauthClientDoc) (hash : ℕ) (w : World deps)
        → live (found_code stores deps c input hash fresh o w).1 ≤ live w
    found_code-live_le none c hash w = omega arith
    found_code-live_le (some d) c hash w =
        after_check-live_le (code_checked stores deps d input fresh.now) d c hash w

    exchange_code-live_le :
        (o : Option ℕ) (c : OauthClientDoc) (w : World deps)
        → live (exchange_authorization_code stores deps c input o fresh w).1 ≤ live w
    exchange_code-live_le none c w = omega arith
    exchange_code-live_le (some code) c w =
        let hash = deps.hash_secret code in
        found_code-live_le
          (stores.codes.find_one (by_code hash c.client_id input.tenant_id input.application_id)
            w.codes)
          c hash w

    module _ (supported : Bool) (throws : ℕ → Option DriverError) where
      exchange_refresh-live :
          (o : Option ℕ) (c : OauthClientDoc) (w : World deps)
          → live (exchange_refresh_token stores deps c input o fresh supported throws w).1 ≡ live w
      exchange_refresh-live none c w = ground arith
      exchange_refresh-live (some t) c w = ground arith

      by_grant-live_le :
          (g : Grant) (c : OauthClientDoc) (w : World deps)
          → live (by_grant stores deps g c input fresh supported throws w).1 ≤ live w
      by_grant-live_le authorization_code c w = exchange_code-live_le input.code c w
      by_grant-live_le refresh_token c w =
          omega (arith, exchange_refresh-live input.refresh_token c w)
      by_grant-live_le client_credentials c w = omega arith
      by_grant-live_le unknown_grant c w = omega arith

      authenticated_client-live_le :
          (r : Option Refusal) (c : OauthClientDoc) (w : World deps)
          → live (authenticated_client stores deps c input fresh supported throws r w).1 ≤ live w
      authenticated_client-live_le none c w = ground (arith, by_grant-live_le input.grant_type c w)
      authenticated_client-live_le (some r) c w = omega arith

      found_client-live_le :
          (o : Option OauthClientDoc) (w : World deps)
          → live (found_client stores deps o input fresh supported throws w).1 ≤ live w
      found_client-live_le none w = omega arith
      found_client-live_le (some c) w =
          authenticated_client-live_le (authenticated stores deps c input.client_secret) c w

      -- No exchange makes a code live again.
      pub exchange-live_le :
          (w : World deps) → live (exchange stores deps input fresh supported throws w).1 ≤ live w
      unfolding exchange
      exchange-live_le w =
          found_client-live_le
            (find_client stores deps input.client_id input.tenant_id input.application_id w) w
