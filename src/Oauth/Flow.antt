-- ===== src/Oauth/Flow.antt =====
-- From the authorization to the tokens, in packages/core/src/services/oauth.service.ts.
use pezhwan.Base.{
  ℕ, ◌+◌, ◌≤◌, ◌≡◌, refl, inl, inr, Bool, true, Option, none, some, List, [], ◌∷◌, ◌++◌, arith,
  Bool-cases, not, count, find, count_mono, find-append_miss, find-none_of_count, ==_refl, any, ◌∙◌,
  if-guarded,
}
use pezhwan.Mongo.{IsCollection}
use pezhwan.Session
use pezhwan.Session.Transaction.{DriverError}
use pezhwan.Session.{Fresh}
use pezhwan.Oauth.{
  OauthClientDoc, CodeDoc, AuthorizeInput, AuthorizeResult, authorized, ExchangeInput, granted,
  TokenResponse, Deps, Stores, World, Method, s256, plain, no_method, Grant, authorization_code,
  user_subject, find_client, by_code, by_id, code_checked, exchange, authorize_code,
  authorized_client, challenged, new_code, requested, in_scope, includes, or_s256, stored_method,
  by_grant, authenticated, consume, code_tokens, context_of, exchange_authorization_code, allows,
  verify_pkce, method_eq,
}
use pezhwan.Oauth.Redemption.{Fits}
use pezhwan.Oauth.Live.{with_hash}

module _ (stores : Stores) (deps : Deps) (rules : IsCollection stores.codes) where
  -- What an authorization that was granted has stored.
  abbrev Stored : AuthorizeInput → (raw id now : ℕ) → World deps → World deps → Type 0
  Stored input raw id now w after =
      (challenge : ℕ) × (input.code_challenge ≡ some challenge)
      × (after
          ≡ record w { codes = w.codes ++ new_code stores deps input challenge raw id now ∷ [] })

  challenged-Stored :
      (o : Option ℕ) (c : OauthClientDoc) (input : AuthorizeInput) (raw id now code expiry : ℕ)
      (w : World deps)
      → input.code_challenge ≡ o
      → (challenged stores deps c input o raw id now w).0 ≡ authorized code expiry
      → Stored input raw id now w (challenged stores deps c input o raw id now w).1
  challenged-Stored none c input raw id now code expiry w e h = cc
  challenged-Stored (some ch) c input raw id now code expiry w e h =
      elim (Bool-cases
        (any (λ m. method_eq m (or_s256 stores deps input.code_challenge_method)) c.pkce_methods)) [
          | inr other ↦ cc (rw other at h)
          | inl fits ↦ (
            ch,
            e,
            rw (fits, rules.create_law (new_code stores deps input ch raw id now) w.codes) refl,
          )
        ]

  authorized-Stored :
      (o : Option OauthClientDoc) (input : AuthorizeInput) (raw id now code expiry : ℕ)
      (w : World deps)
      → (authorized_client stores deps o input raw id now w).0 ≡ authorized code expiry
      → Stored input raw id now w (authorized_client stores deps o input raw id now w).1
  authorized-Stored none input raw id now code expiry w h = cc
  authorized-Stored (some c) input raw id now code expiry w h =
      let P : AuthorizeResult × World deps → Type 0 = λ r. Stored input raw id now w r.1 in
      let v = authorized code expiry in
      if-guarded P v (not c.is_active) _ _ (λ e. cc)
        (if-guarded P v (not (in_scope stores deps c input.tenant_id input.application_id)) _ _
          (λ e. cc)
          (if-guarded P v (not (includes input.redirect_uri c.redirect_uris)) _ _ (λ e. cc)
            (if-guarded P v (not (allows authorization_code c)) _ _ (λ e. cc)
              (if-guarded P v
                (any (λ s. not (includes s c.scopes)) (requested stores deps input.scope)) _ _
                (λ e. cc)
                (challenged-Stored input.code_challenge c input raw id now code expiry w refl)))))
        h

  -- The session that a redemption creates.
  abbrev pub session_for : CodeDoc → ExchangeInput → Fresh → World deps → Session.CreatedSession
  session_for d x fresh w =
      (Session.create stores.sessions deps.sessions (context_of stores deps d x) fresh w.sessions).0

  exchange_code-grants :
      (c : OauthClientDoc) (d y : CodeDoc) (x : ExchangeInput) (code : ℕ) (fresh : Fresh)
      (w : World deps)
      → stores.codes.find_one
          (by_code (deps.hash_secret code) c.client_id x.tenant_id x.application_id)
          w.codes
        ≡ some d
      → code_checked stores deps d x fresh.now ≡ none
      → (consume stores deps d c x (deps.hash_secret code) fresh.now w.codes).0 ≡ some y
      → (exchange_authorization_code stores deps c x (some code) fresh w).0
        ≡ granted (code_tokens stores deps d (session_for d x fresh w))
  exchange_code-grants c d y x code fresh w found good taken = rw (found, good, taken) refl

  given-grants :
      (given : Option ℕ) (c : OauthClientDoc) (x : ExchangeInput) (code : ℕ) (fresh : Fresh)
      (w : World deps) (t : TokenResponse)
      → given ≡ some code
      → (exchange_authorization_code stores deps c x (some code) fresh w).0 ≡ granted t
      → (exchange_authorization_code stores deps c x given fresh w).0 ≡ granted t
  given-grants given c x code fresh w t e h = rw e h

  by_grant-grants :
      (g : Grant) (c : OauthClientDoc) (x : ExchangeInput) (fresh : Fresh) (supported : Bool)
      (throws : ℕ → Option DriverError) (w : World deps) (t : TokenResponse)
      → g ≡ authorization_code
      → (exchange_authorization_code stores deps c x x.code fresh w).0 ≡ granted t
      → (by_grant stores deps g c x fresh supported throws w).0 ≡ granted t
  by_grant-grants g c x fresh supported throws w t e h = rw e h

  exchange-grants :
      (c : OauthClientDoc) (x : ExchangeInput) (fresh : Fresh) (supported : Bool)
      (throws : ℕ → Option DriverError) (w : World deps) (t : TokenResponse)
      → find_client stores deps x.client_id x.tenant_id x.application_id w ≡ some c
      → authenticated stores deps c x.client_secret ≡ none
      → in_scope stores deps c x.tenant_id x.application_id ≡ true
      → (by_grant stores deps x.grant_type c x fresh supported throws w).0 ≡ granted t
      → (exchange stores deps x fresh supported throws w).0 ≡ granted t
  unfolding exchange
  exchange-grants c x fresh supported throws w t found entry inside h = rw (found, entry, inside) h

  -- The last of the stored codes is found by what it alone has.
  found_last :
      (p : CodeDoc → Bool) (h : ℕ) (l : List CodeDoc) (d : CodeDoc)
      → ((a : CodeDoc) → p a ≡ true → with_hash h a ≡ true)
      → count (with_hash h) l ≡ 0
      → p d ≡ true
      → find p (l ++ d ∷ []) ≡ some d
  found_last p h l d only unused own =
      find-append_miss p l (d ∷ [])
        (find-none_of_count p l (omega (arith, unused, count_mono p (with_hash h) only l)))
      ∙ rw own refl

  Fits-verified :
      (verifier challenge : ℕ) (m : Method)
      → Fits stores deps verifier challenge m
      → verify_pkce stores deps verifier challenge m ≡ true
  unfolding verify_pkce
  Fits-verified verifier challenge s256 h = ground arith
  Fits-verified verifier challenge plain h = ground arith
  Fits-verified verifier challenge no_method h = ground arith

  code_checked-none :
      (d : CodeDoc) (x : ExchangeInput) (now verifier challenge : ℕ)
      → now ≤ d.expires_at
      → x.redirect_uri ≡ some d.redirect_uri
      → d.code_challenge ≡ some challenge
      → x.code_verifier ≡ some verifier
      → Fits stores deps verifier challenge d.code_challenge_method
      → code_checked stores deps d x now ≡ none
  code_checked-none d x now verifier challenge in_time uri e given fits =
      ground (
        arith,
        Fits-verified verifier challenge d.code_challenge_method fits,
        ==_refl d.redirect_uri,
      )

  consume-last :
      (d : CodeDoc) (c : OauthClientDoc) (x : ExchangeInput) (h now : ℕ) (l : List CodeDoc)
      → count (with_hash h) l ≡ 0
      → by_code h c.client_id x.tenant_id x.application_id d ≡ true
      → (y : CodeDoc) × ((consume stores deps d c x h now (l ++ d ∷ [])).0 ≡ some y)
  unfolding consume
  consume-last d c x h now l unused own =
      let p = by_id stores deps d c x h in
      (
        record d { consumed_at = some now },
        rw
            (rules.find_one_and_update_law p (λ y. record y { consumed_at = some now })
              (l ++ d ∷ []))
            (rw
              (found_last p h l d (λ a k. ground arith) unused (ground (arith, ==_refl d.id, own)))
              refl),
      )

  requested_twice :
      (l : List ℕ) → requested stores deps (requested stores deps l) ≡ requested stores deps l
  requested_twice [] = refl
  requested_twice (s ∷ l) = refl

-- A code that is issued is good for its tokens: where an authorization is granted, the exchange of its
-- code within ten minutes by the same client, authenticated, with the redirect URI of the authorization
-- and a verifier that fits its challenge, answers with tokens for the user and the scope that were
-- authorized. No code of that hash was stored before.
pub authorized_code-exchanges :
    (stores : Stores) (deps : Deps)
    → IsCollection stores.codes
    → (input : AuthorizeInput) (raw id now code expiry : ℕ) (w : World deps) (c : OauthClientDoc)
      (x : ExchangeInput) (fresh : Fresh) (supported : Bool) (throws : ℕ → Option DriverError)
      (verifier challenge : ℕ)
    → (authorize_code stores deps input raw id now w).0 ≡ authorized code expiry
    → count (with_hash (deps.hash_secret raw)) w.codes ≡ 0
    → find_client stores deps input.client_id input.tenant_id input.application_id w ≡ some c
    → c.client_id ≡ input.client_id
    → authenticated stores deps c x.client_secret ≡ none
    → in_scope stores deps c input.tenant_id input.application_id ≡ true
    → x.grant_type ≡ authorization_code
    → x.code ≡ some raw
    → x.client_id ≡ input.client_id
    → x.tenant_id ≡ input.tenant_id
    → x.application_id ≡ input.application_id
    → x.redirect_uri ≡ some input.redirect_uri
    → input.code_challenge ≡ some challenge
    → x.code_verifier ≡ some verifier
    → Fits stores deps verifier challenge
        (stored_method stores deps (or_s256 stores deps input.code_challenge_method))
    → fresh.now ≤ now + 600000
    → (t : TokenResponse) × ((exchange stores deps x fresh supported throws
          (authorize_code stores deps input raw id now w).1).0
        ≡ granted t)
      × (t.access_token.subject ≡ user_subject input.user_id)
      × (t.scope ≡ requested stores deps input.scope)
unfolding authorize_code
authorized_code-exchanges stores deps rules input raw id now code expiry w c x fresh supported
      throws verifier challenge done unused found same_id entry inside grant given cl tenant app uri
      challenged' proof fits soon =
    let (ch, e, after) =
      authorized-Stored stores deps rules
        (find_client stores deps input.client_id input.tenant_id input.application_id w) input raw
        id now code expiry w done in
    let d = new_code stores deps input ch raw id now in
    let h = deps.hash_secret raw in
    let same_challenge : ch ≡ challenge = cc in
    let w' : World deps = record w { codes = w.codes ++ d ∷ [] } in
    let own : by_code h c.client_id x.tenant_id x.application_id d ≡ true = ground (
      arith,
      ==_refl h,
      ==_refl input.client_id,
      ==_refl input.tenant_id,
      ==_refl input.application_id,
    ) in
    let (y, taken) = consume-last stores deps rules d c x h fresh.now w.codes unused own in
    let stored : stores.codes.find_one (by_code h c.client_id x.tenant_id x.application_id) w'.codes
        ≡ some d =
      rules.find_one_law (by_code h c.client_id x.tenant_id x.application_id) w'.codes
      ∙ found_last stores deps rules (by_code h c.client_id x.tenant_id x.application_id) h w.codes
          d (λ a k. ground arith) unused own in
    let checked : code_checked stores deps d x fresh.now ≡ none =
      code_checked-none stores deps rules d x fresh.now verifier ch (omega arith) uri refl proof
        (rw same_challenge fits) in
    let t = code_tokens stores deps d (session_for stores deps rules d x fresh w') in
    (
      t,
      rw after (
          exchange-grants stores deps rules c x fresh supported throws w' t
            (rw (cl, tenant, app) found) entry (rw (tenant, app) inside)
            (by_grant-grants stores deps rules x.grant_type c x fresh supported throws w' t grant (
              given-grants stores deps rules x.code c x raw fresh w' t given (
                exchange_code-grants stores deps rules c d y x raw fresh w' stored checked
                  taken)))),
      refl,
      requested_twice stores deps rules input.scope,
    )
