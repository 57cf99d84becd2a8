-- ===== src/Oauth/Once.antt =====
-- Authorization codes are used once, in packages/core/src/services/oauth.service.ts.
use pezhwan.Base.{
  ℕ, ◌≤◌, ◌<◌, ◌≡◌, ◌≢◌, refl, Bool, Option, none, some, List, [], ◌∷◌, arith, count, find,
  count-append, count_mono, count_pos_of_find, sym, ◌∙◌,
}
use pezhwan.Mongo.{IsCollection}
use pezhwan.Session.Transaction.{DriverError}
use pezhwan.Session
use pezhwan.Session.{Fresh}
use pezhwan.Oauth.{
  OauthClientDoc, CodeDoc, ClientInput, AuthorizeInput, ExchangeInput, granted, TokenResponse, Deps,
  Stores, World, authorization_code, find_client, by_code, exchange, register_client,
  authorize_code, authorized_client, challenged, new_code,
}
use pezhwan.Oauth.Redemption.{exchange-Redeems}
use pezhwan.Oauth.Live.{with_hash, live_with, exchange-live_le}
use pezhwan.Oauth.Spend.{exchange-Spends}

-- What may happen next, but for a new code of the hash `h`: any request, and any change of the sessions.
pub data Step (stores : Stores) (deps : Deps) (h : ℕ) (w : World deps) : World deps → Type 0 where
  registers :
      (input : ClientInput) (id drawn : ℕ)
      → Step stores deps h w (register_client stores deps input id drawn w).1
  authorizes :
      (input : AuthorizeInput) (raw id now : ℕ)
      → deps.hash_secret raw ≢ h
      → Step stores deps h w (authorize_code stores deps input raw id now w).1
  exchanges :
      (input : ExchangeInput) (fresh : Fresh) (supported : Bool) (throws : ℕ → Option DriverError)
      → Step stores deps h w (exchange stores deps input fresh supported throws w).1
  sessions_change :
      (s : Session.World deps.sessions) → Step stores deps h w (record w { sessions = s })

pub data Reach (stores : Stores) (deps : Deps) (h : ℕ) (w : World deps) : World deps → Type 0 where
  here : Reach stores deps h w w
  next :
      {u v : World deps}
      → Reach stores deps h w u
      → Step stores deps h u v
      → Reach stores deps h w v

module _ (stores : Stores) (deps : Deps) (rules : IsCollection stores.codes) (h : ℕ) where
  challenged-live :
      (o : Option ℕ) (c : OauthClientDoc) (input : AuthorizeInput) (raw id now : ℕ) (w : World deps)
      → deps.hash_secret raw ≢ h
      → count (live_with h) (challenged stores deps c input o raw id now w).1.codes
        ≡ count (live_with h) w.codes
  challenged-live none c input raw id now w other = refl
  challenged-live (some ch) c input raw id now w other = ground (
    arith,
    rules.create_law (new_code stores deps input ch raw id now) w.codes,
    count-append (live_with h) w.codes (new_code stores deps input ch raw id now ∷ []),
  )

  authorized_client-live :
      (o : Option OauthClientDoc) (input : AuthorizeInput) (raw id now : ℕ) (w : World deps)
      → deps.hash_secret raw ≢ h
      → count (live_with h) (authorized_client stores deps o input raw id now w).1.codes
        ≡ count (live_with h) w.codes
  authorized_client-live none input raw id now w other = refl
  authorized_client-live (some c) input raw id now w other =
      ground (arith, challenged-live input.code_challenge c input raw id now w)

  Step-live :
      {w u : World deps}
      → Step stores deps h w u
      → count (live_with h) w.codes ≡ 0
      → count (live_with h) u.codes ≡ 0
  unfolding register_client authorize_code
  Step-live {w} (registers input id drawn) e = e
  Step-live {w} (authorizes input raw id now other) e = omega (
    arith,
    authorized_client-live
        (find_client stores deps input.client_id input.tenant_id input.application_id w) input raw
        id now w other,
  )
  Step-live {w} (exchanges input fresh supported throws) e =
      omega (arith, exchange-live_le stores deps rules h input fresh supported throws w)
  Step-live (sessions_change s) e = e

  Reach-live :
      {w u : World deps}
      → Reach stores deps h w u
      → count (live_with h) w.codes ≡ 0
      → count (live_with h) u.codes ≡ 0
  Reach-live here e = e
  Reach-live (next r step) e = Step-live step (Reach-live r e)

  -- A code that is found is live.
  found-live :
      (client tenant application : ℕ) (l : List CodeDoc) (d : CodeDoc)
      → stores.codes.find_one (by_code h client tenant application) l ≡ some d
      → 0 < count (live_with h) l
  found-live client tenant application l d e =
      let e' : find (by_code h client tenant application) l ≡ some d =
        sym (rules.find_one_law (by_code h client tenant application) l) ∙ e in
      omega (
        arith,
        count_pos_of_find (by_code h client tenant application) l {x = d} e',
        count_mono (by_code h client tenant application) (live_with h) (λ a k. ground arith) l,
      )

-- An authorization code is good once: after an exchange that answered with tokens, no later exchange
-- with that code, by whichever client, answers with tokens, whatever requests and changes of the
-- sessions come in between. At most one code of the hash was stored, and no new one is drawn.
pub redeemed_once :
    (stores : Stores) (deps : Deps)
    → IsCollection stores.codes
    → (input : ExchangeInput) (code : ℕ) (fresh : Fresh) (supported : Bool)
      (throws : ℕ → Option DriverError) (w u : World deps) (t : TokenResponse)
    → count (with_hash (deps.hash_secret code)) w.codes ≤ 1
    → input.grant_type ≡ authorization_code
    → input.code ≡ some code
    → (exchange stores deps input fresh supported throws w).0 ≡ granted t
    → Reach stores deps
        (deps.hash_secret code)
        (exchange stores deps input fresh supported throws w).1
        u
    → (again : ExchangeInput) (fresh2 : Fresh) (supported2 : Bool)
      (throws2 : ℕ → Option DriverError) (t2 : TokenResponse)
    → again.grant_type ≡ authorization_code
    → again.code ≡ some code
    → (exchange stores deps again fresh2 supported2 throws2 u).0 ≢ granted t2
redeemed_once stores deps rules input code fresh supported throws w u t unique grant given done
      reach again fresh2 supported2 throws2 t2 grant2 given2 done2 =
    let h = deps.hash_secret code in
    let spent : count (live_with h) (exchange stores deps input fresh supported throws w).1.codes
        ≡ 0 =
      omega (
        arith,
        unique,
        count_mono (live_with h) (with_hash h) (λ a k. ground arith) w.codes,
        exchange-Spends stores deps rules input code fresh supported throws t w grant given done,
      ) in
    let (c, _, _, r) =
      exchange-Redeems stores deps again code fresh2 supported2 throws2 u t2 grant2 given2 done2 in
    absurd (
      omega (
        arith,
        Reach-live stores deps rules h reach spent,
        found-live stores deps rules h c.client_id again.tenant_id again.application_id u.codes
            r.doc r.stored,
      ))
