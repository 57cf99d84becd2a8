-- ===== src/Reset/Version.antt =====
-- The token version after a reset.
use pezhwan.Base.{ℕ, ◌≤◌, ◌≡◌, refl, true, false, some, find, count}
use pezhwan.AccountState
use pezhwan.AccountState.{answered, validate}
use pezhwan.AccountState.Validity.{overtaken_refused}
use pezhwan.Cache.{IsCache}
use pezhwan.Login.{UserDoc, Engine, Stores, World, Attempt, Tokens, AuthMethod, mint_tokens}
use pezhwan.Mongo.{IsCollection}
use pezhwan.Reset.{Passwords, reset, reset_for}

-- The tokens that a reset hands out are of the version that the reset has just replaced: the account
-- state refuses the access token when it is presented next. The store answers and has one account for
-- the user.
pub reset_for-tokens_refused :
    (stores : Stores) (engine : Engine) (passwords : Passwords)
    (rules : IsCollection stores.authorization.users) (laws : IsCache engine.cache) (user : UserDoc)
    (new t : ℕ) (method : AuthMethod) (a : Attempt) (w : World engine) (d : AccountState.UserDoc)
    → count (AccountState.by_id user.id) w.authorization.accounts.users ≤ 1
    → find (AccountState.by_id user.id) w.authorization.accounts.users ≡ some d
    → let r = reset_for stores engine passwords user new method a w in
      (tokens : Tokens) × ((r.0 ≡ reset user.id tokens)
        × ((validate stores.authorization.users engine.cache user.id
              tokens.access_token.token_version true t r.1.authorization.accounts).0
            ≡ answered false))
unfolding reset_for mint_tokens
reset_for-tokens_refused stores engine passwords rules laws user new t method a w d one e = (
  _,
  (
    refl,
    overtaken_refused stores.authorization.users rules engine.cache laws user.id user.token_version
        t w.authorization.accounts d one e,
  ),
)
