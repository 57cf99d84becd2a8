-- ===== src/Reset/Tests.antt =====
-- A reset for the account of the runs of Login.
use pezhwan.Base.{◌≡◌, refl, true, false, [], ◌∷◌, arith}
use pezhwan.AccountState
use pezhwan.AccountState.{answered, validate}
use pezhwan.Cache.Memory.Interface.{memory_cache, memory_cache-IsCache, new_cache}
use pezhwan.Login.{World, Tokens, password}
use pezhwan.Login.Tests.{engine_with, stores, user_with, world_with, attempt_at}
use pezhwan.Mongo.{list_collection, list_collection-IsCollection}
use pezhwan.Reset.{Passwords, reset, reset_for}
use pezhwan.Reset.Version.{reset_for-tokens_refused}

abbrev passwords : Passwords
passwords = record { accepted = λ new. true; hash_password = λ new. new }

abbrev account' : AccountState.UserDoc
account' = record { id = 7; is_active = true; token_version = 5 }

abbrev world : World (engine_with false)
world = record (world_with false 0) {
  authorization = record (world_with false 0).authorization {
    accounts = record { users = account' ∷ []; cached = new_cache 100 };
  };
}

reset_for-tokens_refused_example :
    (tokens : Tokens) × (((reset_for stores
          (engine_with false)
          passwords
          (user_with 0)
          66
          password
          (attempt_at 100)
          world).0
        ≡ reset 7 tokens)
      × ((validate list_collection memory_cache 7 tokens.access_token.token_version true 200
            (reset_for stores
              (engine_with false)
              passwords
              (user_with 0)
              66
              password
              (attempt_at 100)
              world).1.authorization.accounts).0
          ≡ answered false))
reset_for-tokens_refused_example =
    reset_for-tokens_refused stores (engine_with false) passwords list_collection-IsCollection
      memory_cache-IsCache (user_with 0) 66 200 password (attempt_at 100) world account'
      (omega arith) refl
