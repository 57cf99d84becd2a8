-- ===== src/AccountState.antt =====
-- packages/core/src/services/accountState.service.ts and the token-version bump of
-- authorization.service.ts: whether an access token's account still stands, behind a short cache.
pub mod Validity
mod Tests
use pezhwan.Base.{
  ℕ, ◌+◌, ◌≡◌, Bool, true, false, ◌&&◌, List, Option, none, some, ◌==◌, if◌then◌else◌,
}
use pezhwan.Cache.{Key, Value, num, account, Cache}
use pezhwan.Mongo.{Collection}

-- The fields of a user that the service reads.
pub record UserDoc : Type 0 where
  pub id : ℕ
  pub is_active : Bool
  pub token_version : ℕ

pub record State : Type 0 where
  pub exists' : Bool
  pub is_active : Bool
  pub token_version_match : Bool

pub data Answer : Type 0 where
  answered : Bool → Answer
  unverifiable : Answer

pub record World (cache : Cache) : Type 0 where
  pub users : List UserDoc
  pub cached : cache.State

abbrev pub cache_ttl_seconds : ℕ
cache_ttl_seconds = 30

abbrev pub cache_key : ℕ → Key
cache_key user = record { space = 20; id = user }

abbrev pub by_id : ℕ → UserDoc → Bool
by_id i d = d.id == i

abbrev pub state_of : Option UserDoc → ℕ → State
state_of none version = record { exists' = false; is_active = false; token_version_match = false }
state_of (some d) version = record {
  exists' = true;
  is_active = d.is_active;
  token_version_match = d.token_version == version;
}

abbrev pub holds : State → Bool
holds s = s.exists' && (s.is_active && s.token_version_match)

-- `JSON.stringify` of a state, and what `JSON.parse` makes of a cached text.
abbrev pub print : State → Value
print s = account s.exists' s.is_active s.token_version_match

abbrev pub parse : Value → State
parse (num n) = record { exists' = false; is_active = false; token_version_match = false }
parse (account a b c) = record { exists' = a; is_active = b; token_version_match = c }

module _ (db : Collection UserDoc) (cache : Cache) where
  -- `store_up` is whether the read of the store succeeds.
  abbrev pub checked : ℕ → ℕ → (store_up : Bool) → ℕ → World cache → Answer × World cache
  checked user version store_up now w =
      if store_up
      then (let state = state_of (db.find_one (by_id user) w.users) version in
          (
            answered (holds state),
            record w {
              cached = cache.set (cache_key user) (print state) cache_ttl_seconds now w.cached;
            },
          ))
      else (unverifiable, w)

  abbrev pub replied : Option Value → ℕ → ℕ → Bool → ℕ → World cache → Answer × World cache
  replied none user version store_up now w = checked user version store_up now w
  replied (some v) user version store_up now w = (answered (holds (parse v)), w)

  pub validate :
      ℕ → (version : ℕ) → (store_up : Bool) → (now : ℕ) → World cache → Answer × World cache
  validate user version store_up now w =
      let (cached, s) = cache.get (cache_key user) now w.cached in
      replied cached user version store_up now (record w { cached = s })

  pub invalidate : ℕ → World cache → World cache
  invalidate user w = record w { cached = cache.del (cache_key user) w.cached }

  -- `invalidateUserTokens` of the authorization service, where that has an account state.
  pub invalidate_user_tokens : ℕ → World cache → World cache
  unfolding invalidate
  invalidate_user_tokens user w = invalidate user (record w {
    users =
        db.update_one (by_id user) (λ d. record d { token_version = d.token_version + 1 }) w.users;
  })
