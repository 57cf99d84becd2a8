-- ===== src/Lock.antt =====
-- packages/core/src/services/infrastructure/distributed-lock.ts: locks in Redis, by `SET NX EX` and
-- scripts that check the owner, with the fallback on the cache where the client is not ready.
pub mod Exclusion
pub mod Fallback
mod Tests
use pezhwan.Base.{
  ℕ, zero, suc, ◌+◌, ◌*◌, ◌/◌, ◌≤◌, ◌<◌, ◌≡◌, ◌≢◌, ◌⊎◌, Bool, true, false, ◌&&◌, List, [], ◌∷◌,
  Option, none, some, ◌==◌, ltb, leb, if◌then◌else◌, max,
}
use pezhwan.Cache.{Key, num, Cache}

-- A Redis server as its scripts see it: what a key holds, and two commands with their replies.
pub record Store : Type 1 where
  pub State : Type 0
  pub stored : State → (now key : ℕ) → Option ℕ
  pub del : (key now : ℕ) → State → ℕ × State
  pub pexpire : (key ttl_ms now : ℕ) → State → ℕ × State

-- The Lua of the two scripts, on KEYS[1] and the arguments ARGV, which are counted from 1.
pub data Script : Type 0 where
  return_number : ℕ → Script
  return_del : Script
  return_pexpire : (arg : ℕ) → Script
  if_get_equals : (arg : ℕ) → Script → Script → Script

abbrev pub arg_of : ℕ → List ℕ → ℕ
arg_of n [] = 0
arg_of zero (a ∷ args) = a
arg_of (suc zero) (a ∷ args) = a
arg_of (suc (suc n)) (a ∷ args) = arg_of (suc n) args

abbrev pub is_text : Option ℕ → ℕ → Bool
is_text none a = false
is_text (some v) a = v == a

pub interpret :
    (store : Store) → Script → (key : ℕ) → List ℕ → (now : ℕ) → store.State → ℕ × store.State
interpret store (return_number n) key args now s = (n, s)
interpret store return_del key args now s = store.del key now s
interpret store (return_pexpire i) key args now s = store.pexpire key (arg_of i args) now s
interpret store (if_get_equals i yes_part no_part) key args now s =
    let equal = interpret store yes_part key args now s in
    let other = interpret store no_part key args now s in
    if is_text (store.stored s now key) (arg_of i args) then equal else other

-- if redis.call("get", KEYS[1]) == ARGV[1] then return redis.call("del", KEYS[1]) else return 0 end
unfoldable pub release_script : Script
release_script = if_get_equals 1 return_del (return_number 0)

-- if redis.call("get", KEYS[1]) == ARGV[1] then return redis.call("pexpire", KEYS[1], ARGV[2])
-- else return 0 end
unfoldable pub extend_script : Script
extend_script = if_get_equals 1 (return_pexpire 2) (return_number 0)

-- The Redis client. A reply of `none` is an exception.
pub record Client : Type 1 where
  pub store : Store
  pub ready : store.State → Bool
  pub has_eval : Bool
  pub set_nx_ex : (key token ttl_seconds now : ℕ) → store.State → Option Bool × store.State
  pub get : (key now : ℕ) → store.State → Option (Option ℕ)
  pub eval : Script → (key : ℕ) → List ℕ → (now : ℕ) → store.State → Option ℕ × store.State

-- What Redis documents of them. A script runs as a whole or not at all, and a call that throws may or
-- may not have taken effect.
pub record IsClient (c : Client) : Type 1 where
  pub set_ok :
      (key token ttl now : ℕ) (s : c.store.State)
      → (c.set_nx_ex key token ttl now s).0 ≡ some true
      → (c.store.stored s now key ≡ none)
        × ((t : ℕ)
            → now ≤ t
            → t < now + ttl * 1000
            → c.store.stored (c.set_nx_ex key token ttl now s).1 t key ≡ some token)
  pub set_taken :
      (key token ttl now t owner : ℕ) (s : c.store.State)
      → c.store.stored s now key ≡ some owner
      → now ≤ t
      → c.store.stored (c.set_nx_ex key token ttl now s).1 t key ≡ c.store.stored s t key
  pub get_law :
      (key now : ℕ) (s : c.store.State)
      → (c.get key now s ≡ none) ⊎ (c.get key now s ≡ some (c.store.stored s now key))
  pub eval_law :
      (script : Script) (key : ℕ) (args : List ℕ) (now : ℕ) (s : c.store.State)
      → ((c.eval script key args now s).1 ≡ s)
        ⊎ ((c.eval script key args now s).1 ≡ (interpret c.store script key args now s).1)

pub record Lock : Type 0 where
  pub token : ℕ
  pub key : ℕ
  pub acquired_at : ℕ
  pub ttl_ms : ℕ

abbrev pub ceil_seconds : ℕ → ℕ
ceil_seconds ms = max 1 ((ms + 999) / 1000)

abbrev pub cache_key : ℕ → Key
cache_key key = record { space = 30; id = key }

abbrev pub is_one : Option ℕ → Bool
is_one none = false
is_one (some n) = n == 1

abbrev pub or_false : Option Bool → Bool
or_false none = false
or_false (some b) = b

abbrev pub lock_of : (key ttl_ms token now : ℕ) → Lock
lock_of key ttl_ms token now = record {
  token = token;
  key = key;
  acquired_at = now;
  ttl_ms = ttl_ms;
}

abbrev pub or_ttl : Option ℕ → ℕ → ℕ
or_ttl none ms = ms
or_ttl (some ms) d = ms

module _ (client : Client) (cache : Cache) where
  pub record World : Type 0 where
    pub redis : client.store.State
    pub cached : cache.State

  -- `has_client` is whether the service was given a client at all.
  abbrev pub online : (has_client : Bool) → World → Bool
  online has_client w = has_client && client.ready w.redis

  -- The fallback: `await this.client?.get(fullKey)`, which is undefined without a client.
  abbrev pub existing : (has_client : Bool) → (key now : ℕ) → World → Option (Option ℕ)
  existing false key now w = some none
  existing true key now w = client.get key now w.redis

  abbrev pub taken_or_set :
      Option (Option ℕ) → (key token ttl_seconds now : ℕ) → World → Bool × World
  taken_or_set none key token ttl now w = (false, w)
  taken_or_set (some (some owner)) key token ttl now w = (false, w)
  taken_or_set (some none) key token ttl now w =
      (true, record w { cached = cache.set (cache_key key) (num token) ttl now w.cached })

  pub try_acquire : (has_client : Bool) → (key token ttl_seconds now : ℕ) → World → Bool × World
  try_acquire has_client key token ttl now w =
      if online has_client w
      then (let (reply, s) = client.set_nx_ex key token ttl now w.redis in
          (or_false reply, record w { redis = s }))
      else taken_or_set (existing has_client key now w) key token ttl now w

  -- The loop of `acquire`: `token` and `clock` give what an attempt draws, and `meanwhile` is what
  -- others do to the stores during the sleep before the next attempt.
  pub attempts :
      (has_client : Bool)
      → (key ttl_ms : ℕ) → (token clock : ℕ → ℕ) → (meanwhile : ℕ → World → World)
      → (attempt left : ℕ) → World
      → Option Lock × World
  attempts has_client key ttl_ms token clock meanwhile attempt zero w =
      let (acquired, w') =
        try_acquire has_client key (token attempt) (ceil_seconds ttl_ms) (clock attempt) w in
      if acquired
      then (some (lock_of key ttl_ms (token attempt) (clock attempt)), w')
      else (none, w')
  attempts has_client key ttl_ms token clock meanwhile attempt (suc left) w =
      let (acquired, w') =
        try_acquire has_client key (token attempt) (ceil_seconds ttl_ms) (clock attempt) w in
      let rest =
        attempts has_client key ttl_ms token clock meanwhile (attempt + 1) left
          (meanwhile attempt w') in
      if acquired then (some (lock_of key ttl_ms (token attempt) (clock attempt)), w') else rest

  pub acquire :
      (has_client : Bool)
      → (key ttl_ms retries : ℕ) → (token clock : ℕ → ℕ) → (meanwhile : ℕ → World → World) → World
      → Option Lock × World
  unfolding attempts
  acquire has_client key ttl_ms retries token clock meanwhile =
      attempts has_client key ttl_ms token clock meanwhile 0 retries

  pub release : (has_client : Bool) → Lock → (now : ℕ) → World → Bool × World
  release has_client lock now w =
      if online has_client w && client.has_eval
      then (let (reply, s) = client.eval release_script lock.key (lock.token ∷ []) now w.redis in
          (is_one reply, record w { redis = s }))
      else (true, record w { cached = cache.del (cache_key lock.key) w.cached })

  pub extend :
      (has_client : Bool) → Lock → (new_ttl_ms : Option ℕ) → (now : ℕ) → World → Bool × World
  extend has_client lock new_ttl_ms now w =
      let ttl = or_ttl new_ttl_ms lock.ttl_ms in
      if online has_client w && client.has_eval
      then (let (reply, s) =
            client.eval extend_script lock.key (lock.token ∷ ttl ∷ []) now w.redis in
          (is_one reply, record w { redis = s }))
      else (
        true,
        record w {
          cached = cache.set (cache_key lock.key) (num lock.token) (ceil_seconds ttl) now w.cached;
        },
      )

  -- `withLock`: what `run` gives, or throws, comes after the lock has been released.
  pub with_lock :
      {R : Type 0}
      → (has_client : Bool) → Option Lock × World
      → (run : World → R × World) → (released_at : ℕ) → Option R × World
  unfolding release
  with_lock has_client (none, w) run released_at = (none, w)
  with_lock has_client (some lock, w) run released_at =
      let (r, w') = run w in
      let (released, w'') = release has_client lock released_at w' in (some r, w'')
