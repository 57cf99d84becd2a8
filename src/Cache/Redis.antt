-- ===== src/Cache/Redis.antt =====
-- RedisCacheImpl of packages/core/src/services/redisCache.ts: Redis, with the in-memory cache behind
-- it. The ioredis client is a parameter: what each command answers, where `none` is a command that
-- throws.
use pezhwan.Base.{
  ℕ, zero, suc, Bool, true, false, not, ◌||◌, Option, none, some, ◌==◌, if◌then◌else◌,
}
use pezhwan.Cache.{Key, Value}
use pezhwan.Cache.Memory
use pezhwan.Cache.Memory.{MemoryCache}

-- RedisLike, over the state of the server and of the connection. Keys are prefixed by a namespace.
pub record RedisLike (S : Type 0) : Type 0 where
  pub is_ready : S → Bool
  pub get : (namespace : ℕ) → Key → (now : ℕ) → S → Option (Option Value) × S
  pub set : (namespace : ℕ) → Key → Value → (now : ℕ) → S → Bool × S
  pub set_ex : (namespace : ℕ) → Key → Value → (ttl_seconds now : ℕ) → S → Bool × S
  pub del : (namespace : ℕ) → Key → S → Bool × S
  -- `client.incr` and `client.expire` are optional.
  pub has_counters : S → Bool
  pub incr : (namespace : ℕ) → Key → (now : ℕ) → S → Option ℕ × S
  pub expire : (namespace : ℕ) → Key → (seconds now : ℕ) → S → Bool × S

pub record RedisCacheImpl (S : Type 0) : Type 0 where
  pub memory : MemoryCache
  pub client : Option S
  pub namespace : ℕ

module _ {S : Type 0} (redis : RedisLike S) where
  -- `!this.client || this.client.status !== 'ready'`, turned round.
  abbrev pub usable : Option S → Bool
  usable none = false
  usable (some s) = redis.is_ready s

  pub set_client : Option S → RedisCacheImpl S → RedisCacheImpl S
  set_client client c = record c { client = client }

  -- The fallback of each operation.
  abbrev pub memory_get : Key → ℕ → RedisCacheImpl S → Option Value × RedisCacheImpl S
  memory_get key now c = let r = Memory.get key now c.memory in (r.0, record c { memory = r.1 })

  abbrev pub memory_set : Key → Value → ℕ → ℕ → RedisCacheImpl S → RedisCacheImpl S
  memory_set key value ttl now c = record c { memory = Memory.set key value ttl now c.memory }

  abbrev pub memory_del : Key → RedisCacheImpl S → RedisCacheImpl S
  memory_del key c = record c { memory = Memory.del key c.memory }

  abbrev pub memory_increment : Key → ℕ → ℕ → RedisCacheImpl S → Option ℕ × RedisCacheImpl S
  memory_increment key ttl now c =
      let r = Memory.increment_and_expire key ttl now c.memory in (r.0, record c { memory = r.1 })

  get_from : Option S → Key → ℕ → RedisCacheImpl S → Option Value × RedisCacheImpl S
  get_from none key now c = memory_get key now c
  get_from (some s) key now c =
      if not (redis.is_ready s)
      then memory_get key now c
      else (let (answer, s') = redis.get c.namespace key now s in
          elim answer [
            | some raw ↦ (raw, record c { client = some s' })
            | none ↦ memory_get key now (record c { client = some s' })
          ])

  pub get : Key → ℕ → RedisCacheImpl S → Option Value × RedisCacheImpl S
  unfolding get_from
  get key now c = get_from c.client key now c

  -- `ttlSeconds ? SET … EX ttlSeconds : SET …`.
  abbrev store_command : Key → Value → ℕ → ℕ → ℕ → S → Bool × S
  store_command key value zero now namespace s = redis.set namespace key value now s
  store_command key value (suc ttl) now namespace s =
      redis.set_ex namespace key value (suc ttl) now s

  set_to : Option S → Key → Value → ℕ → ℕ → RedisCacheImpl S → RedisCacheImpl S
  set_to none key value ttl now c = memory_set key value ttl now c
  set_to (some s) key value ttl now c =
      if not (redis.is_ready s)
      then memory_set key value ttl now c
      else (let (done, s') = store_command key value ttl now c.namespace s in
          if done
          then record c { client = some s' }
          else memory_set key value ttl now (record c { client = some s' }))

  pub set : Key → Value → ℕ → ℕ → RedisCacheImpl S → RedisCacheImpl S
  unfolding set_to
  set key value ttl now c = set_to c.client key value ttl now c

  del_from : Option S → Key → RedisCacheImpl S → RedisCacheImpl S
  del_from none key c = memory_del key c
  del_from (some s) key c =
      if not (redis.is_ready s)
      then memory_del key c
      else (let (done, s') = redis.del c.namespace key s in
          if done
          then record c { client = some s' }
          else memory_del key (record c { client = some s' }))

  pub del : Key → RedisCacheImpl S → RedisCacheImpl S
  unfolding del_from
  del key c = del_from c.client key c

  -- INCR, and EXPIRE when the counter is new; a throw of either falls back to the memory.
  counted : Key → ℕ → ℕ → Option ℕ → S → RedisCacheImpl S → Option ℕ × RedisCacheImpl S
  counted key ttl now none s c = memory_increment key ttl now (record c { client = some s })
  counted key ttl now (some n) s c =
      if n == 1
      then (let (done, s') = redis.expire c.namespace key ttl now s in
          if done
          then (some n, record c { client = some s' })
          else memory_increment key ttl now (record c { client = some s' }))
      else (some n, record c { client = some s })

  increment_from : Option S → Key → ℕ → ℕ → RedisCacheImpl S → Option ℕ × RedisCacheImpl S
  increment_from none key ttl now c = memory_increment key ttl now c
  increment_from (some s) key ttl now c =
      if not (redis.is_ready s) || not (redis.has_counters s)
      then memory_increment key ttl now c
      else (let (answer, s') = redis.incr c.namespace key now s in counted key ttl now answer s' c)

  pub increment_and_expire : Key → ℕ → ℕ → RedisCacheImpl S → Option ℕ × RedisCacheImpl S
  unfolding increment_from counted
  increment_and_expire key ttl now c = increment_from c.client key ttl now c

  -- `ready()` sends a real command; the probe key is a parameter.
  ready_from : Option S → Key → ℕ → RedisCacheImpl S → Bool × RedisCacheImpl S
  ready_from none probe now c = (false, c)
  ready_from (some s) probe now c =
      if not (redis.is_ready s)
      then (false, c)
      else (let (answer, s') = redis.get c.namespace probe now s in
          elim answer [
            | some raw ↦ (true, record c { client = some s' })
            | none ↦ (false, record c { client = some s' })
          ])

  pub ready : Key → ℕ → RedisCacheImpl S → Bool × RedisCacheImpl S
  unfolding ready_from
  ready probe now c = ready_from c.client probe now c
