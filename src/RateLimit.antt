-- ===== src/RateLimit.antt =====
-- packages/core/src/services/rateLimit.service.ts: the rate limiter and its tiers, the shared cache,
-- the durable counter of the document store, and the defensive fallback.
pub mod Window
pub mod Shared
pub mod Durable
mod Tests
use pezhwan.Base.{
  ℕ, zero, suc, ◌+◌, ◌-◌, ◌*◌, ◌/◌, ◌≡◌, Bool, true, false, ◌&&◌, not, List, Option, none, some,
  ◌==◌, ltb, leb, if◌then◌else◌, max,
}
use pezhwan.Cache.{Key, num, number_or_zero, Cache}
use pezhwan.Mongo.{Collection}

pub data RateLimitType : Type 0 where
  login register otp refresh api mfa : RateLimitType

pub record Rule : Type 0 where
  pub limit : ℕ
  pub window_ms : ℕ

pub record Decision : Type 0 where
  pub allowed : Bool
  pub remaining : ℕ
  pub retry_after_ms : ℕ
  pub limit : ℕ

-- RateLimitCounterModel; `_id` is the key.
pub record Counter : Type 0 where
  pub id : Key
  pub count : ℕ
  pub expires_at : ℕ

-- `has_increment` is whether the cache offers `incrementAndExpire`.
pub record Service : Type 1 where
  pub cache : Cache
  pub has_increment : Bool
  pub rules : RateLimitType → Option Rule
  pub durable_fallback : Bool

pub record World (service : Service) : Type 0 where
  pub cached : service.cache.State
  pub counters : List Counter

abbrev pub minutes : ℕ → ℕ
minutes n = n * 60000

abbrev pub default_rule : RateLimitType → Rule
default_rule login = record { limit = 10; window_ms = minutes 15 }
default_rule register = record { limit = 10; window_ms = minutes 15 }
default_rule otp = record { limit = 5; window_ms = minutes 10 }
default_rule refresh = record { limit = 30; window_ms = minutes 15 }
default_rule api = record { limit = 100; window_ms = minutes 15 }
default_rule mfa = record { limit = 10; window_ms = minutes 10 }

abbrev pub or_rule : Option Rule → Rule → Rule
or_rule none d = d
or_rule (some r) d = r

-- The constructor: the rules that are given, and the default for each type without one.
abbrev pub new_service : Cache → Bool → (RateLimitType → Option Rule) → Bool → Service
new_service cache has_increment rules durable = record {
  cache = cache;
  has_increment = has_increment;
  rules = λ type. some (or_rule (rules type) (default_rule type));
  durable_fallback = durable;
}

abbrev pub max_safe_integer : ℕ
max_safe_integer = 9007199254740991

abbrev pub unlimited : Decision
unlimited = record {
  allowed = true;
  remaining = max_safe_integer;
  retry_after_ms = 0;
  limit = max_safe_integer;
}

pub decision : Rule → ℕ → Decision
decision rule count =
    if ltb rule.limit count
    then record {
      allowed = false;
      remaining = 0;
      retry_after_ms = rule.window_ms;
      limit = rule.limit;
    }
    else record {
      allowed = true;
      remaining = rule.limit - count;
      retry_after_ms = 0;
      limit = rule.limit;
    }

abbrev pub type_number : RateLimitType → ℕ
type_number login = 0
type_number register = 1
type_number otp = 2
type_number refresh = 3
type_number api = 4
type_number mfa = 5

-- The scope of a call is given in lower case, to which the code brings it.
abbrev pub key_of : RateLimitType → ℕ → Key
key_of type scope = record { space = 10 + type_number type; id = scope }

abbrev pub ttl_of : Rule → ℕ
ttl_of rule = max 1 ((rule.window_ms + 999) / 1000)

abbrev pub by_key : Key → Counter → Bool
by_key k d = d.id.space == k.space && d.id.id == k.id

-- The update pipeline: a lapsed window starts again at 1, any other counts on.
abbrev pub bumped : ℕ → ℕ → Counter → Counter
bumped now ttl_seconds d =
    if leb d.expires_at now
    then record d { count = 1; expires_at = now + ttl_seconds * 1000 }
    else record d { count = d.count + 1 }

-- `(count ?? 0) || 1`.
abbrev pub or_one : ℕ → ℕ
or_one zero = 1
or_one (suc n) = suc n

module _ (db : Collection Counter) (service : Service) where
  pub mongo_increment : Key → ℕ → ℕ → World service → ℕ × World service
  mongo_increment k ttl_seconds now w =
      let (doc, l) =
        db.find_one_and_upsert (by_key k) (bumped now ttl_seconds)
          (record { id = k; count = 1; expires_at = now + ttl_seconds * 1000 }) w.counters in
      (or_one doc.count, record w { counters = l })

  -- Tier 3: read, add one, write.
  abbrev pub best_effort : Key → Rule → ℕ → World service → Decision × World service
  best_effort k rule now w =
      let (raw, s) = service.cache.get k now w.cached in
      let current = number_or_zero raw + 1 in
      (
        decision rule current,
        record w { cached = service.cache.set k (num current) (ttl_of rule) now s },
      )

  abbrev pub counted : Key → Rule → ℕ → World service → Option ℕ → Decision × World service
  counted k rule now w none = best_effort k rule now w
  counted k rule now w (some n) = (decision rule n, w)

  abbrev pub by_cache : Key → Rule → ℕ → World service → Decision × World service
  by_cache k rule now w =
      let (n, s) = service.cache.increment_and_expire k (ttl_of rule) now w.cached in
      counted k rule now (record w { cached = s }) n

  -- `mongo_up` is whether the document store answers.
  abbrev pub by_mongo :
      Key → Rule → (mongo_up : Bool) → ℕ → World service → Decision × World service
  by_mongo k rule mongo_up now w =
      if mongo_up
      then (let (n, w') = mongo_increment k (ttl_of rule) now w in (decision rule n, w'))
      else by_cache k rule now w

  abbrev pub limited : Key → Rule → (mongo_up : Bool) → ℕ → World service → Decision × World service
  limited k rule mongo_up now w =
      if service.has_increment
      then if not (service.cache.ready w.cached) && service.durable_fallback
        then by_mongo k rule mongo_up now w
        else by_cache k rule now w
      else best_effort k rule now w

  pub consume :
      RateLimitType
      → (scope : ℕ) → (mongo_up : Bool) → (now : ℕ) → World service
      → Decision × World service
  consume type scope mongo_up now w = elim (service.rules type) [
    | none ↦ (unlimited, w)
    | some rule ↦ limited (key_of type scope) rule mongo_up now w
  ]
