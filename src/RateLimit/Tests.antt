-- ===== src/RateLimit/Tests.antt =====
-- Runs of the limiter with a limit of two requests a minute.
use pezhwan.Base.{ℕ, ◌≡◌, inl, refl, true, false, [], ◌∷◌, none, some, arith, min}
use pezhwan.Mongo.{list_collection, list_collection-IsCollection}
use pezhwan.Cache.{Cache}
use pezhwan.Cache.Memory.Interface.{memory_cache, new_cache}
use pezhwan.RateLimit.Window.{count_allowed}
use pezhwan.RateLimit.Durable.{durable_exact}
use pezhwan.RateLimit.{login, Rule, Service, World}

abbrev two_a_minute : Rule
two_a_minute = record { limit = 2; window_ms = 60000 }

abbrev service : Service
service = record {
  cache = memory_cache;
  has_increment = true;
  rules = λ type. some two_a_minute;
  durable_fallback = false;
}

abbrev world : World service
world = record { cached = new_cache 100; counters = [] }

-- A cache that is never ready.
abbrev down_cache : Cache
down_cache = record {
  State = ℕ;
  get = λ k now s. (none, s);
  set = λ k v ttl now s. s;
  del = λ k s. s;
  ready = λ s. false;
  increment_and_expire = λ k ttl now s. (none, s);
}

abbrev outage : Service
outage = record {
  cache = down_cache;
  has_increment = true;
  rules = λ type. some two_a_minute;
  durable_fallback = true;
}

abbrev outage_world : World outage
outage_world = record { cached = 0; counters = [] }

durable_exact_example :
    count_allowed list_collection outage login 9 true (100 ∷ 200 ∷ 300 ∷ []) outage_world ≡ min 3 2
durable_exact_example =
    durable_exact list_collection list_collection-IsCollection outage login 9 two_a_minute 100 400
      (200 ∷ 300 ∷ []) outage_world refl refl refl (omega arith)
      (omega arith, (omega arith, (omega arith, (omega arith, tt)))) (omega arith) refl (inl refl)
