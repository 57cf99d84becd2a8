-- ===== src/RateLimit/Shared.antt =====
-- The first tier: the shared cache counts.
use pezhwan.Base.{
  ℕ, zero, suc, ◌+◌, ◌*◌, ◌≤◌, ◌≡◌, ◌⊎◌, inl, inr, refl, ◌∙◌, ap, Bool, true, false, ◌&&◌, not,
  List, none, some, min, arith, length,
}
use pezhwan.Mongo.{Collection}
use pezhwan.Cache.{Value, num, number_or_zero, IsCache}
use pezhwan.RateLimit.{
  Service, World, RateLimitType, Rule, decision, Counter, consume, key_of, ttl_of, by_cache,
}
use pezhwan.RateLimit.Window.{Counts, count_allowed, Ascending, allowed_exactly}

module _ (db : Collection Counter) (service : Service) (laws : IsCache service.cache)
    (type : RateLimitType) (scope : ℕ) (up : Bool) (rule : Rule) where
  -- The cache's counter, as it is read until the end of the window; a fresh one is not there.
  abbrev pub CacheHolds : ℕ → ℕ → ℕ → World service → Type 0
  CacheHolds last zero now w =
      (t : ℕ) → now ≤ t → t ≤ last → laws.lookup w.cached t (key_of type scope) ≡ none
  CacheHolds last (suc n) now w =
      (t : ℕ) → now ≤ t → t ≤ last → laws.lookup w.cached t (key_of type scope) ≡ some (num (suc n))

  add_one : (n : ℕ) → n + 1 ≡ suc n
  add_one n = omega arith

  number_held :
      (last n now t : ℕ) (w : World service)
      → CacheHolds last n now w
      → now ≤ t
      → t ≤ last
      → number_or_zero (laws.lookup w.cached t (key_of type scope)) ≡ n
  number_held last zero now t w h a b = ground (arith, h t a b)
  number_held last (suc n) now t w h a b = ground (arith, h t a b)

  value_held :
      (last n first now t : ℕ) (w : World service)
      → CacheHolds last n first w
      → first ≤ now
      → now ≤ t
      → t ≤ last
      → (laws.lookup w.cached now (key_of type scope) ≡ none)
        ⊎ ((v : Value) × (laws.lookup w.cached t (key_of type scope) ≡ some v))
  value_held last zero first now t w h a b c = inl (h now a (omega arith))
  value_held last (suc n) first now t w h a b c = inr (num (suc n), h t (omega arith) c)

  -- The service counts in the cache: it has the primitive, and is ready or has no durable fallback.
  abbrev pub CountsInCache : Type 0
  CountsInCache =
      (s : service.cache.State) → (not (service.cache.ready s) && service.durable_fallback) ≡ false

  consume-by_cache :
      (t : ℕ) (w : World service)
      → service.rules type ≡ some rule
      → service.has_increment ≡ true
      → CountsInCache
      → consume db service type scope up t w ≡ by_cache db service (key_of type scope) rule t w
  unfolding consume
  consume-by_cache t w known has inside = let out = inside w.cached in ground arith

  by_cache-counts :
      (n t : ℕ) (w : World service)
      → number_or_zero (laws.lookup w.cached t (key_of type scope)) ≡ n
      → by_cache db service (key_of type scope) rule t w ≡ (
        decision rule (n + 1),
        record w {
          cached =
              (service.cache.increment_and_expire (key_of type scope) (ttl_of rule) t w.cached).1;
        },
      )
  by_cache-counts n t w held =
      let law = laws.increment_law (key_of type scope) (ttl_of rule) t w.cached in ground arith

  cache_counts :
      (last n now t : ℕ) (w : World service)
      → service.rules type ≡ some rule
      → service.has_increment ≡ true
      → CountsInCache
      → last ≤ now + ttl_of rule * 1000
      → CacheHolds last n now w
      → now ≤ t
      → t ≤ last
      → ((consume db service type scope up t w).0 ≡ decision rule (n + 1))
        × CacheHolds last (n + 1) t (consume db service type scope up t w).1
  cache_counts last n now t w known has inside window holds after before =
      let held = number_held last n now t w holds after before in
      let whole = consume-by_cache t w known has inside ∙ by_cache-counts n t w held in
      rw whole (
        refl,
        rw (add_one n) (λ t' after' before'.
            laws.increment_kept (key_of type scope) (ttl_of rule) t t' w.cached after' (omega arith)
              (value_held last n now t t' w holds after after' before')
            ∙ (ap (λ x. some (num (x + 1))) held ∙ ap (λ x. some (num x)) (add_one n))),
      )

  abbrev cache_tier :
      (last first : ℕ)
      → service.rules type ≡ some rule
      → service.has_increment ≡ true
      → CountsInCache
      → last ≤ first + ttl_of rule * 1000
      → Counts db service type scope up rule last
  cache_tier last first known has inside window = record {
    holds = λ n now w. (first ≤ now) × CacheHolds last n now w;
    counts = λ n now t w holds after before.
        let (told, next) =
          cache_counts last n now t w known has inside (omega (arith, holds.0)) holds.1 after
            before in
        (told, (omega (arith, holds.0), next));
  }

  -- The limit of a window is exact while the cache counts: of requests whose times ascend within the
  -- window of a key that has no counter yet, the first `limit` are allowed and no more. The service
  -- has a rule for the type and the atomic increment, and does not turn to the durable counter.
  shared_exact :
      (first last : ℕ) (times : List ℕ) (w : World service)
      → service.rules type ≡ some rule
      → service.has_increment ≡ true
      → CountsInCache
      → last ≤ first + ttl_of rule * 1000
      → Ascending first last times
      → CacheHolds last 0 first w
      → count_allowed db service type scope up times w ≡ min (length times) rule.limit
  shared_exact first last times w known has inside window order fresh =
      let counted =
        allowed_exactly db service type scope up rule last
          (cache_tier last first known has inside window) 0 first times w order
          (omega arith, fresh) in
      omega (arith, counted)
