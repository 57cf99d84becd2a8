-- ===== src/RateLimit/Durable.antt =====
-- The second tier: the durable counter of the document store, while the cache is down.
use pezhwan.Base.{
  ℕ, suc, ◌+◌, ◌*◌, ◌≤◌, ◌<◌, ◌≡◌, ◌⊎◌, inl, inr, refl, ap, subst, true, false, List, [], ◌∷◌, none,
  some, min, arith, length, find, find-append_miss, find-update_first_unique, find-passes,
  update_first, count, count-append, count_of_find-none, count-update_first_same, Option-cases,
  ==_refl,
}
use pezhwan.Mongo.{Collection, IsCollection, list_collection, list_collection_unique}
use pezhwan.RateLimit.{
  Service, World, RateLimitType, Rule, decision, Counter, consume, mongo_increment, key_of, ttl_of,
  by_key, bumped,
}
use pezhwan.RateLimit.Window.{Counts, count_allowed, Ascending, allowed_exactly, decision-allowed}

module _ (service : Service) (type : RateLimitType) (scope : ℕ) (rule : Rule) where
  -- The durable counter of a window that ends at `end`.
  abbrev pub StoreHolds : ℕ → ℕ → World service → Type 0
  StoreHolds end n w =
      (d : Counter) × ((find (by_key (key_of type scope)) w.counters ≡ some d)
        × ((d.count ≡ n) × (d.expires_at ≡ end)))

  -- There is no counter, or one whose window has lapsed.
  abbrev pub IsLapsed : ℕ → World service → Type 0
  IsLapsed now w =
      (find (by_key (key_of type scope)) w.counters ≡ none)
      ⊎ ((d : Counter) × ((find (by_key (key_of type scope)) w.counters ≡ some d)
            × (d.expires_at ≤ now)))

  bump_found :
      (t : ℕ) (l : List Counter) (d : Counter)
      → count (by_key (key_of type scope)) l ≤ 1
      → find (by_key (key_of type scope)) l ≡ some d
      → find
          (by_key (key_of type scope))
          (update_first (by_key (key_of type scope)) (bumped t (ttl_of rule)) l)
        ≡ some (bumped t (ttl_of rule) d)
  bump_found t l d one e =
      let p = by_key (key_of type scope) in
      find-update_first_unique p p (bumped t (ttl_of rule)) l {x = d} (λ a. ground arith) e
        (find-passes p l {x = d} e) one

  consume-by_mongo :
      (t : ℕ) (w : World service)
      → service.rules type ≡ some rule
      → service.has_increment ≡ true
      → service.durable_fallback ≡ true
      → service.cache.ready w.cached ≡ false
      → consume list_collection service type scope true t w ≡ (
        decision rule
            (mongo_increment list_collection service (key_of type scope) (ttl_of rule) t w).0,
        (mongo_increment list_collection service (key_of type scope) (ttl_of rule) t w).1,
      )
  unfolding consume
  consume-by_mongo t w known has durable down = ground arith

  abbrev pub Single : World service → Type 0
  Single w = count (by_key (key_of type scope)) w.counters ≤ 1

  abbrev increment : ℕ → World service → ℕ × World service
  increment = mongo_increment list_collection service (key_of type scope) (ttl_of rule)

  increment_kept :
      (t : ℕ) (w : World service)
      → Single w
      → (Single (increment t w).1) × ((increment t w).1.cached ≡ w.cached)
  unfolding mongo_increment
  increment_kept t w one =
      let p = by_key (key_of type scope) in
      let fresh : Counter = record {
        id = key_of type scope;
        count = 1;
        expires_at = t + ttl_of rule * 1000;
      } in
      elim (Option-cases (find p w.counters)) [
        | inl out ↦
            ground
              (arith, count-append p w.counters (fresh ∷ []), count_of_find-none p w.counters out)
        | inr (d, e) ↦ ground (
          arith,
          count-update_first_same p p (bumped t (ttl_of rule)) w.counters (λ a. ground arith),
        )
      ]

  increment_first :
      (t : ℕ) (w : World service)
      → Single w
      → IsLapsed t w
      → ((increment t w).0 ≡ 1) × StoreHolds (t + ttl_of rule * 1000) 1 (increment t w).1
  unfolding mongo_increment
  increment_first t w one (inl out) =
      let p = by_key (key_of type scope) in
      let fresh : Counter = record {
        id = key_of type scope;
        count = 1;
        expires_at = t + ttl_of rule * 1000;
      } in
      (
        ground arith,
        (
          fresh,
          (
            ground (
              arith,
              find-append_miss p w.counters (fresh ∷ []) out,
              ==_refl (key_of type scope).space,
              ==_refl (key_of type scope).id,
            ),
            (refl, refl),
          ),
        ),
      )
  increment_first t w one (inr (d, (e, lapsed))) =
      let p = by_key (key_of type scope) in
      (
        ground arith,
        (
          bumped t (ttl_of rule) d,
          (ground (arith, bump_found t w.counters d one e), (ground arith, ground arith)),
        ),
      )

  increment_next :
      (end n t : ℕ) (w : World service)
      → Single w
      → t < end
      → StoreHolds end n w
      → ((increment t w).0 ≡ n + 1) × StoreHolds end (n + 1) (increment t w).1
  unfolding mongo_increment
  increment_next end n t w one open' (d, (e, (c, x))) = (
    ground arith,
    (
      bumped t (ttl_of rule) d,
      (ground (arith, bump_found t w.counters d one e), (ground arith, ground arith)),
    ),
  )

  -- Redis is down and the service falls back on the store.
  abbrev pub Down : World service → Type 0
  Down w = service.cache.ready w.cached ≡ false

  abbrev durable_tier :
      (end : ℕ)
      → service.rules type ≡ some rule
      → service.has_increment ≡ true
      → service.durable_fallback ≡ true
      → (last : ℕ) → last < end
      → Counts list_collection service type scope true rule last
  durable_tier end known has durable last before_end = record {
    holds = λ n now w. StoreHolds end n w × (Single w × Down w);
    counts = λ n now t w holds after before.
        let whole = consume-by_mongo t w known has durable holds.1.1 in
        let (told, next) = increment_next end n t w holds.1.0 (omega arith) holds.0 in
        let (one, same) = increment_kept t w holds.1.0 in
        rw whole (ap (decision rule) told, (next, (one, rw same holds.1.1)));
  }

  durable_list :
      (first last : ℕ) (more : List ℕ) (w : World service)
      → service.rules type ≡ some rule
      → service.has_increment ≡ true
      → service.durable_fallback ≡ true
      → last < first + ttl_of rule * 1000
      → Ascending first last more
      → Single w
      → Down w
      → IsLapsed first w
      → count_allowed list_collection service type scope true (first ∷ more) w
        ≡ min (suc (length more)) rule.limit
  durable_list first last more w known has durable window order one down lapsed =
      let whole = consume-by_mongo first w known has durable down in
      let (told, started) = increment_first first w one lapsed in
      let (one', same) = increment_kept first w one in
      let end = first + ttl_of rule * 1000 in
      let counted =
        allowed_exactly list_collection service type scope true rule last
          (durable_tier end known has durable last window) 1 first more (increment first w).1 order
          (started, (one', rw same down)) in
      let here = decision-allowed list_collection service type scope true rule 1 in
      rw (whole, told) (ground (arith, here, counted))

-- The limit holds through an outage of the cache where the durable fallback is switched on, which it is
-- not by default: of requests of one type and scope whose times ascend within one window of the durable
-- counter, the first when there is none or it has lapsed, the first `limit` are allowed and no more. The
-- cache has `incrementAndExpire` but is not ready throughout, the store answers throughout, and it has
-- at most one counter for the key.
pub durable_exact :
    (db : Collection Counter) (rules : IsCollection db) (service : Service) (type : RateLimitType)
    (scope : ℕ) (rule : Rule) (first last : ℕ) (more : List ℕ) (w : World service)
    → service.rules type ≡ some rule
    → service.has_increment ≡ true
    → service.durable_fallback ≡ true
    → last < first + ttl_of rule * 1000
    → Ascending first last more
    → Single service type scope rule w
    → Down service type scope rule w
    → IsLapsed service type scope rule first w
    → count_allowed db service type scope true (first ∷ more) w ≡ min (suc (length more)) rule.limit
durable_exact db rules service type scope rule first last more w known has durable window order one
      down lapsed =
    subst
      (λ c.
        count_allowed c service type scope true (first ∷ more) w
        ≡ min (suc (length more)) rule.limit)
      (list_collection_unique db rules)
      (durable_list service type scope rule first last more w known has durable window order one
        down lapsed)
