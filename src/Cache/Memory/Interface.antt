-- ===== src/Cache/Memory/Interface.antt =====
-- MemoryCache of packages/core/src/services/redisCache.ts as a RedisCache.
use pezhwan.Base.{
  sym, ℕ, suc, ◌+◌, ◌*◌, ◌≤◌, ◌≡◌, refl, ◌⊎◌, true, false, not, List, [], ◌∷◌, ◌++◌, none, some,
  arith, leb, if◌then◌else◌, find-append_miss,
}
use pezhwan.Cache.{Key, key_eq, key_eq_iff, Value, num, number_or_zero, Cache, IsCache}
use pezhwan.Cache.Memory.{
  Entry, MemoryCache, map_get, map_delete, make_room, deadline, get, set, del, live_count,
  increment_and_expire,
}
use pezhwan.Cache.Memory.Laws.{
  lookup, Distinct, map_get-map_delete, map_get-map_delete_other, map_get-map_set, Distinct-filter,
  Distinct-concat, Distinct-map_set, Distinct-make_room, Shrinks-make_room, map_get-make_room-none,
}

abbrev pub Store : Type 0
Store = (c : MemoryCache) × Distinct c.store

pub get-Distinct :
    (k : Key) (now : ℕ) (c : MemoryCache) → Distinct c.store → Distinct (get k now c).1.store
unfolding get
get-Distinct k now c d =
    ground (arith, Distinct-filter (λ (e : Entry). not (key_eq e.key k)) c.store d)

abbrev left_over : Key → ℕ → MemoryCache → List Entry
left_over k now c = make_room now c.max_entries (map_delete k c.store)

left_over-Distinct :
    (k : Key) (now : ℕ) (c : MemoryCache) → Distinct c.store → Distinct (left_over k now c)
left_over-Distinct k now c d =
    Distinct-make_room now c.max_entries (map_delete k c.store) (Distinct-filter _ c.store d)

left_over-none : (k : Key) (now : ℕ) (c : MemoryCache) → map_get k (left_over k now c) ≡ none
left_over-none k now c = map_get-make_room-none now _ k _ (map_get-map_delete k c.store)

pub set-Distinct :
    (k : Key) (v : Value) (ttl now : ℕ) (c : MemoryCache)
    → Distinct c.store
    → Distinct (set k v ttl now c).store
unfolding set
set-Distinct k v ttl now c d =
    Distinct-concat (left_over k now c) _ (left_over-Distinct k now c d) (left_over-none k now c)

get-lookup : (k : Key) (now : ℕ) (c : MemoryCache) → (get k now c).0 ≡ lookup c now k
unfolding get
get-lookup k now c = ground arith

lookup-get :
    (k j : Key) (now t : ℕ) (c : MemoryCache) → now ≤ t → lookup (get k now c).1 t j ≡ lookup c t j
unfolding get
lookup-get k j now t c h =
    ground
      (arith, map_get-map_delete k c.store, map_get-map_delete_other k j c.store, key_eq_iff k j)

lookup-set_self :
    (k : Key) (v : Value) (ttl now t : ℕ) (c : MemoryCache)
    → lookup (set k v (suc ttl) now c) t k ≡ (if leb t (now + suc ttl * 1000) then some v else none)
unfolding set deadline
lookup-set_self k v ttl now t c =
    let x : Entry = record { key = k; value = v; expires_at = now + suc ttl * 1000 } in
    ground (
      arith,
      find-append_miss (λ (e : Entry). key_eq e.key k) (left_over k now c) (x ∷ [])
          (left_over-none k now c),
    )

map_get-append_other :
    (k j : Key) (l : List Entry) (x : Entry)
    → x.key ≡ k
    → key_eq k j ≡ false
    → map_get j (l ++ x ∷ []) ≡ map_get j l
map_get-append_other k j [] x e h = ground arith
map_get-append_other k j (y ∷ l) x e h = ground (arith, map_get-append_other k j l x e h)

pub increment-Distinct :
    (k : Key) (ttl now : ℕ) (c : MemoryCache)
    → Distinct c.store
    → Distinct (increment_and_expire k ttl now c).1.store
unfolding increment_and_expire
increment-Distinct k ttl now c d = Distinct-map_set _ c.store d

lookup-set_other :
    (k j : Key) (v : Value) (ttl now t : ℕ) (c : MemoryCache)
    → Distinct c.store
    → key_eq k j ≡ false
    → now ≤ t
    → (lookup (set k v ttl now c) t j ≡ none) ⊎ (lookup (set k v ttl now c) t j ≡ lookup c t j)
unfolding set
lookup-set_other k j v ttl now t c d h le =
    let x : Entry = record { key = k; value = v; expires_at = deadline ttl now } in
    rw (map_get-append_other k j (left_over k now c) x refl h) (
      ground (
        arith,
        Shrinks-make_room now c.max_entries t j (map_delete k c.store) le
            (Distinct-filter _ c.store d),
        map_get-map_delete_other k j c.store h,
      ))

lookup-del_other :
    (k j : Key) (t : ℕ) (c : MemoryCache) → key_eq k j ≡ false → lookup (del k c) t j ≡ lookup c t j
unfolding del
lookup-del_other k j t c h = rw (map_get-map_delete_other k j c.store h)

lookup-del_self : (k : Key) (t : ℕ) (c : MemoryCache) → lookup (del k c) t k ≡ none
unfolding del
lookup-del_self k t c = rw (map_get-map_delete k c.store)

increment-value :
    (k : Key) (ttl now : ℕ) (c : MemoryCache)
    → (increment_and_expire k ttl now c).0 ≡ some (number_or_zero (lookup c now k) + 1)
unfolding increment_and_expire
increment-value k ttl now c = ground arith

lookup-increment :
    (k : Key) (ttl now t : ℕ) (c : MemoryCache)
    → t ≤ now + ttl * 1000
    → lookup (increment_and_expire k ttl now c).1 t k
      ≡ some (num (number_or_zero (lookup c now k) + 1))
unfolding increment_and_expire
lookup-increment k ttl now t c h =
    let x : Entry = record {
      key = k;
      value = num (live_count (map_get k c.store) now + 1);
      expires_at = now + ttl * 1000;
    } in
    ground (arith, map_get-map_set x c.store)

pub del-Distinct : (k : Key) (c : MemoryCache) → Distinct c.store → Distinct (del k c).store
unfolding del
del-Distinct k c d = Distinct-filter _ c.store d

-- The cache that MemoryCache implements.
abbrev pub memory_cache : Cache
memory_cache = record {
  State = Store;
  get = λ k now s. let r = get k now s.0 in (r.0, (r.1, get-Distinct k now s.0 s.1));
  set = λ k v ttl now s. (set k v ttl now s.0, set-Distinct k v ttl now s.0 s.1);
  del = λ k s. (del k s.0, del-Distinct k s.0 s.1);
  ready = λ s. true;
  increment_and_expire = λ k ttl now s. (
    (increment_and_expire k ttl now s.0).0,
    ((increment_and_expire k ttl now s.0).1, increment-Distinct k ttl now s.0 s.1),
  );
}

-- The in-memory cache keeps every law of the interface that the services rely on: a value is read
-- until its lifetime has passed and not after, a write or a deletion leaves other keys alone but for
-- evictions, and an increment adds one to what the key reads.
pub memory_cache-IsCache : IsCache memory_cache
memory_cache-IsCache = record {
  lookup = λ s. lookup s.0;
  get_law = λ k now s. get-lookup k now s.0;
  get_keeps = λ k j now t s h. lookup-get k j now t s.0 h;
  set_self = λ k v ttl now t s. lookup-set_self k v ttl now t s.0;
  set_other = λ k j v ttl now t s h le. lookup-set_other k j v ttl now t s.0 s.1 h le;
  del_self = λ k t s. lookup-del_self k t s.0;
  del_other = λ k j t s h. lookup-del_other k j t s.0 h;
  increment_law = λ k ttl now s. increment-value k ttl now s.0;
  increment_kept = λ k ttl now t s le h o. lookup-increment k ttl now t s.0 h;
}

-- A cache to start with.
abbrev pub new_cache : ℕ → Store
new_cache max_entries = (record { store = []; max_entries = max_entries }, tt)

pub lookup-new_cache :
    (max_entries t : ℕ) (k : Key) → memory_cache-IsCache.lookup (new_cache max_entries) t k ≡ none
unfolding get
lookup-new_cache max_entries t k = sym (memory_cache-IsCache.get_law k t (new_cache max_entries))
