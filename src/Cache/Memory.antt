-- ===== src/Cache/Memory.antt =====
-- MemoryCache of packages/core/src/services/redisCache.ts. The Map is the list of its entries in
-- insertion order.
pub mod Laws
pub mod Bounds
pub mod Interface
use pezhwan.Base.{
  ℕ, zero, suc, ◌+◌, ◌-◌, ◌*◌, Bool, not, List, [], ◌∷◌, ◌++◌, Option, none, some, ltb, leb,
  if◌then◌else◌, length, find, filter, drop,
}
use pezhwan.Cache.{Key, key_eq, Value, num, number_or_zero}

pub record Entry : Type 0 where
  pub key : Key
  pub value : Value
  pub expires_at : ℕ

pub record MemoryCache : Type 0 where
  pub store : List Entry
  pub max_entries : ℕ

abbrev pub max_safe_integer : ℕ
max_safe_integer = 9007199254740991

-- `Map.get`, `Map.delete` and `Map.set`: a new key goes to the end, an old one keeps its place.
abbrev pub map_get : Key → List Entry → Option Entry
map_get k = find (λ e. key_eq e.key k)

abbrev pub map_delete : Key → List Entry → List Entry
map_delete k = filter (λ e. not (key_eq e.key k))

abbrev pub map_set : Entry → List Entry → List Entry
map_set x [] = x ∷ []
map_set x (e ∷ es) = if key_eq e.key x.key then x ∷ es else e ∷ map_set x es

abbrev pub is_expired : ℕ → Entry → Bool
is_expired now e = ltb e.expires_at now

get_found : Option Entry → Key → ℕ → MemoryCache → Option Value × MemoryCache
get_found none key now c = (none, c)
get_found (some e) key now c =
    if is_expired now e
    then (none, record c { store = map_delete key c.store })
    else (some e.value, c)

unfoldable pub get : Key → ℕ → MemoryCache → Option Value × MemoryCache
unfolding get_found
get key now c = get_found (map_get key c.store) key now c

-- The sweep of expired entries, then the eviction of the oldest until there is room for one.
unfoldable pub evict : ℕ → List Entry → List Entry
evict max l = if leb max (length l) then drop (length l - max + 1) l else l

unfoldable pub make_room : ℕ → ℕ → List Entry → List Entry
make_room now max l =
    if leb max (length l) then evict max (filter (λ e. not (is_expired now e)) l) else l

-- `ttlSeconds ? … : …`: no lifetime and a lifetime of 0 both mean "never expires".
unfoldable pub deadline : ℕ → ℕ → ℕ
deadline zero now = max_safe_integer
deadline (suc ttl) now = now + suc ttl * 1000

unfoldable pub set : Key → Value → ℕ → ℕ → MemoryCache → MemoryCache
set key value ttl_seconds now c = record c {
  store =
      make_room now c.max_entries (map_delete key c.store)
      ++ record { key = key; value = value; expires_at = deadline ttl_seconds now } ∷ [];
}

unfoldable pub del : Key → MemoryCache → MemoryCache
del key c = record c { store = map_delete key c.store }

-- The live counter: 0 without an entry, or with one that has expired.
abbrev live_count : Option Entry → ℕ → ℕ
live_count none before = 0
live_count (some e) before = if leb before e.expires_at then number_or_zero (some e.value) else 0

unfoldable pub increment_and_expire : Key → ℕ → ℕ → MemoryCache → Option ℕ × MemoryCache
increment_and_expire key ttl_seconds before c =
    let next = live_count (map_get key c.store) before + 1 in
    let entry : Entry = record {
      key = key;
      value = num next;
      expires_at = before + ttl_seconds * 1000;
    } in
    (some next, record c { store = map_set entry c.store })

pub size : MemoryCache → ℕ
size c = length c.store
