-- ===== src/Cache/Memory/Bounds.antt =====
-- The capacity of the in-memory cache.
use pezhwan.Base.{
  ℕ, ◌+◌, ◌-◌, ◌≤◌, ◌<◌, ◌≡◌, refl, not, List, [], ◌∷◌, none, arith, length, length-append,
  length-drop, length-filter-le, filter,
}
use pezhwan.Cache.{Key, key_eq, Value}
use pezhwan.Cache.Memory.{
  Entry, MemoryCache, map_get, map_delete, map_set, is_expired, evict, make_room, deadline, get,
  set, del, increment_and_expire, size,
}

abbrev pub IsBounded : MemoryCache → Type 0
IsBounded c = size c ≤ c.max_entries

length-evict-lt : (max : ℕ) (l : List Entry) → 0 < max → length (evict max l) < max
unfolding evict
length-evict-lt max l h = ground (arith, length-drop (length l - max + 1) l)

length-make_room-lt : (now max : ℕ) (l : List Entry) → 0 < max → length (make_room now max l) < max
unfolding make_room
length-make_room-lt now max l h =
    ground (arith, length-evict-lt max (filter (λ e. not (is_expired now e)) l))

-- With room for one entry at least, the cache holds at most `max_entries` entries after a write,
-- however many it held before; reads and deletions never add an entry.
size_bounds :
    (key : Key) (value : Value) (ttl now : ℕ) (c : MemoryCache)
    → 0 < c.max_entries
    → (size (set key value ttl now c) ≤ c.max_entries)
      × (size (get key now c).1 ≤ size c)
      × (size (del key c) ≤ size c)
unfolding set get del size
size_bounds key value ttl now c h = ground (
  arith,
  length-make_room-lt now c.max_entries (map_delete key c.store),
  length-append (make_room now c.max_entries (map_delete key c.store))
      (record { key = key; value = value; expires_at = deadline ttl now } ∷ []),
  length-filter-le (λ (e : Entry). not (key_eq e.key key)) c.store,
)

length-map_set_new :
    (x : Entry) (l : List Entry) → map_get x.key l ≡ none → length (map_set x l) ≡ length l + 1
length-map_set_new x [] h = refl
length-map_set_new x (e ∷ l) h = ground (arith, length-map_set_new x l)

-- An increment of a key that is not in the cache always adds an entry: it makes no room, so a cache
-- that holds `max_entries` entries goes over its capacity.
size-increment_and_expire :
    (key : Key) (ttl now : ℕ) (c : MemoryCache)
    → map_get key c.store ≡ none
    → size (increment_and_expire key ttl now c).1 ≡ size c + 1
unfolding increment_and_expire size
size-increment_and_expire key ttl now c h = length-map_set_new _ c.store h
