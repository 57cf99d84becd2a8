-- ===== src/Cache/Memory/Laws.antt =====
-- What a key of the in-memory cache reads at a time, after each operation.
use pezhwan.Base.{
  ℕ, zero, suc, ◌+◌, ◌-◌, ◌≤◌, ◌≡◌, refl, ◌⊎◌, inl, inr, Bool, false, not, List, [], ◌∷◌, ◌++◌,
  Option, none, some, arith, if◌then◌else◌, length, filter, drop, find-append_miss,
}
use pezhwan.Cache.{Key, key_eq, key_eq_iff, Value}
use pezhwan.Cache.Memory.{
  Entry, MemoryCache, map_get, map_delete, map_set, is_expired, evict, make_room,
}

-- What an entry reads as at a time.
abbrev pub live : ℕ → Option Entry → Option Value
live t none = none
live t (some e) = if is_expired t e then none else some e.value

abbrev pub lookup : MemoryCache → ℕ → Key → Option Value
lookup c t k = live t (map_get k c.store)

pub map_get-map_delete : (k : Key) (l : List Entry) → map_get k (map_delete k l) ≡ none
map_get-map_delete k [] = refl
map_get-map_delete k (e ∷ l) = ground (arith, map_get-map_delete k l)

pub map_get-map_delete_other :
    (k j : Key) (l : List Entry) → key_eq k j ≡ false → map_get j (map_delete k l) ≡ map_get j l
map_get-map_delete_other k j [] h = refl
map_get-map_delete_other k j (e ∷ l) h =
    ground (
      arith,
      map_get-map_delete_other k j l,
      key_eq_iff e.key k,
      key_eq_iff e.key j,
      key_eq_iff k j,
    )

pub map_get-map_set : (x : Entry) (l : List Entry) → map_get x.key (map_set x l) ≡ some x
map_get-map_set x [] = ground arith
map_get-map_set x (e ∷ l) = ground (arith, map_get-map_set x l)

-- A list in which every entry under a key is gone, or reads as before.
abbrev pub Shrinks : ℕ → Key → List Entry → List Entry → Type 0
Shrinks t j l m = (live t (map_get j m) ≡ none) ⊎ (live t (map_get j m) ≡ live t (map_get j l))

-- The keys of a Map are distinct.
abbrev pub Distinct : List Entry → Type 0
Distinct [] = Unit {0}
Distinct (e ∷ l) = (map_get e.key l ≡ none) × Distinct l

pub map_get-filter-none :
    (p : Entry → Bool) (k : Key) (l : List Entry)
    → map_get k l ≡ none
    → map_get k (filter p l) ≡ none
map_get-filter-none p k [] h = refl
map_get-filter-none p k (e ∷ l) h = ground (arith, map_get-filter-none p k l)

pub map_get-drop-none :
    (n : ℕ) (k : Key) (l : List Entry) → map_get k l ≡ none → map_get k (drop n l) ≡ none
map_get-drop-none zero k l h = h
map_get-drop-none (suc n) k [] h = refl
map_get-drop-none (suc n) k (e ∷ l) h = ground (arith, map_get-drop-none n k l)

pub Distinct-filter : (p : Entry → Bool) (l : List Entry) → Distinct l → Distinct (filter p l)
Distinct-filter p [] d = tt
Distinct-filter p (e ∷ l) (h, d) =
    ground (arith, Distinct-filter p l d, map_get-filter-none p e.key l h)

pub Distinct-drop : (n : ℕ) (l : List Entry) → Distinct l → Distinct (drop n l)
Distinct-drop zero l d = d
Distinct-drop (suc n) [] d = tt
Distinct-drop (suc n) (e ∷ l) d = Distinct-drop n l d.1

pub Distinct-concat :
    (l : List Entry) (x : Entry) → Distinct l → map_get x.key l ≡ none → Distinct (l ++ x ∷ [])
Distinct-concat [] x d h = (refl, tt)
Distinct-concat (e ∷ l) x (k, d) h = ground (
  arith,
  Distinct-concat l x d,
  find-append_miss (λ (y : Entry). key_eq y.key e.key) l (x ∷ []) k,
)

pub map_get-map_set_other :
    (x : Entry) (j : Key) (l : List Entry)
    → key_eq x.key j ≡ false
    → map_get j (map_set x l) ≡ map_get j l
map_get-map_set_other x j [] h = ground arith
map_get-map_set_other x j (e ∷ l) h =
    ground (arith, map_get-map_set_other x j l h, key_eq_iff e.key x.key)

pub Distinct-map_set : (x : Entry) (l : List Entry) → Distinct l → Distinct (map_set x l)
Distinct-map_set x [] d = (refl, tt)
Distinct-map_set x (e ∷ l) (h, d) = ground (
  arith,
  Distinct-map_set x l d,
  key_eq_iff e.key x.key,
  key_eq_iff x.key e.key,
  map_get-map_set_other x e.key l,
)

-- A sweep at `now`, and an eviction, take entries away and change none.
pub Shrinks-sweep :
    (now t : ℕ) (j : Key) (l : List Entry)
    → now ≤ t
    → Distinct l
    → Shrinks t j l (filter (λ e. not (is_expired now e)) l)
Shrinks-sweep now t j [] h d = inl refl
Shrinks-sweep now t j (e ∷ l) h (k, d) = ground (
  arith,
  Shrinks-sweep now t j l h d,
  key_eq_iff e.key j,
  map_get-filter-none (λ (x : Entry). not (is_expired now x)) e.key l k,
)

pub Shrinks-drop : (n t : ℕ) (j : Key) (l : List Entry) → Distinct l → Shrinks t j l (drop n l)
Shrinks-drop zero t j l d = inr refl
Shrinks-drop (suc n) t j [] d = inl refl
Shrinks-drop (suc n) t j (e ∷ l) (k, d) =
    ground (arith, Shrinks-drop n t j l d, key_eq_iff e.key j, map_get-drop-none n e.key l k)

abbrev pub unexpired : ℕ → Entry → Bool
unexpired now e = not (is_expired now e)

pub Shrinks-evict :
    (max t : ℕ) (j : Key) (l : List Entry) → Distinct l → Shrinks t j l (evict max l)
unfolding evict
Shrinks-evict max t j l d = ground (arith, Shrinks-drop (length l - max + 1) t j l d)

pub Distinct-evict : (max : ℕ) (l : List Entry) → Distinct l → Distinct (evict max l)
unfolding evict
Distinct-evict max l d = ground (arith, Distinct-drop (length l - max + 1) l d)

pub Shrinks-make_room :
    (now max t : ℕ) (j : Key) (l : List Entry)
    → now ≤ t
    → Distinct l
    → Shrinks t j l (make_room now max l)
unfolding make_room
Shrinks-make_room now max t j l h d = ground (
  arith,
  Shrinks-sweep now t j l h d,
  Shrinks-evict max t j (filter (unexpired now) l) (Distinct-filter (unexpired now) l d),
)

pub Distinct-make_room :
    (now max : ℕ) (l : List Entry) → Distinct l → Distinct (make_room now max l)
unfolding make_room
Distinct-make_room now max l d =
    ground
      (arith, Distinct-evict max (filter (unexpired now) l) (Distinct-filter (unexpired now) l d))

-- The key that is written is gone before it is written.
pub map_get-make_room-none :
    (now max : ℕ) (k : Key) (l : List Entry)
    → map_get k l ≡ none
    → map_get k (make_room now max l) ≡ none
unfolding make_room evict
map_get-make_room-none now max k l h = ground (
  arith,
  map_get-filter-none (unexpired now) k l h,
  map_get-drop-none (length (filter (unexpired now) l) - max + 1) k (filter (unexpired now) l),
)
