-- ===== src/Cache.antt =====
-- The RedisCache interface of packages/core/src/services/redisCache.ts, which every service takes:
-- its operations as a record, and the laws that the services rely on.
pub mod Memory
pub mod Redis
use pezhwan.Base.{
  ℕ, zero, suc, ◌+◌, ◌*◌, ◌≤◌, ◌<◌, ◌≡◌, ◌⊎◌, ◌↔◌, Bool, true, false, ◌&&◌, Option, none, some,
  arith, ◌==◌, leb, if◌then◌else◌,
}

-- A key is a prefix of the source (`session:`, `otp:attempts:email:`, …), numbered, and the text
-- behind it.
pub record Key : Type 0 where
  pub space : ℕ
  pub id : ℕ

abbrev pub key_eq : Key → Key → Bool
key_eq k j = k.space == j.space && k.id == j.id

pub key_eq_iff : (k j : Key) → (key_eq k j ≡ true) ↔ (k ≡ j)
key_eq_iff k j = ground arith

pub key_eq_refl : (k : Key) → key_eq k k ≡ true
key_eq_refl k = ground arith

-- The texts that the services store: a number in decimal (a counter, a time, the mark `1`, a lock's
-- token), or the JSON of an account state.
pub data Value : Type 0 where
  num : ℕ → Value
  account : (exists is_active version_match : Bool) → Value

-- `Number(text)`, with 0 for NaN, as each reader of a counter takes it.
abbrev pub to_number : Value → ℕ
to_number (num n) = n
to_number (account a b c) = 0

abbrev pub number_or_zero : Option Value → ℕ
number_or_zero none = 0
number_or_zero (some v) = to_number v

-- Times are in milliseconds and lifetimes in seconds, as in the source; `now` is `Date.now()`.
pub record Cache : Type 1 where
  pub State : Type 0
  pub get : Key → (now : ℕ) → State → Option Value × State
  pub set : Key → Value → (ttl_seconds now : ℕ) → State → State
  pub del : Key → State → State
  pub ready : State → Bool
  pub increment_and_expire : Key → (ttl_seconds now : ℕ) → State → Option ℕ × State

-- What a cache promises, by what a key would read at a time. A write may evict other keys, and
-- never alters them.
pub record IsCache (c : Cache) : Type 1 where
  pub lookup : c.State → ℕ → Key → Option Value
  pub get_law : (k : Key) (now : ℕ) (s : c.State) → (c.get k now s).0 ≡ lookup s now k
  pub get_keeps :
      (k j : Key) (now t : ℕ) (s : c.State) → now ≤ t → lookup (c.get k now s).1 t j ≡ lookup s t j
  pub set_self :
      (k : Key) (v : Value) (ttl now t : ℕ) (s : c.State)
      → lookup (c.set k v (suc ttl) now s) t k
        ≡ (if leb t (now + suc ttl * 1000) then some v else none)
  pub set_other :
      (k j : Key) (v : Value) (ttl now t : ℕ) (s : c.State)
      → key_eq k j ≡ false
      → now ≤ t
      → (lookup (c.set k v ttl now s) t j ≡ none)
        ⊎ (lookup (c.set k v ttl now s) t j ≡ lookup s t j)
  pub del_self : (k : Key) (t : ℕ) (s : c.State) → lookup (c.del k s) t k ≡ none
  pub del_other :
      (k j : Key) (t : ℕ) (s : c.State) → key_eq k j ≡ false → lookup (c.del k s) t j ≡ lookup s t j
  pub increment_law :
      (k : Key) (ttl now : ℕ) (s : c.State)
      → (c.increment_and_expire k ttl now s).0 ≡ some (number_or_zero (lookup s now k) + 1)
  pub increment_kept :
      (k : Key) (ttl now t : ℕ) (s : c.State)
      → now ≤ t
      → t ≤ now + ttl * 1000
      → (lookup s now k ≡ none) ⊎ ((v : Value) × (lookup s t k ≡ some v))
      → lookup (c.increment_and_expire k ttl now s).1 t k
        ≡ some (num (number_or_zero (lookup s now k) + 1))

-- A written value is read until its lifetime has passed.
pub lookup-set_live :
    (c : Cache) (laws : IsCache c) (k : Key) (v : Value) (ttl now t : ℕ) (s : c.State)
    → 0 < ttl
    → t ≤ now + ttl * 1000
    → laws.lookup (c.set k v ttl now s) t k ≡ some v
lookup-set_live c laws k v zero now t s pos live = ground arith
lookup-set_live c laws k v (suc n) now t s pos live = ground (arith, laws.set_self k v n now t s)
