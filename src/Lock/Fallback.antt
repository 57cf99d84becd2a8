-- ===== src/Lock/Fallback.antt =====
-- The locks of packages/core/src/services/infrastructure/distributed-lock.ts without a client.
use pezhwan.Base.{ℕ, zero, suc, ◌≡◌, refl, false, some}
use pezhwan.Cache.{Cache}
use pezhwan.Lock.{Client, World, lock_of, try_acquire, attempts, acquire}

-- A service that was given no client grants every request for every key at the first attempt, whoever
-- holds the key: the in-memory fallback reads nothing back.
acquire-no_client :
    (client : Client) (cache : Cache) (key ttl_ms retries : ℕ) (token clock : ℕ → ℕ)
    (meanwhile : ℕ → World client cache → World client cache) (w : World client cache)
    → (acquire client cache false key ttl_ms retries token clock meanwhile w).0
      ≡ some (lock_of key ttl_ms (token 0) (clock 0))
unfolding acquire attempts try_acquire
acquire-no_client client cache key ttl_ms zero token clock meanwhile w = refl
acquire-no_client client cache key ttl_ms (suc n) token clock meanwhile w = refl
