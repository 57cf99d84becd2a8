-- ===== src/AccountState/Tests.antt =====
-- Runs of the account state for one account at version 5, with the in-memory cache.
use pezhwan.Base.{true, [], ◌∷◌}
use pezhwan.Cache.Memory.Interface.{memory_cache, new_cache}
use pezhwan.AccountState.{UserDoc, World}

abbrev account' : UserDoc
account' = record { id = 7; is_active = true; token_version = 5 }

abbrev bumped : UserDoc
bumped = record { id = 7; is_active = true; token_version = 6 }

abbrev world : World memory_cache
world = record { users = account' ∷ []; cached = new_cache 100 }
