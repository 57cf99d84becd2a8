-- ===== src/Session/Tests.antt =====
-- Runs of the session service on one stored session of family 10, with the in-memory cache.
use pezhwan.Base.{
  ℕ, zero, suc, ◌+◌, ◌≤◌, ◌≡◌, refl, true, false, [], ◌∷◌, Option, none, some, count, find, arith,
  count_of_find-none, find-passes, find_unique, ==_refl,
}
use pezhwan.Mongo.{list_collection, list_collection-IsCollection}
use pezhwan.Cache.Memory.Interface.{memory_cache, memory_cache-IsCache, new_cache}
use pezhwan.Session.Transaction.{
  with_transaction, DriverError, worded, Result, ok, err, refresh_token_reuse,
}
use pezhwan.Session.Limits.{DistinctIds, IsOldest, live_of, create_within_cap}
use pezhwan.Session.Outcomes.{refresh_rotates}
use pezhwan.Session.Reuse.{refresh_twice}
use pezhwan.Session.Liveness.{revoke_family-inactive}
use pezhwan.Session.Interleavings.{System, Inv, here, next, claims, finishes, family_single_live}
use pezhwan.Session.{
  tx_body, SessionDoc, SessionContext, RefreshContext, Fresh, Deps, World, active, child_of, claim,
  created, create, refresh, by_id, active_of, set_rotating, is_session_active, revoke_family,
}

abbrev deps : Deps
deps = record {
  cache = memory_cache;
  hash = λ token. token + 1000;
  oldest = find;
  refresh_token_ttl_ms = 60000;
  max_active_sessions = 2;
}

abbrev stored : SessionDoc
stored = record {
  id = 1;
  user_id = 7;
  tenant_id = 3;
  application_id = 4;
  status = active;
  family_id = 10;
  current_refresh_token_hash = 1005;
  replaced_by_session_id = none;
  device = record { ip = 0; user_agent = 0; device_label = 1 };
  last_active_at = 50;
  expires_at = 60050;
  revoked_at = none;
}

abbrev world : World deps
world = record { sessions = stored ∷ []; cached = new_cache 100 }

abbrev anywhere : RefreshContext
anywhere = record {
  ip = none;
  user_agent = none;
  device_label = none;
  tenant_id = none;
  application_id = none;
}

abbrev login : SessionContext
login = record {
  user_id = 7;
  tenant_id = 3;
  application_id = 4;
  ip = none;
  user_agent = none;
  device_label = none;
}

abbrev fresh : Fresh
fresh = record { id = 2; family = 20; token = 9; now = 100 }

abbrev later : Fresh
later = record { id = 3; family = 30; token = 11; now = 200 }

abbrev calm : ℕ → Option DriverError
calm n = none

one_id : DistinctIds (stored ∷ [])
one_id i = ground arith

find-IsOldest : IsOldest find
find-IsOldest = record {
  miss = λ p l e. count_of_find-none p l e;
  hit = λ p l d ids e.
      (find-passes p l {x = d} e, find_unique p (by_id d.id) l {x = d} e (==_refl d.id) (ids d.id));
}

abbrev start : System
start = record { sessions = stored ∷ []; claimed = [] }

start-Inv : Inv start
start-Inv = record { ids = one_id; single = λ family. ground arith; owned = tt }

abbrev rotating_start : System
rotating_start = record { sessions = set_rotating 100 stored ∷ []; claimed = stored ∷ [] }

-- After the second half of a refresh, which makes the child.
abbrev finished : System
finished = record {
  sessions =
      (with_transaction
        (tx_body list_collection deps 1
          (child_of list_collection deps (set_rotating 100 stored) anywhere fresh) fresh.now)
        true calm (set_rotating 100 stored ∷ [])).1;
  claimed = [];
}

family_single_live_example :
    ((family : ℕ) → count (live_of family) finished.sessions ≤ 1) × DistinctIds finished.sessions
unfolding claim
family_single_live_example =
    family_single_live list_collection deps start finished list_collection-IsCollection start-Inv (
      next
        (next here
          (claims 5 100 anywhere (set_rotating 100 stored) (set_rotating 100 stored ∷ []) refl))
        (finishes (set_rotating 100 stored) [] [] anywhere fresh calm refl (refl, refl)
          (λ e h. cc)))

refresh_twice_example :
    ((refresh list_collection deps 5 anywhere later true calm
        (refresh list_collection deps 5 anywhere fresh true calm world).1).0
      ≡ err refresh_token_reuse)
    × (count
          (live_of 10)
          (refresh list_collection deps 5 anywhere later true calm
            (refresh list_collection deps 5 anywhere fresh true calm world).1).1.sessions
        ≡ 0)
refresh_twice_example =
    refresh_twice list_collection deps 5 anywhere fresh world true calm
      (created list_collection deps (child_of list_collection deps stored anywhere fresh) 9)
      list_collection-IsCollection one_id (omega arith) (refl, refl)
      (refresh_rotates list_collection deps 5 anywhere fresh world stored true
        list_collection-IsCollection one_id refl).0
      anywhere later true calm (refl, refl)

create_within_cap_example :
    count (active_of 7 4) (create list_collection deps login fresh world).1.sessions ≤ 2
create_within_cap_example =
    create_within_cap list_collection deps login fresh world list_collection-IsCollection
      find-IsOldest one_id (omega arith) (omega arith)

revoke_family-inactive_example :
    (is_session_active list_collection deps 1 200
      (revoke_family list_collection deps 10 100 world)).0
    ≡ false
revoke_family-inactive_example =
    revoke_family-inactive list_collection deps list_collection-IsCollection memory_cache-IsCache 10
      1 100 200 world stored refl refl

abbrev counting : ℕ → Result ℕ × ℕ
counting n = (ok n, n + 1)

abbrev one_failure : ℕ → Option DriverError
one_failure zero = none
one_failure (suc zero) = none
one_failure (suc (suc n)) = some (worded true)
