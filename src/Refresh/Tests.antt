-- ===== src/Refresh/Tests.antt =====
-- Refreshes for the account of the runs of Login, whose session is of application 4.
use pezhwan.Base.{◌≡◌, refl, true, false, [], ◌∷◌, none, count, arith}
use pezhwan.Cache.Memory.Interface.{new_cache}
use pezhwan.Login.{World}
use pezhwan.Login.Tests.{engine_with, stores, world_with}
use pezhwan.Mongo.{list_collection-IsCollection}
use pezhwan.Refresh.{session_context_invalid, refresh_throws, refresh_session}
use pezhwan.Refresh.Burns.{refresh_session-foreign_burns}
use pezhwan.Session.{SessionDoc, Fresh, active}
use pezhwan.Session.Limits.{DistinctIds, live_of}
use pezhwan.Session.Transaction.{refresh_token_reuse}

abbrev stored : SessionDoc
stored = record {
  id = 1;
  user_id = 7;
  tenant_id = 3;
  application_id = 4;
  status = active;
  family_id = 10;
  current_refresh_token_hash = 1005;
  replaced_by_session_id = none;
  device = record { ip = 0; user_agent = 0; device_label = 0 };
  last_active_at = 0;
  expires_at = 60000;
  revoked_at = none;
}

abbrev world : World (engine_with false)
world = record (world_with false 0) {
  sessions = record { sessions = stored ∷ []; cached = new_cache 100 };
}

abbrev first : Fresh
first = record { id = 2; family = 20; token = 9; now = 100 }

abbrev later : Fresh
later = record { id = 3; family = 30; token = 11; now = 200 }

one_id : DistinctIds (stored ∷ [])
one_id i = ground arith

refresh_session-foreign_burns_example :
    ((refresh_session stores (engine_with false) 8 5 none none none first true (λ _. none) world).0
      ≡ session_context_invalid)
    × (((refresh_session stores
            (engine_with false)
            4
            5
            none
            none
            none
            later
            true
            (λ _. none)
            (refresh_session stores
              (engine_with false)
              8
              5
              none
              none
              none
              first
              true
              (λ _. none)
              world).1).0
          ≡ refresh_throws refresh_token_reuse)
        × (count
              (live_of 10)
              (refresh_session stores
                (engine_with false)
                4
                5
                none
                none
                none
                later
                true
                (λ _. none)
                (refresh_session stores
                  (engine_with false)
                  8
                  5
                  none
                  none
                  none
                  first
                  true
                  (λ _. none)
                  world).1).1.sessions.sessions
            ≡ 0))
refresh_session-foreign_burns_example =
    refresh_session-foreign_burns stores (engine_with false) 8 5 none none none first world stored
      true list_collection-IsCollection one_id (omega arith) (refl, refl) refl refl 4 later true
      (λ _. none)
