-- ===== src/MagicLink/Tests.antt =====
-- A link for the account of the runs of Login, which has its second factor on.
use pezhwan.Base.{◌+◌, ◌≡◌, refl, true, [], some, arith}
use pezhwan.Login.{Tokens}
use pezhwan.Login.Tests.{
  engine_with, stores, user_with, world_with, attempt_at, found_by_address, found_by_id,
}
use pezhwan.MagicLink.{logged_in, send_magic_link, redeem_magic_link}
use pezhwan.MagicLink.Delivery.{sent_link_logs_in}
use pezhwan.Mongo.{list_collection, list_collection-IsCollection}
use pezhwan.VerificationToken.{Service}

abbrev service : Service
service = record { tenant_id = 3; application_id = 4; hash = λ token. token + 1000 }

sent_link_logs_in_example :
    (t : Tokens) × ((redeem_magic_link stores
        (engine_with true)
        list_collection
        service
        (send_magic_link stores
          (engine_with true)
          list_collection
          service
          4
          8
          (some 2)
          6
          5
          50
          (world_with true 0)
          []).0.token
        (attempt_at 100)
        (world_with true 0)
        (send_magic_link stores
          (engine_with true)
          list_collection
          service
          4
          8
          (some 2)
          6
          5
          50
          (world_with true 0)
          []).1).0
      ≡ logged_in 7 t (some 2))
sent_link_logs_in_example =
    sent_link_logs_in stores (engine_with true) list_collection service list_collection-IsCollection
      8 6 5 50 (some 2) (world_with true 0) (world_with true 0) [] (user_with 0) (attempt_at 100)
      found_by_address found_by_id refl refl refl (omega arith)
