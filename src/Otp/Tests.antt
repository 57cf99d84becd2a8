-- ===== src/Otp/Tests.antt =====
-- Runs of the one-time codes for one target, with the in-memory cache.
use pezhwan.Base.{◌+◌, ◌≡◌, ◌≢◌, refl, false, [], ◌∷◌, arith}
use pezhwan.Mongo.{list_collection, list_collection-IsCollection}
use pezhwan.Cache.Memory.Interface.{memory_cache, memory_cache-IsCache, new_cache, lookup-new_cache}
use pezhwan.Otp.Budget.{DistinctIds}
use pezhwan.Otp.Codes.{verified_once, issued_code_verifies}
use pezhwan.Otp.{
  attempts_key, OtpDoc, Options, World, Request, email, verify_otp, issue, judged, verified,
  invalid,
}

abbrev options : Options
options = record {
  cache = memory_cache;
  hash = λ code. code + 1000;
  tenant_id = 3;
  application_id = 4;
  has_sms = false;
  ttl_ms = 300000;
  max_attempts = 2;
  resend_cooldown_ms = 60000;
  attempts_window_ms = 600000;
}

abbrev request : Request
request = record { channel = email; target = 8; purpose = 1 }

abbrev sent_code : OtpDoc
sent_code = record {
  id = 1;
  tenant_id = 3;
  application_id = 4;
  purpose = 1;
  channel = email;
  target = 8;
  code_hash = 1042;
  expires_at = 300000;
  consumed = false;
  attempts = 0;
}

abbrev world : World options
world = record { otps = sent_code ∷ []; cached = new_cache 100; sent_messages = [] }

one_id : DistinctIds (sent_code ∷ [])
one_id i = ground arith

verified_once_example :
    ((verify_otp list_collection options request 42 200
        (verify_otp list_collection options request 42 100 world).1).0
      ≢ verified)
    × ((verify_otp list_collection options request 42 200
          (verify_otp list_collection options request 42 100 world).1).0
        ≢ invalid)
unfolding verify_otp judged pezhwan.Cache.Memory.get
verified_once_example =
    verified_once list_collection options list_collection-IsCollection memory_cache-IsCache request
      42 100 42 200 world one_id refl

issued_code_verifies_example :
    (verify_otp list_collection options request 77 200
      (issue list_collection options request 2 77 100 world).1).0
    ≡ verified
issued_code_verifies_example =
    issued_code_verifies list_collection options list_collection-IsCollection memory_cache-IsCache
      request 2 77 100 200 world (omega arith) (omega arith) (omega arith)
      (let e = lookup-new_cache 100 200 (attempts_key request) in rw e (omega arith))
