-- ===== src/VerificationToken/Tests.antt =====
-- Runs of the verification tokens for one user.
use pezhwan.Base.{◌+◌, ◌≡◌, [], ◌∷◌, none, arith}
use pezhwan.Mongo.{list_collection, list_collection-IsCollection}
use pezhwan.VerificationToken.Single.{DistinctHashes, redeem_once}
use pezhwan.VerificationToken.{
  password_reset, TokenDoc, IssueTokenInput, Service, invalid_token, redeem,
}

abbrev service : Service
service = record { tenant_id = 3; application_id = 4; hash = λ token. token + 1000 }

abbrev input : IssueTokenInput
input = record {
  kind = password_reset;
  tenant_id = 3;
  application_id = 4;
  user_id = 7;
  target = none;
  redirect_uri = none;
  ttl_ms = none;
}

abbrev earlier : TokenDoc
earlier = record {
  kind = password_reset;
  tenant_id = 3;
  application_id = 4;
  user_id = 7;
  token_hash = 1005;
  target = none;
  redirect_uri = none;
  expires_at = 900000;
  consumed_at = none;
}

one_hash : DistinctHashes (earlier ∷ [])
one_hash h = ground arith

redeem_once_example :
    (redeem list_collection service 5 200 (redeem list_collection service 5 100 (earlier ∷ [])).1).0
    ≡ invalid_token
redeem_once_example =
    redeem_once list_collection list_collection-IsCollection service 5 100 200 (earlier ∷ [])
      one_hash
