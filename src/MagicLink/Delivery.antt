-- ===== src/MagicLink/Delivery.antt =====
-- Links from their dispatch to the login.
use pezhwan.Base.{ℕ, ◌+◌, ◌≤◌, ◌≡◌, refl, true, Option, none, some, List, find}
use pezhwan.Login.{UserDoc, Engine, Stores, World, Attempt, Tokens, find_user}
use pezhwan.Mongo.{Collection, IsCollection}
use pezhwan.VerificationToken.{
  TokenDoc, Service, RedeemResult, Redeemed, redeemed, by_hash, default_ttl_ms, redeem, issue,
}
use pezhwan.VerificationToken
use pezhwan.VerificationToken.Single.{issue-redeems, issue-token}
use pezhwan.MagicLink.{logged_in, send_magic_link, redeem_magic_link, link_redeemed, link_for}

module _ (stores : Stores) (engine : Engine) (tokens : Collection TokenDoc)
    (service : Service) where
  link_redeemed-active :
      (answer : Redeemed) (r : RedeemResult) (a : Attempt) (w : World engine) (user : UserDoc)
      → answer ≡ redeemed r
      → r.kind ≡ VerificationToken.magic_link
      → find_user stores engine (record { user_id = some r.user_id; email = none; phone = none }) w
        ≡ some user
      → user.is_active ≡ true
      → (t : Tokens) × ((link_redeemed stores engine tokens service answer a w).0
          ≡ logged_in user.id t r.redirect_uri)
  link_redeemed-active answer r a w user same kind e active = rw (same, kind, e, active) (_, refl)

-- A link that is sent to the address of an active account logs that account in for fifteen minutes,
-- whether or not it has a second factor on, and hands back the address to go to. The engine and the
-- service are of one tenant, the link is for the service's application, no live token has the hash of
-- the new one, and the account is found by its id when the link is followed.
pub sent_link_logs_in :
    (stores : Stores) (engine : Engine) (tokens : Collection TokenDoc) (service : Service)
    (rules : IsCollection tokens) (email decoy token now : ℕ) (redirect_uri : Option ℕ)
    (w w' : World engine) (l : List TokenDoc) (user : UserDoc) (a : Attempt)
    → find_user stores engine (record { user_id = none; email = some email; phone = none }) w
      ≡ some user
    → find_user stores engine (record { user_id = some user.id; email = none; phone = none }) w'
      ≡ some user
    → user.is_active ≡ true
    → engine.tenant_id ≡ service.tenant_id
    → find (by_hash (service.hash token)) l ≡ none
    → a.fresh.now ≤ now + default_ttl_ms
    → let (sent, l') =
        send_magic_link stores engine tokens service service.application_id email redirect_uri decoy
          token now w l in
      (t : Tokens) × ((redeem_magic_link stores engine tokens service sent.token a w' l').0
        ≡ logged_in user.id t redirect_uri)
unfolding send_magic_link redeem_magic_link
sent_link_logs_in stores engine tokens service rules email decoy token now redirect_uri w w' l user
      a found found' active tenant out soon =
    let input =
      link_for stores engine tokens service user.id service.application_id email redirect_uri in
    rw (found, issue-token tokens service input token now l)
      (link_redeemed-active stores engine tokens service
        (redeem tokens service token a.fresh.now (issue tokens service input token now l).1).0 _ a
        w' user
        (issue-redeems tokens rules service input token now a.fresh.now l out tenant refl soon) refl
        found' active)
