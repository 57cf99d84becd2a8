-- ===== src/MagicLink.antt =====
-- `sendMagicLink` and `redeemMagicLink` of packages/core/src/auth/auth.engine.ts, over the verification
-- tokens and the sessions. An address is given in lower case, the token that an unknown address is
-- answered with is an argument, and audit calls are not modelled.
pub mod Delivery
mod Tests
use pezhwan.Base.{ℕ, Option, none, some, List, if◌then◌else◌}
use pezhwan.Login
use pezhwan.Login.{UserDoc, Engine, Stores, World, Attempt, Tokens, find_user, mint_tokens}
use pezhwan.Mongo.{Collection}
use pezhwan.Session
use pezhwan.Session.{SessionContext}
use pezhwan.VerificationToken
use pezhwan.VerificationToken.{
  TokenDoc, Service, Issued, IssueTokenInput, Redeemed, RedeemResult, redeemed, kind_eq, redeem,
  issue,
}

pub data LinkResult : Type 0 where
  logged_in : (user_id : ℕ) → Tokens → (redirect_uri : Option ℕ) → LinkResult
  token_refused : Redeemed → LinkResult
  user_not_found account_disabled : LinkResult

module _ (stores : Stores) (engine : Engine) (tokens : Collection TokenDoc)
    (service : Service) where
  abbrev pub link_for : (user application email : ℕ) → Option ℕ → IssueTokenInput
  link_for user application email redirect_uri = record {
    kind = VerificationToken.magic_link;
    tenant_id = engine.tenant_id;
    application_id = application;
    user_id = user;
    target = some email;
    redirect_uri = redirect_uri;
    ttl_ms = none;
  }

  abbrev pub sent_to :
      Option UserDoc
      → (application email : ℕ) → Option ℕ
      → (decoy token now : ℕ) → List TokenDoc
      → Issued × List TokenDoc
  sent_to none application email redirect_uri decoy token now l =
      (record { token = decoy; expires_in = 900 }, l)
  sent_to (some user) application email redirect_uri decoy token now l =
      issue tokens service (link_for user.id application email redirect_uri) token now l

  -- The raw token that `issue` draws is an argument.
  pub send_magic_link :
      (application email : ℕ)
      → Option ℕ
      → (decoy token now : ℕ) → World engine
      → List TokenDoc
      → Issued × List TokenDoc
  send_magic_link application email redirect_uri decoy token now w l =
      sent_to
        (find_user stores engine (record { user_id = none; email = some email; phone = none }) w)
        application email redirect_uri decoy token now l

  abbrev pub link_context : UserDoc → RedeemResult → Attempt → SessionContext
  link_context user r a = record {
    user_id = user.id;
    tenant_id = r.tenant_id;
    application_id = r.application_id;
    ip = a.ip;
    user_agent = a.user_agent;
    device_label = a.device_label;
  }

  -- The second factor is not asked for.
  abbrev pub link_user :
      RedeemResult → Attempt → Option UserDoc → World engine → LinkResult × World engine
  link_user r a none w = (user_not_found, w)
  link_user r a (some user) w =
      if user.is_active
      then (let (session, s) =
            Session.create stores.sessions engine.sessions (link_context user r a) a.fresh
              w.sessions in
          let w' : World engine = record w { sessions = s } in
          let minted =
            mint_tokens stores engine user session (record a { application_id = r.application_id })
              Login.magic_link w' in
          (logged_in user.id minted r.redirect_uri, w'))
      else (account_disabled, w)

  -- A token of another kind is refused, after it has been consumed.
  abbrev pub link_redeemed : Redeemed → Attempt → World engine → LinkResult × World engine
  link_redeemed (redeemed r) a w =
      if kind_eq r.kind VerificationToken.magic_link
      then link_user r a
          (find_user stores engine (record { user_id = some r.user_id; email = none; phone = none })
            w)
          w
      else (token_refused (redeemed r), w)
  link_redeemed other a w = (token_refused other, w)

  pub redeem_magic_link :
      (token : ℕ)
      → Attempt
      → World engine
      → List TokenDoc
      → LinkResult × (World engine × List TokenDoc)
  redeem_magic_link token a w l =
      let (answer, l') = redeem tokens service token a.fresh.now l in
      let (r, w') = link_redeemed answer a w in (r, (w', l'))
