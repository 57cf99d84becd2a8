-- ===== src/VerificationToken.antt =====
-- packages/core/src/services/verificationToken.service.ts: single-use tokens for the verification of
-- an address, a password reset, a magic link and a change of address or number. The audit calls are not modelled.
pub mod Single
mod Tests
use pezhwan.Base.{
  ℕ, ◌+◌, ◌/◌, ◌≡◌, Bool, true, false, ◌&&◌, List, Option, none, some, ◌==◌, ltb, if◌then◌else◌,
}
use pezhwan.Mongo.{Collection}

pub data Kind : Type 0 where
  email_verification password_reset magic_link email_change phone_change : Kind

pub record TokenDoc : Type 0 where
  pub kind : Kind
  pub tenant_id : ℕ
  pub application_id : ℕ
  pub user_id : ℕ
  pub token_hash : ℕ
  pub target : Option ℕ
  pub redirect_uri : Option ℕ
  pub expires_at : ℕ
  pub consumed_at : Option ℕ

pub record IssueTokenInput : Type 0 where
  pub kind : Kind
  pub tenant_id : ℕ
  pub application_id : ℕ
  pub user_id : ℕ
  pub target : Option ℕ
  pub redirect_uri : Option ℕ
  pub ttl_ms : Option ℕ

pub record RedeemResult : Type 0 where
  pub user_id : ℕ
  pub kind : Kind
  pub tenant_id : ℕ
  pub application_id : ℕ
  pub target : Option ℕ
  pub redirect_uri : Option ℕ

pub data Redeemed : Type 0 where
  redeemed : RedeemResult → Redeemed
  invalid_token tenant_mismatch token_expired application_mismatch : Redeemed

-- A service is made for one tenant and application; `hash` is the digest of a raw token.
pub record Service : Type 0 where
  pub tenant_id : ℕ
  pub application_id : ℕ
  pub hash : ℕ → ℕ

pub record Issued : Type 0 where
  pub token : ℕ
  pub expires_in : ℕ

abbrev pub default_ttl_ms : ℕ
default_ttl_ms = 900000

abbrev pub ttl_of : Option ℕ → ℕ
ttl_of none = default_ttl_ms
ttl_of (some ms) = ms

abbrev pub kind_eq : Kind → Kind → Bool
kind_eq email_verification email_verification = true
kind_eq password_reset password_reset = true
kind_eq magic_link magic_link = true
kind_eq email_change email_change = true
kind_eq phone_change phone_change = true
kind_eq _ _ = false

abbrev pub is_unconsumed : Option ℕ → Bool
is_unconsumed none = true
is_unconsumed (some t) = false

abbrev pub live_for : ℕ → ℕ → ℕ → Kind → TokenDoc → Bool
live_for tenant app user kind d =
    d.tenant_id == tenant
    && (d.application_id == app
        && (d.user_id == user && (kind_eq d.kind kind && is_unconsumed d.consumed_at)))

abbrev pub by_hash : ℕ → TokenDoc → Bool
by_hash h d = d.token_hash == h && is_unconsumed d.consumed_at

abbrev pub consume : ℕ → TokenDoc → TokenDoc
consume now d = record d { consumed_at = some now }

module _ (db : Collection TokenDoc) (service : Service) where
  abbrev pub new_token : IssueTokenInput → (token now : ℕ) → TokenDoc
  new_token input token now = record {
    kind = input.kind;
    tenant_id = input.tenant_id;
    application_id = input.application_id;
    user_id = input.user_id;
    token_hash = service.hash token;
    target = input.target;
    redirect_uri = input.redirect_uri;
    expires_at = now + ttl_of input.ttl_ms;
    consumed_at = none;
  }

  pub issue : IssueTokenInput → (token now : ℕ) → List TokenDoc → Issued × List TokenDoc
  issue input token now l =
      let revoked =
        db.update_many (live_for input.tenant_id input.application_id input.user_id input.kind)
          (consume now) l in
      (
        record { token = token; expires_in = ttl_of input.ttl_ms / 1000 },
        db.create (new_token input token now) revoked,
      )

  pub judged : Option TokenDoc → ℕ → Redeemed
  judged none now = invalid_token
  judged (some d) now =
      if d.tenant_id == service.tenant_id
      then if ltb d.expires_at now
        then token_expired
        else if d.application_id == service.application_id
        then redeemed (record {
          user_id = d.user_id;
          kind = d.kind;
          tenant_id = d.tenant_id;
          application_id = d.application_id;
          target = d.target;
          redirect_uri = d.redirect_uri;
        })
        else application_mismatch
      else tenant_mismatch

  pub redeem : (token now : ℕ) → List TokenDoc → Redeemed × List TokenDoc
  unfolding judged
  redeem token now l =
      let (d, l') = db.find_one_and_update (by_hash (service.hash token)) (consume now) l in
      (judged d now, l')

  pub exists_active : Kind → (user now : ℕ) → List TokenDoc → Bool
  exists_active kind user now l = ltb 0 (
      db.count_documents
        (λ d. live_for service.tenant_id service.application_id user kind d && ltb now d.expires_at)
        l)
