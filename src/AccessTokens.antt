-- ===== src/AccessTokens.antt =====
-- packages/core/src/services/token.service.ts: access tokens over the signing keys. Texts are numbers,
-- and 0 is the empty one.
mod Der
mod Jwt
pub mod Conversions
pub mod Roundtrip
pub mod Lifetime
pub mod Checked
pub mod Acceptance
mod Tests
unfoldable pub use Der.*
unfoldable pub use Jwt.*
use pezhwan.Base.{
  ℕ, ◌+◌, ◌*◌, ◌/◌, Bool, true, false, not, ◌&&◌, List, [], ◌∷◌, Option, none, some, ◌==◌,
  if◌then◌else◌,
}
use pezhwan.SigningKeys.{SigningKey, SigningKeyMaterial, current, key_for}
use pezhwan.SigningKeys as Keys

pub record Identity : Type 0 where
  pub user_id : ℕ
  pub tenant_id : ℕ
  pub application_id : ℕ
  pub session_id : ℕ
  pub roles : List ℕ
  pub permissions : List ℕ
  pub auth_method : ℕ
  pub token_version : Option ℕ
  pub scope : Option ℕ
  pub client_id : Option ℕ

pub data Reason : Type 0 where
  token_expired token_not_active invalid_signature : Reason

-- By the name of the error's class.
abbrev pub reason_of : JwtError → Reason
reason_of jwt_expired = token_expired
reason_of max_age_exceeded = token_expired
reason_of jwt_not_active = token_not_active
reason_of _ = invalid_signature

pub data Refusal : Type 0 where
  malformed missing_kid unknown_key missing_claim : Refusal
  invalid : Reason → Refusal

pub data Verified : Type 0 where
  -- The identity, and when it was authenticated, in milliseconds.
  verified : Identity → ℕ → Verified
  refused : Refusal → Verified

pub record Service : Type 0 where
  pub issuer : ℕ
  pub audience : ℕ
  pub access_token_ttl_ms : ℕ
  pub keys : Keys.Deps

abbrev pub or_empty : Option (List ℕ) → List ℕ
or_empty none = []
or_empty (some l) = l

-- The text `password`.
abbrev pub password_method : ℕ
password_method = 1

abbrev pub or_password : Option ℕ → ℕ
or_password none = password_method
or_password (some m) = m

abbrev pub identity_of : Claims → Identity
identity_of c = record {
  user_id = c.sub;
  tenant_id = c.tenant_id;
  application_id = c.application_id;
  session_id = c.session_id;
  roles = or_empty c.roles;
  permissions = or_empty c.permissions;
  auth_method = or_password c.auth_method;
  token_version = c.token_version;
  scope = c.scope;
  client_id = c.client_id;
}

-- Whether the mandatory claims are there and not empty.
abbrev pub is_whole : Claims → Bool
is_whole c =
    not (c.sub == 0)
    && not (c.tenant_id == 0)
    && not (c.application_id == 0)
    && not (c.session_id == 0)

abbrev pub authenticated : Option ℕ → Claims → Verified
authenticated none c = refused missing_claim
authenticated (some t) c = verified (identity_of c) (t * 1000)

abbrev pub checked : Verdict → Verified
checked (rejected r) = refused (invalid (reason_of r))
checked (valid c) = if is_whole c then authenticated c.iat c else refused missing_claim

module _ (service : Service) (lib : Libraries) where
  abbrev pub ttl_seconds : ℕ
  ttl_seconds = service.access_token_ttl_ms / 1000

  abbrev pub expected : Expected
  expected = record { issuer = service.issuer; audience = service.audience; max_age = ttl_seconds }

  abbrev pub claims_for : Identity → (kid jti now : ℕ) → Claims
  claims_for i kid jti now = record {
    sub = i.user_id;
    tenant_id = i.tenant_id;
    application_id = i.application_id;
    session_id = i.session_id;
    roles = some i.roles;
    permissions = some i.permissions;
    auth_method = some i.auth_method;
    kid = some kid;
    iss = some service.issuer;
    aud = service.audience ∷ [];
    iat = some (now / 1000);
    exp = some (now / 1000 + ttl_seconds);
    nbf = none;
    jti = some jti;
    scope = i.scope;
    client_id = i.client_id;
    token_version = i.token_version;
  }

  abbrev pub material_of : SigningKey → SigningKeyMaterial
  material_of k = service.keys.parts k.material

  -- With the drawn id of the token, what the signature draws, and the kid and the material that are
  -- drawn if no key can sign.
  unfoldable pub sign_access_token :
      Identity
      → (jti draw kid material now : ℕ) → List SigningKey
      → Option (Token lib) × List SigningKey
  sign_access_token i jti draw kid material now l =
      let (k, keys) = current service.keys kid material now l in
      (sign_token lib (material_of k) (claims_for i k.kid jti now) k draw (now / 1000), keys)

  -- The header, where the first part parses.
  abbrev pub header_part : Token lib → Option Header
  header_part [] = none
  header_part (h ∷ parts) = if lib.is_empty h then none else lib.decode_header h

  abbrev pub by_key : Option SigningKey → Token lib → ℕ → Verified
  by_key none t now = refused unknown_key
  by_key (some k) t now = checked (verify_token lib (material_of k) t k expected (now / 1000))

  abbrev pub by_kid_header : Option ℕ → Token lib → ℕ → List SigningKey → Verified
  by_kid_header none t now l = refused missing_kid
  by_kid_header (some kid) t now l =
      if kid == 0 then refused missing_kid else by_key (key_for kid now l) t now

  abbrev pub by_header : Option Header → Token lib → ℕ → List SigningKey → Verified
  by_header none t now l = refused malformed
  by_header (some h) t now l = by_kid_header h.kid t now l

  unfoldable pub verify_access_token : Token lib → ℕ → List SigningKey → Verified
  verify_access_token t now l = by_header (header_part t) t now l
