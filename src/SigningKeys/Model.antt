-- ===== src/SigningKeys/Model.antt =====
-- The signing keys of packages/crypto/src/jwt.ts, their material and when that is well formed. Times
-- are numbers, so the tests that they are finite hold.
use pezhwan.Base.{ℕ, Bool, true, false, not, ◌&&◌, ◌||◌, Option, none, some, ◌==◌, if◌then◌else◌}

pub data KeyStatus : Type 0 where
  generated staged active verify_only retired revoked : KeyStatus

pub record SigningKey : Type 0 where
  pub kid : ℕ
  pub algorithm : ℕ
  pub material : ℕ
  pub created_at : ℕ
  pub status : KeyStatus
  pub activated_at : ℕ
  pub retired_at : Option ℕ
  pub revoked_at : Option ℕ
  pub expires_at : ℕ

-- A key as it is persisted, some fields of which may be missing.
pub record StoredKey : Type 0 where
  pub kid : ℕ
  pub algorithm : Option ℕ
  pub material : ℕ
  pub created_at : ℕ
  pub status : Option KeyStatus
  pub activated_at : Option ℕ
  pub retired_at : Option ℕ
  pub revoked_at : Option ℕ
  pub expires_at : ℕ

-- The texts of a key's material.
pub record SigningKeyMaterial : Type 0 where
  pub public_key : Option ℕ
  pub private_key : Option ℕ
  pub pq_public_key : Option ℕ
  pub pq_private_key : Option ℕ

-- The configured algorithm; the texts of a material; whether two texts are the PEM of a public key and
-- of its private key; and how many bytes a text decodes to, if it does.
pub record Deps : Type 0 where
  pub algorithm : ℕ
  pub parts : ℕ → SigningKeyMaterial
  pub is_pem_pair : ℕ → ℕ → Bool
  pub decoded_length : ℕ → Option ℕ

-- The algorithms, and thirty days. Texts are numbers, and 0 is the empty one.
abbrev pub rs256 : ℕ
rs256 = 1

abbrev pub ml_dsa_65 : ℕ
ml_dsa_65 = 5

abbrev pub ml_dsa_87 : ℕ
ml_dsa_87 = 6

abbrev pub hybrid_rs256_mldsa65 : ℕ
hybrid_rs256_mldsa65 = 7

abbrev pub hybrid_es256_mldsa65 : ℕ
hybrid_es256_mldsa65 = 8

abbrev pub default_ttl_ms : ℕ
default_ttl_ms = 2592000000

abbrev pub is_active : KeyStatus → Bool
is_active active = true
is_active _ = false

abbrev pub is_revoked : KeyStatus → Bool
is_revoked revoked = true
is_revoked _ = false

-- ACTIVE or VERIFY-ONLY.
abbrev pub is_published : KeyStatus → Bool
is_published active = true
is_published verify_only = true
is_published _ = false

abbrev pub by_kid : ℕ → SigningKey → Bool
by_kid kid k = k.kid == kid

abbrev pub or_rs256 : Option ℕ → ℕ
or_rs256 none = rs256
or_rs256 (some a) = a

abbrev pub is_pure_pq : ℕ → Bool
is_pure_pq a = (a == ml_dsa_65) || (a == ml_dsa_87)

abbrev pub is_hybrid : ℕ → Bool
is_hybrid a = (a == hybrid_rs256_mldsa65) || (a == hybrid_es256_mldsa65)

-- Of ML-DSA-65 and of ML-DSA-87.
abbrev pub public_key_bytes : ℕ → ℕ
public_key_bytes a = if a == ml_dsa_87 then 2592 else 1952

abbrev pub private_key_bytes : ℕ → ℕ
private_key_bytes a = if a == ml_dsa_87 then 4896 else 4032

abbrev pub has_length : ℕ → Option ℕ → Bool
has_length expected none = false
has_length expected (some n) = n == expected

module _ (deps : Deps) where
  abbrev pub is_pq_leg : ℕ → Option ℕ → Bool
  is_pq_leg expected none = false
  is_pq_leg expected (some text) = not (text == 0) && has_length expected (deps.decoded_length text)

  abbrev pub is_pq_pair : ℕ → SigningKeyMaterial → Bool
  is_pq_pair a m =
      is_pq_leg (public_key_bytes a) m.pq_public_key
      && is_pq_leg (private_key_bytes a) m.pq_private_key

  abbrev pub is_classical_pair : Option ℕ → Option ℕ → Bool
  is_classical_pair (some public) (some private) =
      not (public == 0) && not (private == 0) && deps.is_pem_pair public private
  is_classical_pair _ _ = false

  abbrev pub fits_algorithm : ℕ → SigningKeyMaterial → Bool
  fits_algorithm a m =
      if is_pure_pq a
      then is_pq_pair a m
      else is_classical_pair m.public_key m.private_key
        && (not (is_hybrid a) || is_pq_pair ml_dsa_65 m)

  -- Whether a persisted key is complete and its material is that of its algorithm.
  unfoldable pub is_well_formed : StoredKey → Bool
  is_well_formed k =
      not (k.kid == 0) && fits_algorithm (or_rs256 k.algorithm) (deps.parts k.material)
