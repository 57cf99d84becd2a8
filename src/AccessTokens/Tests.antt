-- ===== src/AccessTokens/Tests.antt =====
-- Libraries whose parts are what they encode, and a token of an Edwards key.
use pezhwan.Base.{
  ◌++◌, Bool, false, ℕ, ◌+◌, ◌≡◌, refl, false, List, [], ◌∷◌, Option, none, some, ◌==◌,
}
use pezhwan.SigningKeys.{SigningKey, new_key, verify_only}
use pezhwan.AccessTokens.{
  zeros, jose_to_der, der_to_jose, Identity, Claims, Expected, Header, Libraries, Token, Verdict,
  rejected, jwt_malformed, Service, answered, claims_for, eddsa,
}
use pezhwan.AccessTokens.Conversions.{der_to_jose-jose_to_der}

data SamplePart : Type 0 where
  of_header : Header → SamplePart
  of_claims : Claims → SamplePart
  of_bytes : List ℕ → SamplePart

abbrev header_in : SamplePart → Option Header
header_in (of_header h) = some h
header_in _ = none

abbrev claims_in : SamplePart → Option Claims
claims_in (of_claims c) = some c
claims_in _ = none

abbrev bytes_in : SamplePart → List ℕ
bytes_in (of_bytes b) = b
bytes_in _ = []

-- The one byte that the key of the public text `public` signs with.
abbrev is_signature : ℕ → List ℕ → Bool
is_signature public (b ∷ []) = b == public + 2
is_signature public _ = false

abbrev library_verify : List SamplePart → (public algorithm : ℕ) → Expected → (now : ℕ) → Verdict
library_verify (of_header h ∷ of_claims c ∷ of_bytes s ∷ []) public a e now =
    answered (some (is_signature public s)) c e now
library_verify _ public a e now = rejected jwt_malformed

abbrev sample : Libraries
sample = record {
  Part = SamplePart;
  is_empty = λ p. false;
  encode_header = of_header;
  decode_header = header_in;
  encode_claims = of_claims;
  decode_claims = claims_in;
  encode_bytes = of_bytes;
  decode_bytes = bytes_in;
  decode_key = λ text. text;
  jwt_sign = λ c private a kid draw.
      of_header (record { alg = some a; kid = some kid; pqc_kid = none })
      ∷ of_claims c
      ∷ of_bytes ((private + 1) ∷ [])
      ∷ [];
  jwt_verify = library_verify;
  node_sign = λ b input private draw. (private + 1) ∷ [];
  node_verify = λ b input public s. is_signature public s;
  ml_dsa_sign = λ a input private draw. (private + 1) ∷ [];
  ml_dsa_verify = λ a s input public. is_signature public s;
  IsKeyPair = λ public private. private ≡ public + 1;
  IsMlDsaPair = λ a public private. private ≡ public + 1;
  IsP256 = λ private. ⊥;
}

abbrev service : Service
service = record {
  issuer = 50;
  audience = 51;
  access_token_ttl_ms = 900000;
  keys = record {
    algorithm = eddsa;
    parts = λ m. record {
      public_key = some m;
      private_key = some (m + 1);
      pq_public_key = none;
      pq_private_key = none;
    };
    is_pem_pair = λ a b. b == a + 1;
    decoded_length = λ text. none;
  };
}

abbrev user : Identity
user = record {
  user_id = 7;
  tenant_id = 3;
  application_id = 4;
  session_id = 9;
  roles = [];
  permissions = 30 ∷ [];
  auth_method = 1;
  token_version = some 2;
  scope = none;
  client_id = none;
}

abbrev first : SigningKey
first = new_key service.keys 8 80 5000000 1000

-- The key is retired after it has signed, and the token stays good.
abbrev retired_keys : List SigningKey
retired_keys = record first { status = verify_only; retired_at = some 300000 } ∷ []

abbrev token : Token sample
token =
    of_header (record { alg = some eddsa; kid = some 8; pqc_kid = none })
    ∷ of_claims (claims_for service sample user 8 77 2000)
    ∷ of_bytes (82 ∷ [])
    ∷ []

-- Two integers, one with its high bit set and one that is short.
abbrev signature : List ℕ
signature = (200 ∷ zeros 31) ++ zeros 31 ++ 5 ∷ []

der_to_jose-jose_to_der_example :
    (der : List ℕ) × (jose_to_der signature ≡ some der) × (der_to_jose der ≡ some signature)
der_to_jose-jose_to_der_example = der_to_jose-jose_to_der signature refl
