-- ===== src/AccessTokens/Jwt.antt =====
-- signToken and verifyToken of packages/crypto/src/jwt.ts. A token is the list of its parts, which the
-- dots divide. The library jsonwebtoken, which has the classical algorithms, node's and noble's
-- signatures and the encodings are parameters. Texts are numbers, 0 the empty one, signatures lists of
-- bytes, and a `pqc_kid` is what stands before its `-pqc`. What a signature draws at random is an
-- argument; times are in seconds.
use pezhwan.Base.{
  ℕ, ◌-◌, Bool, true, false, not, ◌&&◌, List, [], ◌∷◌, Option, none, some, ◌==◌, ltb, leb, any,
  if◌then◌else◌,
}
use pezhwan.AccessTokens.Der.{der_to_jose, jose_to_der}
use pezhwan.SigningKeys.{
  SigningKey, SigningKeyMaterial, is_hybrid, is_pure_pq, ml_dsa_65, hybrid_es256_mldsa65,
}

-- The claims that are read. A claim of another type than the one that is tested for is absent; the
-- first four are 0 then. A single audience is a list of one.
pub record Claims : Type 0 where
  pub sub : ℕ
  pub tenant_id : ℕ
  pub application_id : ℕ
  pub session_id : ℕ
  pub roles : Option (List ℕ)
  pub permissions : Option (List ℕ)
  pub auth_method : Option ℕ
  pub kid : Option ℕ
  pub iss : Option ℕ
  pub aud : List ℕ
  pub iat : Option ℕ
  pub exp : Option ℕ
  pub nbf : Option ℕ
  pub jti : Option ℕ
  pub scope : Option ℕ
  pub client_id : Option ℕ
  pub token_version : Option ℕ

pub record Header : Type 0 where
  pub alg : Option ℕ
  pub kid : Option ℕ
  pub pqc_kid : Option ℕ

-- What a verification is told to expect.
pub record Expected : Type 0 where
  pub issuer : ℕ
  pub audience : ℕ
  pub max_age : ℕ

pub data JwtError : Type 0 where
  jwt_expired max_age_exceeded jwt_not_active jwt_malformed invalid_token : JwtError
  invalid_algorithm jwt_invalid_signature issuer_invalid audience_invalid key_missing : JwtError

pub data Verdict : Type 0 where
  valid : Claims → Verdict
  rejected : JwtError → Verdict

-- An answer `false` of a verification stands for its exceptions too. A
-- part is a text in Base64, of the JSON of a header or of claims, or of the bytes of a signature; keys
-- are in Base64 too for noble.
pub record Libraries : Type 1 where
  pub Part : Type 0
  pub is_empty : Part → Bool
  pub encode_header : Header → Part
  pub decode_header : Part → Option Header
  pub encode_claims : Claims → Part
  pub decode_claims : Part → Option Claims
  pub encode_bytes : List ℕ → Part
  pub decode_bytes : Part → List ℕ
  pub decode_key : ℕ → ℕ
  pub jwt_sign : Claims → (private algorithm kid draw : ℕ) → List Part
  pub jwt_verify : List Part → (public algorithm : ℕ) → Expected → (now : ℕ) → Verdict
  pub node_sign : (with_sha256 : Bool) → (input : Part × Part) → (private draw : ℕ) → List ℕ
  pub node_verify :
      (with_sha256 : Bool) → (input : Part × Part) → (public : ℕ) → (signature : List ℕ) → Bool
  pub ml_dsa_sign : (algorithm : ℕ) → (input : Part × Part) → (private draw : ℕ) → List ℕ
  pub ml_dsa_verify :
      (algorithm : ℕ) → (signature : List ℕ) → (input : Part × Part) → (public : ℕ) → Bool
  -- The pairs of texts that key generation makes.
  pub IsKeyPair : (public private : ℕ) → Type 0
  pub IsMlDsaPair : (algorithm public private : ℕ) → Type 0
  -- The private keys of the curve P-256.
  pub IsP256 : (private : ℕ) → Type 0

abbrev pub eddsa : ℕ
eddsa = 4

abbrev pub is_past : Option ℕ → ℕ → Bool
is_past none now = false
is_past (some t) now = leb t now

abbrev pub is_ahead : Option ℕ → ℕ → Bool
is_ahead none now = false
is_ahead (some t) now = ltb now t

abbrev pub is_too_old : Option ℕ → (max_age now : ℕ) → Bool
is_too_old none max_age now = false
is_too_old (some t) max_age now = ltb max_age (now - t)

abbrev pub equals_text : Option ℕ → ℕ → Bool
equals_text none a = false
equals_text (some b) a = b == a

unfoldable pub assert_jwt_claims : Claims → Expected → (now : ℕ) → Option JwtError
assert_jwt_claims c e now =
    if is_past c.exp now
    then some jwt_expired
    else if is_ahead c.nbf now
    then some jwt_not_active
    else if is_too_old c.iat e.max_age now
    then some max_age_exceeded
    else if not (equals_text c.iss e.issuer)
    then some issuer_invalid
    else if not (any (λ a. a == e.audience) c.aud)
    then some audience_invalid
    else none

abbrev pub settled : Option JwtError → Claims → Verdict
settled none c = valid c
settled (some e) c = rejected e

-- The answer about the signature, where the key has the material that is asked for.
abbrev pub answered : Option Bool → Claims → Expected → (now : ℕ) → Verdict
answered none c e now = rejected key_missing
answered (some good) c e now =
    if good then settled (assert_jwt_claims c e now) c else rejected jwt_invalid_signature

abbrev pub judged :
    Option (Header × Claims) → (fits : Header → Bool) → Option Bool → Expected → (now : ℕ) → Verdict
judged none fits answer e now = rejected invalid_token
judged (some (h, c)) fits answer e now =
    if fits h then answered answer c e now else rejected invalid_algorithm

abbrev pub both : Option Header → Option Claims → Option (Header × Claims)
both (some h) (some c) = some (h, c)
both _ _ = none

abbrev pub with_iat : Claims → (now : ℕ) → Option ℕ → Claims
with_iat c now none = record c { iat = some now }
with_iat c now (some t) = c

-- Without options to `signToken`.
abbrev pub claims_with_time : Claims → (now : ℕ) → Claims
claims_with_time c now = with_iat c now c.iat

abbrev pub header_of : SigningKey → Header
header_of k = record { alg = some k.algorithm; kid = some k.kid; pqc_kid = none }

abbrev pub has_algorithm : (algorithm : ℕ) → Header → Bool
has_algorithm a h = equals_text h.alg a

abbrev pub is_hybrid_of : (algorithm kid : ℕ) → Header → Bool
is_hybrid_of a kid h = has_algorithm a h && equals_text h.pqc_kid kid

module _ (lib : Libraries) where
  abbrev pub Token : Type 0
  Token = List lib.Part

  abbrev pub encoded : Header → Claims → lib.Part × lib.Part
  encoded h c = (lib.encode_header h, lib.encode_claims c)

  abbrev pub decode_parts : (encoded_header encoded_payload : lib.Part) → Option (Header × Claims)
  decode_parts h p = both (lib.decode_header h) (lib.decode_claims p)

  abbrev pub sign_ml_dsa : (private : Option ℕ) → Claims → SigningKey → (draw : ℕ) → Option Token
  sign_ml_dsa none c k draw = none
  sign_ml_dsa (some private) c k draw =
      let input = encoded (header_of k) c in
      some (
        input.0
        ∷ input.1
        ∷ lib.encode_bytes (lib.ml_dsa_sign k.algorithm input (lib.decode_key private) draw)
        ∷ [])

  abbrev pub sign_eddsa : (private : Option ℕ) → Claims → SigningKey → (draw : ℕ) → Option Token
  sign_eddsa none c k draw = none
  sign_eddsa (some private) c k draw =
      let input = encoded (header_of k) c in
      some (input.0 ∷ input.1 ∷ lib.encode_bytes (lib.node_sign false input private draw) ∷ [])

  -- The classical signature in the form that a token has.
  abbrev pub to_jose : (algorithm : ℕ) → List ℕ → Option (List ℕ)
  to_jose algorithm s = if algorithm == hybrid_es256_mldsa65 then der_to_jose s else some s

  abbrev pub of_jose : (algorithm : ℕ) → List ℕ → Option (List ℕ)
  of_jose algorithm s = if algorithm == hybrid_es256_mldsa65 then jose_to_der s else some s

  abbrev pub with_legs :
      lib.Part × lib.Part → (classical : Option (List ℕ)) → (pq : List ℕ) → Option Token
  with_legs input none pq = none
  with_legs input (some classical) pq =
      some (input.0 ∷ input.1 ∷ lib.encode_bytes classical ∷ lib.encode_bytes pq ∷ [])

  abbrev pub sign_hybrid :
      (private pq_private : Option ℕ) → Claims → SigningKey → (draw : ℕ) → Option Token
  sign_hybrid (some private) (some pq_private) c k draw =
      let input = encoded (record (header_of k) { pqc_kid = some k.kid }) c in
      with_legs input (to_jose k.algorithm (lib.node_sign true input private draw))
        (lib.ml_dsa_sign ml_dsa_65 input (lib.decode_key pq_private) draw)
  sign_hybrid _ _ c k draw = none

  abbrev pub sign_library : (private : Option ℕ) → Claims → SigningKey → (draw : ℕ) → Option Token
  sign_library none c k draw = none
  sign_library (some private) c k draw = some (lib.jwt_sign c private k.algorithm k.kid draw)

  -- A result of `none` is an exception.
  unfoldable pub sign_token :
      SigningKeyMaterial → Claims → SigningKey → (draw now : ℕ) → Option Token
  sign_token m c k draw now =
      let claims = claims_with_time c now in
      if is_hybrid k.algorithm
      then sign_hybrid m.private_key m.pq_private_key claims k draw
      else if is_pure_pq k.algorithm
      then sign_ml_dsa m.pq_private_key claims k draw
      else if k.algorithm == eddsa
      then sign_eddsa m.private_key claims k draw
      else sign_library m.private_key c k draw

  abbrev pub ml_dsa_answer :
      (public : Option ℕ)
      → (algorithm : ℕ) → (signature : lib.Part) → (input : lib.Part × lib.Part) → Option Bool
  ml_dsa_answer none a s input = none
  ml_dsa_answer (some public) a s input =
      some (lib.ml_dsa_verify a (lib.decode_bytes s) input (lib.decode_key public))

  abbrev pub verify_ml_dsa :
      (public : Option ℕ) → Token → (algorithm : ℕ) → Expected → (now : ℕ) → Verdict
  verify_ml_dsa public (h ∷ p ∷ s ∷ []) a e now =
      judged (decode_parts h p) (has_algorithm a) (ml_dsa_answer public a s (h, p)) e now
  verify_ml_dsa public _ a e now = rejected jwt_malformed

  abbrev pub eddsa_answer :
      (public : Option ℕ) → (signature : lib.Part) → (input : lib.Part × lib.Part) → Option Bool
  eddsa_answer none s input = none
  eddsa_answer (some public) s input =
      some (lib.node_verify false input public (lib.decode_bytes s))

  abbrev pub verify_eddsa : (public : Option ℕ) → Token → Expected → (now : ℕ) → Verdict
  verify_eddsa public (h ∷ p ∷ s ∷ []) e now =
      if any lib.is_empty (h ∷ p ∷ s ∷ [])
      then rejected jwt_malformed
      else judged (decode_parts h p) (λ header. equals_text header.alg eddsa)
          (eddsa_answer public s (h, p)) e now
  verify_eddsa public _ e now = rejected jwt_malformed

  abbrev pub leg_answer :
      (public : Option ℕ) → (signature : Option (List ℕ)) → (input : lib.Part × lib.Part) → Bool
  leg_answer (some public) (some s) input = lib.node_verify true input public s
  leg_answer _ _ input = false

  abbrev pub hybrid_answer : (classical : Bool) → (pq : Option Bool) → Option Bool
  hybrid_answer classical none = none
  hybrid_answer classical (some pq) = some (classical && pq)

  abbrev pub verify_hybrid :
      (public pq_public : Option ℕ) → Token → (algorithm kid : ℕ) → Expected → (now : ℕ) → Verdict
  verify_hybrid public pq_public (h ∷ p ∷ s ∷ q ∷ []) a kid e now =
      judged (decode_parts h p) (is_hybrid_of a kid)
        (hybrid_answer (leg_answer public (of_jose a (lib.decode_bytes s)) (h, p))
          (ml_dsa_answer pq_public ml_dsa_65 q (h, p)))
        e now
  verify_hybrid public pq_public _ a kid e now = rejected jwt_malformed

  abbrev pub verify_library :
      (public : Option ℕ) → Token → (algorithm : ℕ) → Expected → (now : ℕ) → Verdict
  verify_library none t a e now = rejected key_missing
  verify_library (some public) t a e now = lib.jwt_verify t public a e now

  unfoldable pub verify_token :
      SigningKeyMaterial → Token → SigningKey → Expected → (now : ℕ) → Verdict
  verify_token m t k e now =
      if is_hybrid k.algorithm
      then verify_hybrid m.public_key m.pq_public_key t k.algorithm k.kid e now
      else if is_pure_pq k.algorithm
      then verify_ml_dsa m.pq_public_key t k.algorithm e now
      else if k.algorithm == eddsa
      then verify_eddsa m.public_key t e now
      else verify_library m.public_key t k.algorithm e now
