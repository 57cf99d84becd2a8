-- ===== src/AccessTokens/Roundtrip.antt =====
-- Signing and verification of packages/crypto/src/jwt.ts fit together.
use pezhwan.AccessTokens.Conversions.{der_to_jose-jose_to_der}
use pezhwan.Base.{
  sym, length, ◌∙◌, ℕ, ◌+◌, ◌<◌, ◌≡◌, ◌⊎◌, refl, inl, inr, Bool, true, false, List, [], ◌∷◌, Option,
  none, some, ◌==◌, arith, Bool-cases, ==_refl,
}
use pezhwan.SigningKeys.{
  SigningKey, SigningKeyMaterial, is_hybrid, is_pure_pq, ml_dsa_65, hybrid_es256_mldsa65,
}
use pezhwan.AccessTokens.{
  jose_to_der, to_jose, of_jose, Claims, Header, Expected, Token, Libraries, valid, eddsa,
  assert_jwt_claims, equals_text, sign_token, verify_token, header_of, with_iat, judged, encoded,
  sign_hybrid, sign_ml_dsa, sign_eddsa, sign_library, has_algorithm, is_hybrid_of, decode_parts,
}

-- The claims are those that are expected, in time at `now`.
abbrev pub IsTimely : Claims → Expected → ℕ → Type 0
IsTimely c e now =
    (c.iss ≡ some e.issuer)
    × (c.aud ≡ e.audience ∷ [])
    × ((t : ℕ) × (c.iat ≡ some t) × (now < t + e.max_age))
    × ((t : ℕ) × (c.exp ≡ some t) × (now < t))
    × (c.nbf ≡ none)

-- What is documented of the libraries: encodings are read back, and a signature that is made with the
-- private key of a pair passes with its public key.
pub record IsLibraries (lib : Libraries) : Type 0 where
  pub decode_bytes-encode_bytes : (b : List ℕ) → lib.decode_bytes (lib.encode_bytes b) ≡ b
  pub decode_header-encode_header : (h : Header) → lib.decode_header (lib.encode_header h) ≡ some h
  pub decode_claims-encode_claims : (c : Claims) → lib.decode_claims (lib.encode_claims c) ≡ some c
  pub encode_header-filled : (h : Header) → lib.is_empty (lib.encode_header h) ≡ false
  pub encode_claims-filled : (c : Claims) → lib.is_empty (lib.encode_claims c) ≡ false
  pub node_sign-filled :
      (b : Bool) (input : lib.Part × lib.Part) (private draw : ℕ)
      → lib.is_empty (lib.encode_bytes (lib.node_sign b input private draw)) ≡ false
  -- The DER of a signature on the curve is that of two integers of at most 32 bytes.
  pub node_sign-IsP256 :
      (input : lib.Part × lib.Part) (private draw : ℕ)
      → lib.IsP256 private
      → (raw : List ℕ) × (length raw ≡ 64)
        × (jose_to_der raw ≡ some (lib.node_sign true input private draw))
  pub node_verify-node_sign :
      (b : Bool) (input : lib.Part × lib.Part) (public private draw : ℕ)
      → lib.IsKeyPair public private
      → lib.node_verify b input public (lib.node_sign b input private draw) ≡ true
  pub ml_dsa_verify-ml_dsa_sign :
      (a : ℕ) (input : lib.Part × lib.Part) (public private draw : ℕ)
      → lib.IsMlDsaPair a public private
      → lib.ml_dsa_verify a (lib.ml_dsa_sign a input private draw) input public ≡ true
  pub jwt_sign-parts :
      (c : Claims) (private a kid draw : ℕ)
      → (payload : lib.Part) × (signature : lib.Part) × (lib.jwt_sign c private a kid draw
          ≡ lib.encode_header (record { alg = some a; kid = some kid; pqc_kid = none })
            ∷ payload
            ∷ signature
            ∷ [])
  pub jwt_verify-jwt_sign :
      (c : Claims) (public private a kid draw now : ℕ) (e : Expected)
      → lib.IsKeyPair public private
      → IsTimely c e now
      → lib.jwt_verify (lib.jwt_sign c private a kid draw) public a e now ≡ valid c

pub assert_jwt_claims-timely :
    (c : Claims) (e : Expected) (now : ℕ) → IsTimely c e now → assert_jwt_claims c e now ≡ none
unfolding assert_jwt_claims
assert_jwt_claims-timely c e now (i, a, (t, born, young), (s, ends, before), start) =
    rw (i, a, born, ends, start)
      (ground (arith, young, before, ==_refl e.issuer, ==_refl e.audience))

with_iat-kept : (c : Claims) (now t : ℕ) (iat : Option ℕ) → iat ≡ some t → with_iat c now iat ≡ c
with_iat-kept c now t none e = cc
with_iat-kept c now t (some s) e = refl

module _ (lib : Libraries) (laws : IsLibraries lib) where
  -- The texts of a key of algorithm `a` are the pairs that it needs.
  pub record IsPaired (m : SigningKeyMaterial) (a : ℕ) : Type 0 where
    pub classical :
        is_pure_pq a ≡ false
        → (public : ℕ) × (private : ℕ) × (m.public_key ≡ some public)
          × (m.private_key ≡ some private)
          × lib.IsKeyPair public private
    pub on_curve :
        (a == hybrid_es256_mldsa65) ≡ true
        → (private : ℕ) → m.private_key ≡ some private
        → lib.IsP256 private
    pub post_quantum :
        (level : ℕ)
        → (is_hybrid a ≡ true) × (level ≡ ml_dsa_65) ⊎ (is_pure_pq a ≡ true) × (level ≡ a)
        → (public : ℕ) × (private : ℕ) × (m.pq_public_key ≡ some public)
          × (m.pq_private_key ≡ some private)
          × lib.IsMlDsaPair level (lib.decode_key public) (lib.decode_key private)

  decode_parts-encoded :
      (h : Header) (c : Claims)
      → decode_parts lib (encoded lib h c).0 (encoded lib h c).1 ≡ some (h, c)
  decode_parts-encoded h c =
      rw (laws.decode_header-encode_header h, laws.decode_claims-encode_claims c) refl

  joined_legs :
      (m : SigningKeyMaterial) (a : ℕ) (input : lib.Part × lib.Part) (private draw : ℕ)
      → IsPaired m a
      → m.private_key ≡ some private
      → let s = lib.node_sign true input private draw in
        (joined : List ℕ) × (to_jose lib a s ≡ some joined) × (of_jose lib a joined ≡ some s)
  joined_legs m a input private draw paired same = elim (Bool-cases (a == hybrid_es256_mldsa65)) [
    | inr plain ↦ rw plain (lib.node_sign true input private draw, refl, refl)
    | inl curve ↦
        let (raw, size, der_of) =
          laws.node_sign-IsP256 input private draw (paired.on_curve curve private same) in
        let (der, made, back) = der_to_jose-jose_to_der raw size in
        let same_der : some der ≡ some (lib.node_sign true input private draw) =
          sym made ∙ der_of in
        let own : der ≡ lib.node_sign true input private draw = cc in
        rw curve (raw, rw (← own) back, der_of)
  ]

  -- The token carries the claims and names the key.
  pub record Carries (m : SigningKeyMaterial) (c : Claims) (j : SigningKey) (e : Expected) (now : ℕ)
      (signed : Option (Token lib)) : Type 0 where
    pub token : Token lib
    pub payload : lib.Part
    pub signatures : List lib.Part
    pub header : Header
    pub made : signed ≡ some token
    pub starts : token ≡ lib.encode_header header ∷ payload ∷ signatures
    pub names : header.kid ≡ some j.kid
    pub passes : verify_token lib m token j e now ≡ valid c

  module _ (m : SigningKeyMaterial) (c : Claims) (k : SigningKey) (e : Expected) (draw now : ℕ)
      (timely : IsTimely c e now) (paired : IsPaired m k.algorithm) where
    judged-valid :
        (h : Header) (fits : Header → Bool)
        → fits h ≡ true
        → judged (decode_parts lib (encoded lib h c).0 (encoded lib h c).1) fits (some true) e now
          ≡ valid c
    judged-valid h fits good =
        rw (decode_parts-encoded h c, good, assert_jwt_claims-timely c e now timely) refl

    hybrid-Carries :
        is_hybrid k.algorithm ≡ true
        → is_pure_pq k.algorithm ≡ false
        → Carries m c k e now (sign_hybrid lib m.private_key m.pq_private_key c k draw)
    unfolding verify_token
    hybrid-Carries hybrid impure =
        let (public, private, pb, pv, pair) = paired.classical impure in
        let (qpublic, qprivate, qb, qv, qpair) =
          paired.post_quantum ml_dsa_65 (inl (hybrid, refl)) in
        let h : Header = record (header_of k) { pqc_kid = some k.kid } in
        let input = encoded lib h c in
        let s = lib.node_sign true input private draw in
        let (joined, forth, back) = joined_legs m k.algorithm input private draw paired pv in
        let q = lib.ml_dsa_sign ml_dsa_65 input (lib.decode_key qprivate) draw in
        record {
          token = input.0 ∷ input.1 ∷ lib.encode_bytes joined ∷ lib.encode_bytes q ∷ [];
          payload = input.1;
          signatures = lib.encode_bytes joined ∷ lib.encode_bytes q ∷ [];
          header = h;
          made = rw (pv, qv, forth) refl;
          starts = refl;
          names = refl;
          passes =
              rw
                (
                  hybrid,
                  pb,
                  qb,
                  laws.decode_bytes-encode_bytes joined,
                  back,
                  laws.decode_bytes-encode_bytes q,
                  laws.node_verify-node_sign true input public private draw pair,
                  laws.ml_dsa_verify-ml_dsa_sign ml_dsa_65 input (lib.decode_key qpublic)
                      (lib.decode_key qprivate) draw qpair,
                )
                (judged-valid h (is_hybrid_of k.algorithm k.kid)
                  (rw (==_refl k.algorithm, ==_refl k.kid) refl));
        }

    ml_dsa-Carries :
        is_hybrid k.algorithm ≡ false
        → is_pure_pq k.algorithm ≡ true
        → Carries m c k e now (sign_ml_dsa lib m.pq_private_key c k draw)
    unfolding verify_token
    ml_dsa-Carries single pure =
        let (public, private, pb, pv, pair) = paired.post_quantum k.algorithm (inr (pure, refl)) in
        let input = encoded lib (header_of k) c in
        let s = lib.ml_dsa_sign k.algorithm input (lib.decode_key private) draw in
        record {
          token = input.0 ∷ input.1 ∷ lib.encode_bytes s ∷ [];
          payload = input.1;
          signatures = lib.encode_bytes s ∷ [];
          header = header_of k;
          made = rw pv refl;
          starts = refl;
          names = refl;
          passes =
              rw
                (
                  single,
                  pure,
                  pb,
                  laws.decode_bytes-encode_bytes s,
                  laws.ml_dsa_verify-ml_dsa_sign k.algorithm input (lib.decode_key public)
                      (lib.decode_key private) draw pair,
                )
                (judged-valid (header_of k) (has_algorithm k.algorithm) (==_refl k.algorithm));
        }

    eddsa-Carries :
        is_hybrid k.algorithm ≡ false
        → is_pure_pq k.algorithm ≡ false
        → (k.algorithm == eddsa) ≡ true
        → Carries m c k e now (sign_eddsa lib m.private_key c k draw)
    unfolding verify_token
    eddsa-Carries single impure edwards =
        let (public, private, pb, pv, pair) = paired.classical impure in
        let input = encoded lib (header_of k) c in
        let s = lib.node_sign false input private draw in
        record {
          token = input.0 ∷ input.1 ∷ lib.encode_bytes s ∷ [];
          payload = input.1;
          signatures = lib.encode_bytes s ∷ [];
          header = header_of k;
          made = rw pv refl;
          starts = refl;
          names = refl;
          passes =
              rw
                (
                  single,
                  impure,
                  edwards,
                  pb,
                  laws.encode_header-filled (header_of k),
                  laws.encode_claims-filled c,
                  laws.node_sign-filled false input private draw,
                  laws.decode_bytes-encode_bytes s,
                  laws.node_verify-node_sign false input public private draw pair,
                )
                (judged-valid (header_of k) (λ h. equals_text h.alg eddsa) edwards);
        }

    library-Carries :
        is_hybrid k.algorithm ≡ false
        → is_pure_pq k.algorithm ≡ false
        → (k.algorithm == eddsa) ≡ false
        → Carries m c k e now (sign_library lib m.private_key c k draw)
    unfolding verify_token
    library-Carries single impure plain =
        let (public, private, pb, pv, pair) = paired.classical impure in
        let (payload, signature, same) = laws.jwt_sign-parts c private k.algorithm k.kid draw in
        record {
          token = lib.jwt_sign c private k.algorithm k.kid draw;
          payload = payload;
          signatures = signature ∷ [];
          header = header_of k;
          made = rw pv refl;
          starts = same;
          names = refl;
          passes =
              rw
                (
                  single,
                  impure,
                  plain,
                  pb,
                  laws.jwt_verify-jwt_sign c public private k.algorithm k.kid draw now e pair
                      timely,
                )
                refl;
        }

    pub sign_token-Carries : (made_at : ℕ) → Carries m c k e now (sign_token lib m c k draw made_at)
    unfolding sign_token
    sign_token-Carries made_at =
        let (_, _, (t, born, _), _, _) = timely in
        let same = with_iat-kept c made_at t c.iat born in
        elim (Bool-cases (is_hybrid k.algorithm)) [
          | inl hybrid ↦
              let impure : is_pure_pq k.algorithm ≡ false = ground arith in
              rw (same, hybrid) (hybrid-Carries hybrid impure)
          | inr single ↦ elim (Bool-cases (is_pure_pq k.algorithm)) [
            | inl pure ↦ rw (same, single, pure) (ml_dsa-Carries single pure)
            | inr impure ↦ elim (Bool-cases (k.algorithm == eddsa)) [
              | inl edwards ↦
                  rw (same, single, impure, edwards) (eddsa-Carries single impure edwards)
              | inr other ↦ rw (same, single, impure, other) (library-Carries single impure other)
            ]
          ]
        ]

-- Verification reads the algorithm and the kid of a key, besides its material.
pub verify_token-same :
    (lib : Libraries) (m : SigningKeyMaterial) (t : Token lib) (j k : SigningKey) (e : Expected)
    (now : ℕ)
    → j.algorithm ≡ k.algorithm
    → j.kid ≡ k.kid
    → verify_token lib m t j e now ≡ verify_token lib m t k e now
unfolding verify_token
verify_token-same lib m t j k e now a i = rw (a, i) refl
