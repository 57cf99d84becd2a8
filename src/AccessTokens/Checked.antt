-- ===== src/AccessTokens/Checked.antt =====
-- What a verification of packages/crypto/src/jwt.ts has checked where it accepts a token.
use pezhwan.Base.{
  List, ℕ, ◌+◌, ◌≤◌, ◌<◌, ◌≡◌, refl, inl, inr, Bool, true, false, [], ◌∷◌, Option, none, some, ◌==◌,
  any, arith, Bool-cases,
}
use pezhwan.SigningKeys.{SigningKey, SigningKeyMaterial, is_hybrid, is_pure_pq, ml_dsa_65}
use pezhwan.AccessTokens.{
  Claims, Header, Expected, Token, Libraries, JwtError, valid, eddsa, assert_jwt_claims,
  equals_text, verify_token, settled, judged, answered, has_algorithm, is_hybrid_of, decode_parts,
  of_jose, verify_ml_dsa, verify_eddsa, verify_hybrid, verify_library, ml_dsa_answer, eddsa_answer,
  hybrid_answer, leg_answer,
}

-- The claims are for the issuer and the audience that are expected, and in time at `now`.
pub record InTime (c : Claims) (e : Expected) (now : ℕ) : Type 0 where
  pub unexpired : (t : ℕ) → c.exp ≡ some t → now < t
  pub begun : (t : ℕ) → c.nbf ≡ some t → t ≤ now
  pub young : (t : ℕ) → c.iat ≡ some t → now ≤ t + e.max_age
  pub issued : c.iss ≡ some e.issuer
  pub addressed : any (λ a. a == e.audience) c.aud ≡ true

equals_text-some : (o : Option ℕ) (a : ℕ) → equals_text o a ≡ true → o ≡ some a
equals_text-some none a h = cc
equals_text-some (some b) a h = ground (arith, h)

assert_jwt_claims-InTime :
    (c : Claims) (e : Expected) (now : ℕ) → assert_jwt_claims c e now ≡ none → InTime c e now
unfolding assert_jwt_claims
assert_jwt_claims-InTime c e now h = record {
  unexpired = λ t same. ground (arith, h, same);
  begun = λ t same. ground (arith, h, same);
  young = λ t same. ground (arith, h, same);
  issued = equals_text-some c.iss e.issuer (ground (arith, h));
  addressed = ground (arith, h);
}

settled-valid : (o : Option JwtError) (c d : Claims) → settled o c ≡ valid d → (o ≡ none) × (c ≡ d)
settled-valid none c d h = (refl, cc)
settled-valid (some e) c d h = cc

answered-valid :
    (answer : Option Bool) (c d : Claims) (e : Expected) (now : ℕ)
    → answered answer c e now ≡ valid d
    → (answer ≡ some true) × (c ≡ d) × InTime d e now
answered-valid none c d e now h = cc
answered-valid (some false) c d e now h = cc
answered-valid (some true) c d e now h =
    let (fine, same) = settled-valid (assert_jwt_claims c e now) c d h in
    (refl, same, rw (← same) (assert_jwt_claims-InTime c e now fine))

judged-checks :
    (decoded : Option (Header × Claims)) (fits : Header → Bool) (answer : Option Bool)
    (e : Expected) (now : ℕ) (c : Claims)
    → judged decoded fits answer e now ≡ valid c
    → (h : Header) × (decoded ≡ some (h, c))
      × (fits h ≡ true)
      × (answer ≡ some true)
      × InTime c e now
judged-checks none fits answer e now c r = cc
judged-checks (some (h, d)) fits answer e now c r = elim (Bool-cases (fits h)) [
  | inr other ↦ cc (rw other at r)
  | inl same_kind ↦
      let (passed, same, timely) = answered-valid answer d c e now (rw same_kind at r) in
      (h, rw same refl, same_kind, passed, timely)
]

module _ (lib : Libraries) where
  ml_dsa_answer-true :
      (o : Option ℕ) (a : ℕ) (s : lib.Part) (input : lib.Part × lib.Part)
      → ml_dsa_answer lib o a s input ≡ some true
      → (public : ℕ) × (o ≡ some public)
        × (lib.ml_dsa_verify a (lib.decode_bytes s) input (lib.decode_key public) ≡ true)
  ml_dsa_answer-true none a s input h = cc
  ml_dsa_answer-true (some public) a s input h = (public, refl, cc)

  eddsa_answer-true :
      (o : Option ℕ) (s : lib.Part) (input : lib.Part × lib.Part)
      → eddsa_answer lib o s input ≡ some true
      → (public : ℕ) × (o ≡ some public)
        × (lib.node_verify false input public (lib.decode_bytes s) ≡ true)
  eddsa_answer-true none s input h = cc
  eddsa_answer-true (some public) s input h = (public, refl, cc)

  leg_answer-true :
      (o : Option ℕ) (s : Option (List ℕ)) (input : lib.Part × lib.Part)
      → leg_answer lib o s input ≡ true
      → (public : ℕ) × (signature : List ℕ) × (o ≡ some public)
        × (s ≡ some signature)
        × (lib.node_verify true input public signature ≡ true)
  leg_answer-true none s input h = cc
  leg_answer-true (some public) none input h = cc
  leg_answer-true (some public) (some signature) input h = (public, signature, refl, refl, h)

  hybrid_answer-true :
      (classical : Bool) (pq : Option Bool)
      → hybrid_answer lib classical pq ≡ some true
      → (classical ≡ true) × (pq ≡ some true)
  hybrid_answer-true classical none h = cc
  hybrid_answer-true false (some pq) h = cc
  hybrid_answer-true true (some pq) h = (refl, h)

module _ (lib : Libraries) (m : SigningKeyMaterial) (k : SigningKey) (e : Expected) (now : ℕ) where
  -- The claims are those of the token, whose signature passes with the public texts of the key and for
  -- its algorithm.
  pub data Checked : Token lib → Claims → Type 0 where
    by_library :
        {t : Token lib} {c : Claims} (public : ℕ)
        → m.public_key ≡ some public
        → lib.jwt_verify t public k.algorithm e now ≡ valid c
        → Checked t c
    by_ml_dsa :
        {h p s : lib.Part} {c : Claims} (public : ℕ) (header : Header)
        → m.pq_public_key ≡ some public
        → decode_parts lib h p ≡ some (header, c)
        → header.alg ≡ some k.algorithm
        → lib.ml_dsa_verify k.algorithm (lib.decode_bytes s) (h, p) (lib.decode_key public) ≡ true
        → InTime c e now
        → Checked (h ∷ p ∷ s ∷ []) c
    by_eddsa :
        {h p s : lib.Part} {c : Claims} (public : ℕ) (header : Header)
        → m.public_key ≡ some public
        → decode_parts lib h p ≡ some (header, c)
        → header.alg ≡ some k.algorithm
        → lib.node_verify false (h, p) public (lib.decode_bytes s) ≡ true
        → InTime c e now
        → Checked (h ∷ p ∷ s ∷ []) c
    by_hybrid :
        {h p s q : lib.Part} {c : Claims} (public pq_public : ℕ) (signature : List ℕ)
        (header : Header)
        → m.public_key ≡ some public
        → m.pq_public_key ≡ some pq_public
        → decode_parts lib h p ≡ some (header, c)
        → header.alg ≡ some k.algorithm
        → header.pqc_kid ≡ some k.kid
        → of_jose lib k.algorithm (lib.decode_bytes s) ≡ some signature
        → lib.node_verify true (h, p) public signature ≡ true
        → lib.ml_dsa_verify ml_dsa_65 (lib.decode_bytes q) (h, p) (lib.decode_key pq_public) ≡ true
        → InTime c e now
        → Checked (h ∷ p ∷ s ∷ q ∷ []) c

  verify_library-Checked :
      (o : Option ℕ) (t : Token lib) (c : Claims)
      → m.public_key ≡ o
      → verify_library lib o t k.algorithm e now ≡ valid c
      → Checked t c
  verify_library-Checked none t c same r = cc
  verify_library-Checked (some public) t c same r = by_library public same r

  verify_ml_dsa-Checked :
      (t : Token lib) (c : Claims)
      → verify_ml_dsa lib m.pq_public_key t k.algorithm e now ≡ valid c
      → Checked t c
  verify_ml_dsa-Checked [] c r = cc
  verify_ml_dsa-Checked (h ∷ []) c r = cc
  verify_ml_dsa-Checked (h ∷ p ∷ []) c r = cc
  verify_ml_dsa-Checked (h ∷ p ∷ s ∷ q ∷ more) c r = cc
  verify_ml_dsa-Checked (h ∷ p ∷ s ∷ []) c r =
      let (header, decoded, kind, passed, timely) =
        judged-checks (decode_parts lib h p) (has_algorithm k.algorithm)
          (ml_dsa_answer lib m.pq_public_key k.algorithm s (h, p)) e now c r in
      let (public, same, good) =
        ml_dsa_answer-true lib m.pq_public_key k.algorithm s (h, p) passed in
      by_ml_dsa public header same decoded (equals_text-some header.alg k.algorithm kind) good
        timely

  verify_eddsa-Checked :
      (t : Token lib) (c : Claims)
      → (k.algorithm == eddsa) ≡ true
      → verify_eddsa lib m.public_key t e now ≡ valid c
      → Checked t c
  verify_eddsa-Checked [] c edwards r = cc
  verify_eddsa-Checked (h ∷ []) c edwards r = cc
  verify_eddsa-Checked (h ∷ p ∷ []) c edwards r = cc
  verify_eddsa-Checked (h ∷ p ∷ s ∷ q ∷ more) c edwards r = cc
  verify_eddsa-Checked (h ∷ p ∷ s ∷ []) c edwards r =
      elim (Bool-cases (any lib.is_empty (h ∷ p ∷ s ∷ []))) [
        | inl hollow ↦ cc (rw hollow at r)
        | inr filled ↦
            let (header, decoded, kind, passed, timely) =
              judged-checks (decode_parts lib h p) (λ x. equals_text x.alg eddsa)
                (eddsa_answer lib m.public_key s (h, p)) e now c (rw filled at r) in
            let (public, same, good) = eddsa_answer-true lib m.public_key s (h, p) passed in
            let own : k.algorithm ≡ eddsa = ground (arith, edwards) in
            by_eddsa public header same decoded (rw own (equals_text-some header.alg eddsa kind))
              good timely
      ]

  verify_hybrid-Checked :
      (t : Token lib) (c : Claims)
      → verify_hybrid lib m.public_key m.pq_public_key t k.algorithm k.kid e now ≡ valid c
      → Checked t c
  verify_hybrid-Checked [] c r = cc
  verify_hybrid-Checked (h ∷ []) c r = cc
  verify_hybrid-Checked (h ∷ p ∷ []) c r = cc
  verify_hybrid-Checked (h ∷ p ∷ s ∷ []) c r = cc
  verify_hybrid-Checked (h ∷ p ∷ s ∷ q ∷ _ ∷ more) c r = cc
  verify_hybrid-Checked (h ∷ p ∷ s ∷ q ∷ []) c r =
      let leg = of_jose lib k.algorithm (lib.decode_bytes s) in
      let pq = ml_dsa_answer lib m.pq_public_key ml_dsa_65 q (h, p) in
      let (header, decoded, kind, passed, timely) =
        judged-checks (decode_parts lib h p) (is_hybrid_of k.algorithm k.kid)
          (hybrid_answer lib (leg_answer lib m.public_key leg (h, p)) pq) e now c r in
      let (one, other) =
        hybrid_answer-true lib (leg_answer lib m.public_key leg (h, p)) pq passed in
      let (public, signature, same, raw, good) = leg_answer-true lib m.public_key leg (h, p) one in
      let (pq_public, pq_same, pq_good) =
        ml_dsa_answer-true lib m.pq_public_key ml_dsa_65 q (h, p) other in
      by_hybrid public pq_public signature header same pq_same decoded
        (equals_text-some header.alg k.algorithm (ground (arith, kind)))
        (equals_text-some header.pqc_kid k.kid (ground (arith, kind))) raw good pq_good timely

  pub verify_token-Checked :
      (t : Token lib) (c : Claims) → verify_token lib m t k e now ≡ valid c → Checked t c
  unfolding verify_token
  verify_token-Checked t c r = elim (Bool-cases (is_hybrid k.algorithm)) [
    | inl hybrid ↦ verify_hybrid-Checked t c (rw hybrid at r)
    | inr single ↦ elim (Bool-cases (is_pure_pq k.algorithm)) [
      | inl pure ↦ verify_ml_dsa-Checked t c (rw (single, pure) at r)
      | inr impure ↦ elim (Bool-cases (k.algorithm == eddsa)) [
        | inl edwards ↦ verify_eddsa-Checked t c edwards (rw (single, impure, edwards) at r)
        | inr plain ↦ verify_library-Checked m.public_key t c refl (rw (single, impure, plain) at r)
      ]
    ]
  ]
