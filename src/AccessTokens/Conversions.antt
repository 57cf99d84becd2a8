-- ===== src/AccessTokens/Conversions.antt =====
-- The two forms of an ES256 signature, in packages/crypto/src/jwt.ts, fit together.
use pezhwan.Base.{
  ℕ, zero, suc, ◌+◌, ◌-◌, ◌≤◌, ◌≡◌, refl, sym, ap, subst, ◌∙◌, inl, inr, true, false, ◌&&◌, List,
  [], ◌∷◌, ◌++◌, some, ◌==◌, ltb, leb, length, take, drop, arith, Bool-cases, length-append,
  length-drop,
}
use pezhwan.AccessTokens.{
  zeros, padded32, without_sign, read_ints, der_to_jose, trimmed, is_positive, positive,
  der_integer, with_header, jose_to_der,
}

zeros-snoc : (n : ℕ) (v : List ℕ) → zeros n ++ 0 ∷ v ≡ 0 ∷ zeros n ++ v
zeros-snoc zero v = refl
zeros-snoc (suc n) v = ap (λ l. 0 ∷ l) (zeros-snoc n v)

-- What is trimmed are zeros, and a byte is left.
trimmed-zeros :
    (b : ℕ) (v : List ℕ)
    → (k : ℕ) × (b ∷ v ≡ zeros k ++ trimmed (b ∷ v))
      × (k + length (trimmed (b ∷ v)) ≡ suc (length v))
      × (1 ≤ length (trimmed (b ∷ v)))
unfolding trimmed
trimmed-zeros b [] = (0, refl, omega arith, omega arith)
trimmed-zeros b (c ∷ v) = elim (Bool-cases ((b == 0) && ltb c 128)) [
  | inr kept ↦ rw kept (0, refl, omega arith, omega arith)
  | inl zero_byte ↦
      let (k, same, count, filled) = trimmed-zeros c v in
      let is_zero : b ≡ 0 = ground (arith, zero_byte) in
      rw zero_byte (suc k, rw is_zero (ap (λ l. 0 ∷ l) same), omega (arith, count), filled)
]

-- The integer `p` is read as the 32 bytes `v`.
pub record IsInteger (v p : List ℕ) : Type 0 where
  pub restored : padded32 (without_sign p) ≡ v
  pub short : length (without_sign p) ≤ 32
  pub filled : 1 ≤ length p
  pub bounded : length p ≤ 33

padded32-zeros : (v : List ℕ) → length v ≤ 32 → padded32 v ≡ zeros (32 - length v) ++ v
padded32-zeros v short = elim (Bool-cases (length v == 32)) [
  | inr less ↦ rw less refl
  | inl full ↦ let whole : 32 - length v ≡ 0 = ground (arith, full) in rw (full, whole) refl
]

-- A sign byte is dropped where it is the thirty-third.
signed-IsInteger :
    (k : ℕ) (t v : List ℕ) → v ≡ zeros k ++ t → k + length t ≡ 32 → IsInteger v (0 ∷ t)
signed-IsInteger zero t v same total =
    let full : length t ≡ 32 = omega (arith, total) in
    record {
      restored = rw (full, same) (ground (arith, full));
      short = rw full (omega (arith, full));
      filled = omega arith;
      bounded = omega (arith, full);
    }
signed-IsInteger (suc k) t v same total =
    let less : (length t == 32) ≡ false = ground (arith, total) in
    let left : 32 - suc (length t) ≡ k = omega (arith, total) in
    let kept : without_sign (0 ∷ t) ≡ 0 ∷ t = ground (arith, total) in
    record {
      restored =
          rw kept
            (padded32-zeros (0 ∷ t) (omega (arith, total)) ∙ rw left (zeros-snoc k t ∙ sym same));
      short = rw kept (omega (arith, total));
      filled = omega arith;
      bounded = omega (arith, total);
    }

plain-IsInteger :
    (k : ℕ) (t v : List ℕ) → v ≡ zeros k ++ t → k + length t ≡ 32 → 1 ≤ length t → IsInteger v t
plain-IsInteger k t v same total filled =
    let left : 32 - length t ≡ k = omega (arith, total) in
    let kept : without_sign t ≡ t = ground (arith, total) in
    record {
      restored = rw kept (padded32-zeros t (omega (arith, total)) ∙ rw left (sym same));
      short = rw kept (omega (arith, total));
      filled = filled;
      bounded = omega (arith, total);
    }

positive-IsInteger : (v : List ℕ) → length v ≡ 32 → IsInteger v (positive (trimmed v))
positive-IsInteger [] h = absurd (omega (arith, h))
positive-IsInteger (b ∷ v) h =
    let (k, same, total, filled) = trimmed-zeros b v in
    let whole : k + length (trimmed (b ∷ v)) ≡ 32 = omega (arith, total, h) in
    elim (Bool-cases (is_positive (trimmed (b ∷ v)))) [
      | inl plain ↦ rw plain (plain-IsInteger k _ (b ∷ v) same whole filled)
      | inr signed ↦ rw signed (signed-IsInteger k _ (b ∷ v) same whole)
    ]

take-append : (p more : List ℕ) → take (length p) (p ++ more) ≡ p
take-append [] more = refl
take-append (b ∷ p) more = ap (λ l. b ∷ l) (take-append p more)

drop-append : (p more : List ℕ) → drop (length p) (p ++ more) ≡ more
drop-append [] more = refl
drop-append (b ∷ p) more = drop-append p more

read_ints-integer :
    (left : ℕ) (v p more : List ℕ) (ints : List (List ℕ))
    → IsInteger v p
    → read_ints left more ≡ some ints
    → read_ints (suc left) (2 ∷ length p ∷ p ++ more) ≡ some (without_sign p ∷ ints)
unfolding read_ints
read_ints-integer left v p more ints int rest =
    let short : ltb 32 (length (without_sign p)) ≡ false = ground (arith, int.short) in
    rw (take-append p more, drop-append p more, rest, short) refl

append_nil : (p : List ℕ) → p ++ [] ≡ p
append_nil [] = refl
append_nil (b ∷ p) = ap (λ l. b ∷ l) (append_nil p)

take-drop : (n : ℕ) (l : List ℕ) → take n l ++ drop n l ≡ l
take-drop zero l = refl
take-drop (suc n) [] = refl
take-drop (suc n) (b ∷ l) = ap (λ m. b ∷ m) (take-drop n l)

length-take : (n : ℕ) (l : List ℕ) → n ≤ length l → length (take n l) ≡ n
length-take zero l h = refl
length-take (suc n) [] h = absurd (omega (arith, h))
length-take (suc n) (b ∷ l) h = omega (arith, length-take n l (omega (arith, h)))

read_ints-none : read_ints 0 [] ≡ some []
unfolding read_ints
read_ints-none = refl

of_integers :
    (r s p q : List ℕ)
    → IsInteger r p
    → IsInteger s q
    → der_to_jose (with_header ((2 ∷ length p ∷ p) ++ 2 ∷ length q ∷ q)) ≡ some (r ++ s)
unfolding der_to_jose
of_integers r s p q left right =
    let body = (2 ∷ length p ∷ p) ++ 2 ∷ length q ∷ q in
    let size : length body ≡ length p + length q + 4 =
      omega (arith, length-append p (2 ∷ length q ∷ q)) in
    let low : ltb (length body) 128 ≡ true = ground (arith, size, left.bounded, right.bounded) in
    let enough : ltb (length (48 ∷ length body ∷ body)) 8 ≡ false =
      ground (arith, size, left.filled, right.filled) in
    let short_form : (length body == 129) ≡ false =
      ground (arith, size, left.bounded, right.bounded) in
    let one_byte : leb 128 (length body) ≡ false =
      ground (arith, size, left.bounded, right.bounded) in
    let last : read_ints 1 (2 ∷ length q ∷ q) ≡ some (without_sign q ∷ []) =
      subst (λ l. read_ints 1 (2 ∷ length q ∷ l) ≡ some (without_sign q ∷ [])) (append_nil q)
        (read_ints-integer 0 s q [] [] right read_ints-none) in
    let both = read_ints-integer 1 r p (2 ∷ length q ∷ q) _ left last in
    rw (low, enough, short_form, one_byte, both, left.restored, right.restored) refl

-- A signature in the form of a token comes back from its DER.
pub der_to_jose-jose_to_der :
    (raw : List ℕ)
    → length raw ≡ 64
    → (der : List ℕ) × (jose_to_der raw ≡ some der) × (der_to_jose der ≡ some raw)
unfolding jose_to_der der_integer
der_to_jose-jose_to_der raw size =
    let first = positive-IsInteger (take 32 raw) (length-take 32 raw (omega (arith, size))) in
    let second = positive-IsInteger (drop 32 raw) (length-drop 32 raw ∙ omega (arith, size)) in
    (
      with_header (der_integer (take 32 raw) ++ der_integer (drop 32 raw)),
      rw size refl,
      of_integers (take 32 raw) (drop 32 raw) _ _ first second ∙ ap some (take-drop 32 raw),
    )
