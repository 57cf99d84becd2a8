-- ===== src/AccessTokens/Der.antt =====
-- The two forms of an ES256 signature, in packages/crypto/src/jwt.ts: the DER of two integers, as node
-- gives it, and the 64 bytes of both, as a token has it. A signature is the list of its bytes.
use pezhwan.Base.{
  ℕ, zero, suc, ◌-◌, ◌%◌, Bool, false, not, ◌&&◌, ◌||◌, List, [], ◌∷◌, ◌++◌, Option, none, some,
  ◌==◌, ltb, leb, length, take, drop, if◌then◌else◌,
}

abbrev pub zeros : ℕ → List ℕ
zeros zero = []
zeros (suc n) = 0 ∷ zeros n

abbrev pub padded32 : List ℕ → List ℕ
padded32 v = if length v == 32 then v else zeros (32 - length v) ++ v

abbrev pub is_zero_first : List ℕ → Bool
is_zero_first [] = false
is_zero_first (b ∷ v) = b == 0

abbrev pub without_sign : List ℕ → List ℕ
without_sign v = if (length v == 33) && is_zero_first v then drop 1 v else v

abbrev pub consed : (int : List ℕ) → Option (List (List ℕ)) → Option (List (List ℕ))
consed int none = none
consed int (some ints) = if ltb 32 (length int) then none else some (int ∷ ints)

-- The loop over the integers, on the bytes from the offset, with how many are still read. Where the
-- length is beyond the end, the integer is empty and the loop ends.
unfoldable pub read_ints : ℕ → List ℕ → Option (List (List ℕ))
read_ints zero der = some []
read_ints (suc left) [] = some []
read_ints (suc left) (tag ∷ []) = if tag == 2 then some ([] ∷ []) else some []
read_ints (suc left) (tag ∷ n ∷ more) =
    let rest = read_ints left (drop n more) in
    if tag == 2 then consed (without_sign (take n more)) rest else some []

abbrev pub joined : Option (List (List ℕ)) → Option (List ℕ)
joined (some (r ∷ s ∷ [])) = some (padded32 r ++ padded32 s)
joined _ = none

-- The bytes from the first integer on.
abbrev pub first_int : List ℕ → List ℕ
first_int (tag ∷ n ∷ more) =
    if n == 129 then drop 1 more else if leb 128 n then drop (n % 128) more else more
first_int _ = []

abbrev pub is_sequence : List ℕ → Bool
is_sequence [] = false
is_sequence (tag ∷ more) = tag == 48

unfoldable pub der_to_jose : List ℕ → Option (List ℕ)
unfolding read_ints
der_to_jose der =
    if ltb (length der) 8 || not (is_sequence der)
    then none
    else joined (read_ints 2 (first_int der))

unfoldable pub trimmed : List ℕ → List ℕ
trimmed [] = []
trimmed (b ∷ []) = b ∷ []
trimmed (b ∷ c ∷ v) =
    let rest = trimmed (c ∷ v) in if (b == 0) && ltb c 128 then rest else b ∷ c ∷ v

abbrev pub is_positive : List ℕ → Bool
is_positive [] = false
is_positive (b ∷ v) = ltb b 128

abbrev pub positive : List ℕ → List ℕ
positive v = if is_positive v then v else 0 ∷ v

unfoldable pub der_integer : List ℕ → List ℕ
unfolding trimmed
der_integer value = let p = positive (trimmed value) in 2 ∷ length p ∷ p

abbrev pub with_header : List ℕ → List ℕ
with_header body =
    if ltb (length body) 128 then 48 ∷ length body ∷ body else 48 ∷ 129 ∷ length body % 256 ∷ body

unfoldable pub jose_to_der : List ℕ → Option (List ℕ)
unfolding der_integer
jose_to_der raw =
    if not (length raw == 64)
    then none
    else some (with_header (der_integer (take 32 raw) ++ der_integer (drop 32 raw)))
