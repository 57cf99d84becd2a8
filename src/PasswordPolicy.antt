-- ===== src/PasswordPolicy.antt =====
-- packages/core/src/services/password.service.ts: the password policy. A text is the list of its UTF-16
-- code units, which its `length` counts and its patterns match.
use pezhwan.Base.{
  ℕ, ◌+◌, Bool, true, false, not, ◌&&◌, ◌||◌, List, [], ◌∷◌, ◌++◌, ◌==◌, ltb, leb, if◌then◌else◌,
  any, length,
}

pub record Policy : Type 0 where
  pub min_length : ℕ
  pub max_length : ℕ
  pub max_bytes : ℕ
  pub require_lowercase : Bool
  pub require_uppercase : Bool
  pub require_digit : Bool
  pub require_symbol : Bool
  pub max_repeated_run : ℕ

abbrev pub default_policy : Policy
default_policy = record {
  min_length = 8;
  max_length = 128;
  max_bytes = 72;
  require_lowercase = true;
  require_uppercase = true;
  require_digit = true;
  require_symbol = false;
  max_repeated_run = 4;
}

-- The messages, in the words of what they ask for.
pub data Reason : Type 0 where
  too_many_bytes too_short too_long no_lowercase no_uppercase no_digit no_symbol repeated_run :
      Reason

pub record ValidationResult : Type 0 where
  pub ok : Bool
  pub errors : List Reason

abbrev pub between : ℕ → ℕ → ℕ → Bool
between low high u = leb low u && leb u high

abbrev pub is_lowercase : ℕ → Bool
is_lowercase = between 97 122

abbrev pub is_uppercase : ℕ → Bool
is_uppercase = between 65 90

abbrev pub is_digit : ℕ → Bool
is_digit = between 48 57

abbrev pub is_symbol : ℕ → Bool
is_symbol u = not (is_lowercase u || (is_uppercase u || is_digit u))

-- The UTF-8 bytes of a unit on its own; half a pair is written as the replacement character.
abbrev pub unit_bytes : ℕ → ℕ
unit_bytes u = if ltb u 128 then 1 else if ltb u 2048 then 2 else 3

abbrev pub is_pair : ℕ → ℕ → Bool
is_pair u v = between 55296 56319 u && between 56320 57343 v

pub byte_length : List ℕ → ℕ
byte_length [] = 0
byte_length (u ∷ []) = unit_bytes u
byte_length (u ∷ v ∷ s) =
    let after_pair = byte_length s in
    let after_unit = byte_length (v ∷ s) in
    if is_pair u v then 4 + after_pair else unit_bytes u + after_unit

-- What `.` of a pattern does not match.
abbrev pub is_line_end : ℕ → Bool
is_line_end u = u == 10 || (u == 13 || (u == 8232 || u == 8233))

-- `/(.)\1{3,}/`.
pub has_run_of_four : List ℕ → Bool
has_run_of_four (a ∷ b ∷ c ∷ d ∷ s) =
    (not (is_line_end a) && (a == b && (b == c && c == d))) || has_run_of_four (b ∷ c ∷ d ∷ s)
has_run_of_four _ = false

-- The group of the match is one unit, which is what is compared with `maxRepeatedRun`.
abbrev pub run_rejected : Policy → List ℕ → Bool
run_rejected policy s = has_run_of_four s && leb policy.max_repeated_run 1

abbrev pub reason_if : Bool → Reason → List Reason
reason_if true r = r ∷ []
reason_if false r = []

abbrev pub is_none : List Reason → Bool
is_none [] = true
is_none (r ∷ rs) = false

abbrev pub errors_of : List ℕ → Policy → List Reason
errors_of s policy =
    reason_if (ltb policy.max_bytes (byte_length s)) too_many_bytes
    ++ (reason_if (ltb (length s) policy.min_length) too_short
        ++ (reason_if (ltb policy.max_length (length s)) too_long
            ++ (reason_if (policy.require_lowercase && not (any is_lowercase s)) no_lowercase
                ++ (reason_if (policy.require_uppercase && not (any is_uppercase s)) no_uppercase
                    ++ (reason_if (policy.require_digit && not (any is_digit s)) no_digit
                        ++ (reason_if (policy.require_symbol && not (any is_symbol s)) no_symbol
                            ++ reason_if (run_rejected policy s) repeated_run))))))

pub evaluate_password : List ℕ → Policy → ValidationResult
evaluate_password s policy = record {
  ok = is_none (errors_of s policy);
  errors = errors_of s policy;
}
