-- ===== src/Totp.antt =====
-- packages/crypto/src/totp.ts: HOTP codes, TOTP codes of a time, and their verification within a
-- window of steps. A text of a code is the list of its characters' digits; the HMAC is a parameter.
pub mod Skew
mod Tests
use pezhwan.Base.{
  ℕ, zero, suc, ◌+◌, ◌-◌, ◌*◌, ◌/◌, ◌%◌, ◌^◌, ◌≡◌, Bool, true, false, ◌&&◌, ◌||◌, List, [], ◌∷◌,
  ◌++◌, Option, none, some, ◌==◌, ltb, if◌then◌else◌, length,
}

abbrev pub default_digits : ℕ
default_digits = 6

abbrev pub default_step_seconds : ℕ
default_step_seconds = 30

abbrev pub default_window_steps : ℕ
default_window_steps = 1

-- `mac[i]`, which is 0 to a bitwise operation where it is undefined.
abbrev pub byte_at : List ℕ → ℕ → ℕ
byte_at [] i = 0
byte_at (b ∷ bs) zero = b
byte_at (b ∷ bs) (suc i) = byte_at bs i

-- The decimal text of a number, padded with zeros to a width; of a larger number the last digits.
abbrev pub padded : ℕ → ℕ → List ℕ
padded zero n = []
padded (suc width) n = padded width (n / 10) ++ n % 10 ∷ []

abbrev pub same_text : List ℕ → List ℕ → Bool
same_text [] [] = true
same_text (a ∷ s) (b ∷ t) = a == b && same_text s t
same_text _ _ = false

-- The dynamic truncation of RFC 4226.
unfoldable pub truncated : List ℕ → ℕ
truncated mac =
    let offset = byte_at mac (length mac - 1) % 16 in
    (byte_at mac offset % 128) * 2 ^ 24
    + ((byte_at mac (offset + 1) % 256) * 2 ^ 16
        + ((byte_at mac (offset + 2) % 256) * 2 ^ 8 + byte_at mac (offset + 3) % 256))

module _ (hmac : ℕ → ℕ → List ℕ) where
  unfoldable pub hotp : (secret counter digits : ℕ) → List ℕ
  hotp secret counter digits = padded digits (truncated (hmac secret counter) % 10 ^ digits)

  pub generate_totp : (secret time_seconds : ℕ) → List ℕ
  generate_totp secret time_seconds =
      hotp secret (time_seconds / default_step_seconds) default_digits

  -- The loop over `count` counters from `counter` on.
  unfoldable pub matches_from : List ℕ → ℕ → (counter count : ℕ) → Bool
  matches_from code secret counter zero = false
  matches_from code secret counter (suc n) =
      let rest = matches_from code secret (counter + 1) n in
      if same_text (hotp secret counter default_digits) code then true else rest

  -- A counter below zero is a `RangeError` of the buffer, here `none`.
  unfoldable pub verify_totp : List ℕ → (secret time_seconds : ℕ) → Option Bool
  unfolding matches_from
  verify_totp code secret time_seconds =
      let counter = time_seconds / default_step_seconds in
      if ltb counter default_window_steps
      then none
      else some
          (matches_from code secret (counter - default_window_steps) (default_window_steps * 2 + 1))
