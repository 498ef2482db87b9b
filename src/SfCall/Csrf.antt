-- ===== src/SfCall/Csrf.antt =====
-- The CSRF tokens of frontend/src/lib/csrf.ts. The random bytes are a parameter.

pub mod Validity
use Prim.Native.Nat.{bit_or, bit_xor}
use min_demo.Base.{
  ℕ, ◌+◌, ◌-◌, ◌/◌, ◌%◌, Bool, true, false, Option, none, some, List, [], ◌∷◌, ◌++◌, ltb, ◌==◌,
  if◌then◌else◌, Text, length,
}

abbrev pub hex_digit : ℕ → ℕ
hex_digit n = if ltb n 10 then b'0' + n else b'a' + (n - 10)

-- `b.toString(16)` of a byte.
abbrev pub byte_hex : ℕ → Text
byte_hex b = if ltb b 16 then hex_digit b ∷ [] else hex_digit (b / 16) ∷ hex_digit (b % 16) ∷ []

-- `padStart(2, "0")` of one or two units.
abbrev pub pad_two : Text → Text
pad_two [] = b'0' ∷ b'0' ∷ []
pad_two (c ∷ []) = b'0' ∷ c ∷ []
pad_two (c ∷ d ∷ s) = c ∷ d ∷ s

-- `generateCsrfToken` from its 32 random bytes.
unfoldable pub generate_csrf_token : List ℕ → Text
generate_csrf_token [] = []
generate_csrf_token (b ∷ bytes) = pad_two (byte_hex b) ++ generate_csrf_token bytes

-- `mismatch |= cookieToken.charCodeAt(i) ^ headerToken.charCodeAt(i)` along two texts of one length.
unfoldable pub mismatch_from : ℕ → Text → Text → ℕ
mismatch_from m [] header = m
mismatch_from m (c ∷ cookie) [] = m
mismatch_from m (c ∷ cookie) (d ∷ header) = mismatch_from (bit_or m (bit_xor c d)) cookie header

-- The tests behind the one for two tokens that are there: `""` is false as well.
unfoldable pub same_token : Text → Text → Bool
same_token [] header = false
same_token (c ∷ cookie) [] = false
same_token (c ∷ cookie) (d ∷ header) =
    if length (c ∷ cookie) == length (d ∷ header)
    then mismatch_from 0 (c ∷ cookie) (d ∷ header) == 0
    else false

unfoldable pub validate_csrf_token : Option Text → Option Text → Bool
validate_csrf_token none header = false
validate_csrf_token (some c) none = false
validate_csrf_token (some c) (some h) = same_token c h
