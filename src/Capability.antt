-- ===== src/Capability.antt =====
-- Capability tokens: src/auth/capability.rs. The random generator and the hexadecimal encoding of
-- `generate_token` are libraries.
pub mod Bits
pub mod Laws
mod Tests
use Prim.Native.Nat.{max, bit_or, bit_xor}
use plasmate.Common.{
  ℕ, zero, suc, ◌+◌, Bool, true, false, not, ◌&&◌, Option, none, some, List, [], ◌∷◌, ◌++◌, leb,
  ltb, all, length, ◌==◌, if◌then◌else◌, Result, ok, err,
}
use plasmate.Text.{Text, codes}

abbrev pub min_token_bytes : ℕ
min_token_bytes = 32

pub data TokenError : Type 0 where
  too_short not_visible : TokenError

abbrev pub is_visible : ℕ → Bool
is_visible byte = leb 0x21 byte && leb byte 0x7e

unfoldable pub validate_token : Text → Result TokenError (Unit {0})
validate_token token =
    if ltb (length token) min_token_bytes
    then err too_short
    else if not (all is_visible token)
    then err not_visible
    else ok tt

-- `left.get(index).copied().unwrap_or(0)`
unfoldable pub byte_at : ℕ → Text → ℕ
byte_at index [] = 0
byte_at zero (b ∷ s) = b
byte_at (suc index) (b ∷ s) = byte_at index s

-- The loop from `index` on, with the rounds that are left.
unfoldable pub compare_from : ℕ → ℕ → Text → Text → ℕ → ℕ
unfolding byte_at
compare_from zero index left right difference = difference
compare_from (suc rounds) index left right difference =
    compare_from rounds (index + 1) left right
      (bit_or difference (bit_xor (byte_at index left) (byte_at index right)))

unfoldable pub constant_time_eq : Text → Text → Bool
unfolding compare_from
constant_time_eq left right =
    compare_from (max (length left) (length right)) 0 left right
      (bit_xor (length left) (length right))
    == 0

unfoldable pub bearer_matches : Option Text → Text → Bool
unfolding constant_time_eq
bearer_matches none expected_token = false
bearer_matches (some value) expected_token =
    constant_time_eq value (codes "Bearer " ++ expected_token)
