-- ===== src/Daemon/Numbers.antt =====
-- Numbers as text: `from_str_radix`, `parse::<u64>` and the formats `{}` of a byte and `{:08x}`.
pub mod RoundTrip
use traffic_cone.Common.{
  ℕ, ◌+◌, ◌-◌, ◌*◌, ◌/◌, ◌%◌, ◌&&◌, Option, none, some, [], ◌∷◌, ltb, leb, ◌==◌, if◌then◌else◌,
  Text,
}

-- The value of a digit in base 16, lower or upper case.
unfoldable pub digit_value : ℕ → Option ℕ
digit_value ch =
    if leb b'0' ch && leb ch b'9'
    then some (ch - b'0')
    else if leb b'a' ch && leb ch b'f'
    then some (ch - b'a' + 10)
    else if leb b'A' ch && leb ch b'F'
    then some (ch - b'A' + 10)
    else none

-- The digits from the left, with a value that has to stay below `bound`.
unfoldable pub parse_digits : ℕ → ℕ → ℕ → Text → Option ℕ
parse_digits base bound acc [] = some acc
parse_digits base bound acc (ch ∷ rest) = elim (digit_value ch) [
  | none ↦ none
  | some v ↦
      if ltb v base && ltb (acc * base + v) bound
      then parse_digits base bound (acc * base + v) rest
      else none
]

-- `from_str_radix`: one `+` may stand in front, and there is a digit at least.
unfoldable pub from_str_radix : ℕ → ℕ → Text → Option ℕ
from_str_radix base bound [] = none
from_str_radix base bound (ch ∷ []) = parse_digits base bound 0 (ch ∷ [])
from_str_radix base bound (ch ∷ next ∷ rest) =
    if ch == b'+'
    then parse_digits base bound 0 (next ∷ rest)
    else parse_digits base bound 0 (ch ∷ next ∷ rest)

-- `{}` of a `u8`.
unfoldable pub show_u8 : ℕ → Text
show_u8 n =
    if ltb n 10
    then (b'0' + n) ∷ []
    else if ltb n 100
    then (b'0' + n / 10) ∷ (b'0' + n % 10) ∷ []
    else (b'0' + n / 100) ∷ (b'0' + n / 10 % 10) ∷ (b'0' + n % 10) ∷ []

unfoldable pub lower_digit : ℕ → ℕ
lower_digit v = if ltb v 10 then b'0' + v else b'a' + (v - 10)

-- `{:08x}` of a `u32`.
unfoldable pub show_hex8 : ℕ → Text
unfolding lower_digit
show_hex8 n =
    lower_digit (n / 268435456 % 16)
    ∷ lower_digit (n / 16777216 % 16)
    ∷ lower_digit (n / 1048576 % 16)
    ∷ lower_digit (n / 65536 % 16)
    ∷ lower_digit (n / 4096 % 16)
    ∷ lower_digit (n / 256 % 16)
    ∷ lower_digit (n / 16 % 16)
    ∷ lower_digit (n % 16)
    ∷ []
