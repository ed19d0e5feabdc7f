-- ===== src/Daemon/Wire.antt =====
-- The length prefix of coned's two protocols and the SSH strings: crates/coned/src/ssh_agent.rs
-- (write_string, read_string, read_u32) and the framing in crates/coned/src/ipc.rs.
pub mod RoundTrip
use traffic_cone.Common.{
  ℕ, zero, suc, ◌+◌, ◌*◌, ◌/◌, ◌%◌, Option, none, some, [], ◌∷◌, ◌++◌, ltb, if◌then◌else◌, length,
  Result, ok, err, ◌>>=◌, ◌>>◌, ok_or, Bytes,
}

-- `(n as u32).to_be_bytes()`
unfoldable pub to_be_bytes : ℕ → Bytes
to_be_bytes n = (n / 16777216) % 256 ∷ (n / 65536) % 256 ∷ (n / 256) % 256 ∷ n % 256 ∷ []

-- `u32::from_be_bytes`
abbrev pub from_be_bytes : ℕ → ℕ → ℕ → ℕ → ℕ
from_be_bytes a b c d = 16777216 * a + (65536 * b + (256 * c + d))

-- `read_exact` into a buffer of a size: the bytes and the rest of the input, or the end of it.
unfoldable pub read_exact : ℕ → Bytes → Option (Bytes × Bytes)
read_exact zero input = some ([], input)
read_exact (suc n) [] = none
read_exact (suc n) (b ∷ input) = elim (read_exact n input) [
  | none ↦ none
  | some (taken, rest) ↦ some (b ∷ taken, rest)
]

-- A read from a cursor fails at the end of the bytes, or on a string over the limit.
pub data WireError : Type 0 where
  unexpected_eof : WireError
  string_too_large : ℕ → WireError

abbrev pub string_limit : ℕ
string_limit = 262144

unfoldable pub read_u32 : Bytes → Result WireError (ℕ × Bytes)
read_u32 (a ∷ b ∷ c ∷ d ∷ rest) = ok (from_be_bytes a b c d, rest)
read_u32 [] = err unexpected_eof
read_u32 (a ∷ []) = err unexpected_eof
read_u32 (a ∷ b ∷ []) = err unexpected_eof
read_u32 (a ∷ b ∷ c ∷ []) = err unexpected_eof

unfoldable pub write_string : Bytes → Bytes → Bytes
unfolding to_be_bytes
write_string buf str = buf ++ (to_be_bytes (length str) ++ str)

abbrev pub read_body : ℕ × Bytes → Result WireError (Bytes × Bytes)
read_body (len, rest) =
    if ltb string_limit len
    then err (string_too_large len)
    else ok_or (read_exact len rest) unexpected_eof

unfoldable pub read_string : Bytes → Result WireError (Bytes × Bytes)
unfolding read_u32
read_string input = read_u32 input >>= read_body
