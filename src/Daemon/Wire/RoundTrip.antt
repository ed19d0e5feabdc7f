-- ===== src/Daemon/Wire/RoundTrip.antt =====
-- What is written with a length prefix is read back, and the input after it is left alone.
use traffic_cone.Common.{
  ℕ, ◌/◌, ◌%◌, ◌≤◌, ◌<◌, ◌≡◌, refl, ap, ◌∙◌, some, [], ◌∷◌, ◌++◌, arith, length, ok, ◌>>=◌, Bytes,
}
use traffic_cone.Daemon.Wire.{
  write_string, read_body, to_be_bytes, read_string, string_limit, read_exact, read_u32,
  from_be_bytes,
}

pub be_bytes-inverse :
    (n : ℕ)
    → n < 4294967296
    → from_be_bytes ((n / 16777216) % 256) ((n / 65536) % 256) ((n / 256) % 256) (n % 256) ≡ n
be_bytes-inverse n h = omega arith

pub read_u32-to_be_bytes :
    (n : ℕ) (rest : Bytes) → n < 4294967296 → read_u32 (to_be_bytes n ++ rest) ≡ ok (n, rest)
unfolding read_u32 to_be_bytes
read_u32-to_be_bytes n rest h = ap (λ (m : ℕ). ok (m, rest)) (be_bytes-inverse n h)

pub read_exact-append : (xs rest : Bytes) → read_exact (length xs) (xs ++ rest) ≡ some (xs, rest)
unfolding read_exact
read_exact-append [] rest = refl
read_exact-append (x ∷ xs) rest = rw (read_exact-append xs rest) refl

pub append_assoc : (xs ys zs : Bytes) → (xs ++ ys) ++ zs ≡ xs ++ (ys ++ zs)
append_assoc [] ys zs = refl
append_assoc (x ∷ xs) ys zs = ap (λ (t : Bytes). x ∷ t) (append_assoc xs ys zs)

body-fits :
    (str rest : Bytes)
    → length str ≤ string_limit
    → read_body (length str, str ++ rest) ≡ ok (str, rest)
body-fits str rest h = rw (read_exact-append str rest) (ground (arith, h))

-- A string within the limit of 256 KiB that is written to an empty buffer is read back, with what
-- follows it in the input left for the next read.
pub read_string-write_string :
    (str rest : Bytes)
    → length str ≤ string_limit
    → read_string (write_string [] str ++ rest) ≡ ok (str, rest)
unfolding read_string write_string
read_string-write_string str rest h =
    ap read_string (append_assoc (to_be_bytes (length str)) str rest)
    ∙ (ap (λ r. r >>= read_body)
          (read_u32-to_be_bytes (length str) (str ++ rest) (omega (arith, h)))
        ∙ body-fits str rest h)
