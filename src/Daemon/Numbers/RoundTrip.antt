-- ===== src/Daemon/Numbers/RoundTrip.antt =====
-- `from_str_radix` in base 16 reads back the digits that the kernel writes.
use traffic_cone.Common.{
  ℕ, ◌+◌, ◌-◌, ◌*◌, ◌/◌, ◌%◌, ◌<◌, ◌≡◌, refl, ap, ◌∙◌, inl, inr, false, some, [], ◌∷◌, ◌++◌, arith,
  ltb, ◌==◌, if◌then◌else◌, Option-cases, Text,
}
use traffic_cone.Daemon.Numbers.{from_str_radix, parse_digits, digit_value}

-- The kernel's `%08X` and `%04X`.
abbrev pub upper_digit : ℕ → ℕ
upper_digit v = if ltb v 10 then b'0' + v else b'A' + (v - 10)

abbrev pub print_hex4 : ℕ → Text
print_hex4 n =
    upper_digit (n / 4096 % 16)
    ∷ upper_digit (n / 256 % 16)
    ∷ upper_digit (n / 16 % 16)
    ∷ upper_digit (n % 16)
    ∷ []

abbrev pub print_hex8 : ℕ → Text
print_hex8 n = print_hex4 (n / 65536) ++ print_hex4 (n % 65536)

upper_digit-ne-plus : (v : ℕ) → v < 16 → (upper_digit v == b'+') ≡ false
upper_digit-ne-plus v h = ground arith

digit_value-upper_digit : (v : ℕ) → v < 16 → digit_value (upper_digit v) ≡ some v
unfolding digit_value
digit_value-upper_digit v h = ground arith

parse_digits-upper_digit :
    (bound acc v : ℕ) (rest : Text)
    → v < 16
    → acc * 16 + v < bound
    → parse_digits 16 bound acc (upper_digit v ∷ rest) ≡ parse_digits 16 bound (acc * 16 + v) rest
unfolding parse_digits
parse_digits-upper_digit bound acc v rest h k = ground (arith, digit_value-upper_digit v h)

-- What a successful parse returns is below the bound.
pub parse_digits-lt :
    (base bound acc : ℕ) (t : Text) {n : ℕ}
    → acc < bound
    → parse_digits base bound acc t ≡ some n
    → n < bound
unfolding parse_digits
parse_digits-lt base bound acc [] h e = ground arith
parse_digits-lt base bound acc (ch ∷ rest) {n} h e = elim (Option-cases (digit_value ch)) [
  | inl bad ↦ cc (rw (bad, parse_digits) at e)
  | inr (v, good) ↦ ground (arith, good, parse_digits-lt base bound (acc * base + v) rest {n = n})
]

pub from_str_radix-lt :
    (base bound : ℕ) (t : Text) {n : ℕ}
    → 0 < bound
    → from_str_radix base bound t ≡ some n
    → n < bound
unfolding from_str_radix
from_str_radix-lt base bound [] h e = cc
from_str_radix-lt base bound (ch ∷ []) h e = parse_digits-lt base bound 0 (ch ∷ []) h e
from_str_radix-lt base bound (ch ∷ next ∷ rest) {n} h e = ground (
  arith,
  parse_digits-lt base bound 0 (next ∷ rest) {n = n},
  parse_digits-lt base bound 0 (ch ∷ next ∷ rest) {n = n},
)

-- The digits of `n` from the left, four at a time.
digits4 :
    (bound acc n : ℕ) (rest : Text)
    → n < 65536
    → acc * 65536 + n < bound
    → parse_digits 16 bound acc (print_hex4 n ++ rest)
      ≡ parse_digits 16 bound (acc * 65536 + n) rest
digits4 bound acc n rest h k =
    parse_digits-upper_digit bound acc (n / 4096 % 16) _ (omega arith) (omega arith)
    ∙ parse_digits-upper_digit bound _ (n / 256 % 16) _ (omega arith) (omega arith)
    ∙ parse_digits-upper_digit bound _ (n / 16 % 16) _ (omega arith) (omega arith)
    ∙ parse_digits-upper_digit bound _ (n % 16) rest (omega arith) (omega arith)
    ∙ ap (λ (t : ℕ). parse_digits 16 bound t rest) (omega arith)

no_sign :
    (base bound v : ℕ) (t : Text)
    → v < 16
    → from_str_radix base bound (upper_digit v ∷ t) ≡ parse_digits base bound 0 (upper_digit v ∷ t)
unfolding from_str_radix
no_sign base bound v [] h = refl
no_sign base bound v (x ∷ t) h = rw (upper_digit-ne-plus v h) refl

pub from_str_radix-print_hex4 :
    (n : ℕ) → n < 65536 → from_str_radix 16 65536 (print_hex4 n) ≡ some n
from_str_radix-print_hex4 n h =
    no_sign 16 65536 (n / 4096 % 16) _ (omega arith)
    ∙ digits4 65536 0 n [] h (omega arith)
    ∙ unfold parse_digits in ap some (omega arith)

pub from_str_radix-print_hex8 :
    (n : ℕ) → n < 4294967296 → from_str_radix 16 4294967296 (print_hex8 n) ≡ some n
from_str_radix-print_hex8 n h =
    no_sign 16 4294967296 (n / 65536 / 4096 % 16) _ (omega arith)
    ∙ digits4 4294967296 0 (n / 65536) (print_hex4 (n % 65536)) (omega arith) (omega arith)
    ∙ digits4 4294967296 _ (n % 65536) [] (omega arith) (omega arith)
    ∙ unfold parse_digits in ap some (omega arith)
