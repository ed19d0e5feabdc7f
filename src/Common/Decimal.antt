-- ===== src/Common/Decimal.antt =====
-- `{}` of an unsigned integer: its decimal digits.
use traffic_cone.Common.Tests.{ltb, if◌then◌else◌, Bool-cases}
use traffic_cone.Common.Strings.{Text}
use Prim.Native.Nat.{ℕ, zero, suc, ◌+◌, ◌-◌, ◌*◌, ◌/◌, ◌%◌, ◌≤◌}
use mathlib.Core.Path.{◌≡◌, ap, ◌∙◌}
use mathlib.Core.Logic.{inl, inr}
use mathlib.Core.List.{[], ◌∷◌}
use native.Mathlib.Omega.{arith}

-- The digits before `rest`; each round divides by ten, so that fuel `n` is enough.
abbrev pub digits : ℕ → ℕ → Text → Text
digits zero n rest = (b'0' + n % 10) ∷ rest
digits (suc fuel) n rest =
    let more = digits fuel (n / 10) ((b'0' + n % 10) ∷ rest) in
    if ltb n 10 then (b'0' + n) ∷ rest else more

unfoldable pub show_ℕ : ℕ → Text
show_ℕ n = digits n n []

-- The number that digits continue.
abbrev pub number : ℕ → Text → ℕ
number n [] = n
number n (d ∷ ds) = number (10 * n + (d - b'0')) ds

number-digits :
    (fuel n : ℕ) (rest : Text) → n ≤ fuel → number 0 (digits fuel n rest) ≡ number n rest
number-digits zero n rest h =
    let e : 10 * 0 + (b'0' + n % 10 - b'0') ≡ n = omega (arith, h) in
    ap (λ (m : ℕ). number m rest) e
number-digits (suc fuel) n rest h = elim (Bool-cases (ltb n 10)) [
  | inl b ↦
      let e : 10 * 0 + (b'0' + n - b'0') ≡ n = omega arith in rw b (ap (λ (m : ℕ). number m rest) e)
  | inr b ↦
      let e : 10 * (n / 10) + (b'0' + n % 10 - b'0') ≡ n = omega arith in
      let less : n / 10 ≤ fuel = ground (arith, h, b) in
      rw b (
        number-digits fuel (n / 10) ((b'0' + n % 10) ∷ rest) less ∙ ap (λ (m : ℕ). number m rest) e)
]

-- The digits of a number denote it.
pub number-show_ℕ : (n : ℕ) → number 0 (show_ℕ n) ≡ n
unfolding show_ℕ
number-show_ℕ n = number-digits n n [] (omega arith)
