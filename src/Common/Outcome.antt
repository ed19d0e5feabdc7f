-- ===== src/Common/Outcome.antt =====
-- Rust's `Result`, its `?` as bind, and the inversion of a successful bind.
use mathlib.Core.Path.{◌≡◌, refl, ap}
use mathlib.Core.Logic.{◌⊎◌, inl, inr}
use mathlib.Core.Bool.{Bool, true, false}
use mathlib.Core.Option.{Option, none, some}

pub data Result {ℓ} (E A : Type ℓ) : Type ℓ where
  err : E → Result E A
  ok : A → Result E A

module _ {ℓ} {E : Type ℓ} where
  -- `ok_or_else`
  abbrev pub ok_or : {A : Type ℓ} → Option A → E → Result E A
  ok_or none why = err why
  ok_or (some value) why = ok value

  -- `if !holds { bail!(why) }`
  abbrev pub guard : Bool → E → Result E (Unit {ℓ})
  guard false why = err why
  guard true why = ok tt

  -- `unwrap_or`
  abbrev pub unwrap_or : {A : Type ℓ} → Result E A → A → A
  unwrap_or (err why) fallback = fallback
  unwrap_or (ok value) fallback = value

  -- `map_err`
  abbrev pub map_err : {F A : Type ℓ} → (E → F) → Result E A → Result F A
  map_err wrap (err why) = err (wrap why)
  map_err wrap (ok value) = ok value

  infixl 5 ◌>>=◌
  abbrev pub ◌>>=◌ : {A B : Type ℓ} → Result E A → (A → Result E B) → Result E B
  err why >>= next = err why
  ok value >>= next = next value

  infixl 5 ◌>>◌
  abbrev pub ◌>>◌ : {B : Type ℓ} → Result E (Unit {ℓ}) → Result E B → Result E B
  first >> rest = first >>= λ done. rest

  pub Result-cases :
      {A : Type ℓ} (r : Result E A) → ((value : A) × (r ≡ ok value)) ⊎ ((why : E) × (r ≡ err why))
  Result-cases (err why) = inr (why, refl)
  Result-cases (ok value) = inl (value, refl)

  pub >>=-eq-ok :
      {A B : Type ℓ} (r : Result E A) (next : A → Result E B) {b : B}
      → (r >>= next) ≡ ok b
      → (value : A) × (r ≡ ok value) × (next value ≡ ok b)
  >>=-eq-ok (err why) next h = cc
  >>=-eq-ok (ok value) next h = (value, refl, h)

  pub map_err-eq-ok :
      {F A : Type ℓ} (wrap : E → F) (r : Result E A) {value : A}
      → map_err wrap r ≡ ok value
      → r ≡ ok value
  map_err-eq-ok wrap (err why) h = cc
  map_err-eq-ok wrap (ok value) h = ap ok (cc h)

  pub ok_or-eq-ok :
      {A : Type ℓ} (o : Option A) (why : E) {value : A} → ok_or o why ≡ ok value → o ≡ some value
  ok_or-eq-ok none why h = cc
  ok_or-eq-ok (some value) why h = ap some (cc h)
