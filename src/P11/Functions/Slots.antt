-- ===== src/P11/Functions/Slots.antt =====
-- Which function stands in which slot of the function list.
use traffic_cone.Common.{
  sym, ℕ, zero, suc, ◌≡◌, refl, ap, subst, ◌↔◌, inl, inr, Bool, true, Option, none, some, List, [],
  ◌∷◌, map, if◌then◌else◌, Bool-cases, get_elem?,
}
use traffic_cone.P11.Functions.{CkFunction, fields, function_list, defined}

abbrev slot : CkFunction → Option CkFunction
slot f = if defined f then some f else none

functions-fields : function_list.functions ≡ map slot fields
unfolding defined
functions-fields = refl

slot-eq-some : (f g : CkFunction) → slot f ≡ some g → (f ≡ g) × (defined f ≡ true)
slot-eq-some f g h = elim (Bool-cases (defined f)) [
  | inl e ↦ (
    let p : some f ≡ some g = rw⁻¹ (ap (λ (b : Bool). if b then some f else none) e) h in cc p,
    e,
  )
  | inr e ↦
      absurd
        (let p : none ≡ some g = rw⁻¹ (ap (λ (b : Bool). if b then some f else none) e) h in cc p)
]

-- A pointer of the function list is where the field of its function is, and the function is defined.
slots :
    (fs : List CkFunction) (n : ℕ) (f : CkFunction)
    → (get_elem? (map slot fs) n ≡ some (some f)) ↔ ((get_elem? fs n ≡ some f) × (defined f ≡ true))
slots [] n f = ((λ h. cc h), (λ (h, d). cc h))
slots (g ∷ fs) zero f = (
  (λ h. let (e, d) = slot-eq-some g f (cc h) in (ap some e, subst (λ x. defined x ≡ true) e d)),
  (λ (h, d). let e : g ≡ f = cc h in rw (e, d) refl),
)
slots (g ∷ fs) (suc n) f = slots fs n f

-- A slot of the function list points to a function exactly if it is the field of that function and the
-- file defines it.
pub get_elem?-function_list :
    (n : ℕ) (f : CkFunction)
    → (get_elem? function_list.functions n ≡ some (some f))
      ↔ ((get_elem? fields n ≡ some f) × (defined f ≡ true))
get_elem?-function_list n f =
    subst
      (λ l. (get_elem? l n ≡ some (some f)) ↔ ((get_elem? fields n ≡ some f) × (defined f ≡ true)))
      (sym functions-fields) (slots fields n f)
