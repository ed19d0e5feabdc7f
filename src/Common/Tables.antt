-- ===== src/Common/Tables.antt =====
-- Rows of a table under appending, filtering and a uniqueness constraint.
use traffic_cone.Common.{
  ◌≡◌, refl, inl, inr, Bool, true, false, ◌||◌, List, [], ◌∷◌, ◌++◌, arith, Bool-cases, filter_by,
  any_of, All,
}

module _ {A : Type 0} where
  pub any_of-append_left :
      (p : A → Bool) (xs ys : List A) → any_of p xs ≡ true → any_of p (xs ++ ys) ≡ true
  any_of-append_left p [] ys h = cc
  any_of-append_left p (x ∷ xs) ys h = ground (arith, any_of-append_left p xs ys)

  pub any_of-or :
      (p q : A → Bool) (xs : List A)
      → any_of (λ x. p x || q x) xs ≡ false
      → (any_of p xs ≡ false) × (any_of q xs ≡ false)
  any_of-or p q [] h = (refl, refl)
  any_of-or p q (x ∷ xs) h = ground (arith, any_of-or p q xs)

  pub any_of-append_right :
      (p : A → Bool) (xs ys : List A) → any_of p ys ≡ true → any_of p (xs ++ ys) ≡ true
  any_of-append_right p [] ys h = h
  any_of-append_right p (x ∷ xs) ys h = ground (arith, any_of-append_right p xs ys)

  pub All-append : (P : A → Type 0) (xs ys : List A) → All P xs → All P ys → All P (xs ++ ys)
  All-append P [] ys h k = k
  All-append P (x ∷ xs) ys h k = (h.0, All-append P xs ys h.1 k)

  pub All-mono : (P Q : A → Type 0) → ((a : A) → P a → Q a) → (xs : List A) → All P xs → All Q xs
  All-mono P Q f [] h = tt
  All-mono P Q f (x ∷ xs) h = (f x h.0, All-mono P Q f xs h.1)

  -- What a `WHERE` keeps has passed its test.
  pub All-filter_by :
      (p : A → Bool) (P Q : A → Type 0)
      → ((a : A) → P a → p a ≡ true → Q a)
      → (xs : List A) → All P xs
      → All Q (filter_by p xs)
  All-filter_by p P Q f [] h = tt
  All-filter_by p P Q f (x ∷ xs) h = elim (Bool-cases (p x)) [
    | inl e ↦ rw e (f x h.0 e, All-filter_by p P Q f xs h.1)
    | inr e ↦ rw e (All-filter_by p P Q f xs h.1)
  ]

  pub any_of-filter_by :
      (p keep : A → Bool)
      → ((a : A) → p a ≡ true → keep a ≡ true)
      → (xs : List A) → any_of p xs ≡ true
      → any_of p (filter_by keep xs) ≡ true
  any_of-filter_by p keep f [] h = h
  any_of-filter_by p keep f (x ∷ xs) h = elim (Bool-cases (p x)) [
    | inl e ↦ rw (f x e) (rw e refl)
    | inr e ↦ ground (arith, any_of-filter_by p keep f xs)
  ]

  -- No two rows clash: a UNIQUE constraint.
  abbrev pub Distinct : (A → A → Bool) → List A → Type 0
  Distinct clash [] = Unit
  Distinct clash (x ∷ xs) = All (λ y. clash x y ≡ false) xs × Distinct clash xs

  pub Distinct-append :
      (clash : A → A → Bool) (xs : List A) (c : A)
      → Distinct clash xs
      → any_of (λ x. clash x c) xs ≡ false
      → Distinct clash (xs ++ c ∷ [])
  Distinct-append clash [] c d h = (tt, tt)
  Distinct-append clash (x ∷ xs) c d h = (
    All-append (λ y. clash x y ≡ false) xs (c ∷ []) d.0 (ground arith, tt),
    Distinct-append clash xs c d.1 (ground arith),
  )

  pub Distinct-filter_by :
      (clash : A → A → Bool) (p : A → Bool) (xs : List A)
      → Distinct clash xs
      → Distinct clash (filter_by p xs)
  Distinct-filter_by clash p [] d = tt
  Distinct-filter_by clash p (x ∷ xs) d = elim (Bool-cases (p x)) [
    | inl e ↦ rw e (
      All-filter_by p (λ y. clash x y ≡ false) (λ y. clash x y ≡ false) (λ a k _. k) xs d.0,
      Distinct-filter_by clash p xs d.1,
    )
    | inr e ↦ rw e (Distinct-filter_by clash p xs d.1)
  ]
