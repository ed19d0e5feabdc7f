-- ===== src/Common/Sort.antt =====
-- `ORDER BY`: a stable sort by a Boolean order. Rows that the order does not tell apart stay in the
-- order of the table.
use traffic_cone.Common.{
  map, ap, ◌≡◌, refl, inl, inr, Bool, List, [], ◌∷◌, if◌then◌else◌, Bool-cases, In,
}

module _ {ℓ} {A : Type ℓ} (le : A → A → Bool) where
  pub insert_by : A → List A → List A
  insert_by x [] = x ∷ []
  insert_by x (y ∷ ys) = let rest = insert_by x ys in if le x y then x ∷ y ∷ ys else y ∷ rest

  unfoldable pub sort_by : List A → List A
  unfolding insert_by
  sort_by [] = []
  sort_by (x ∷ xs) = insert_by x (sort_by xs)

module _ {A : Type 0} (le : A → A → Bool) where
  In-insert_by : (a x : A) (xs : List A) → In a (x ∷ xs) → In a (insert_by le x xs)
  unfolding insert_by
  In-insert_by a x [] h = h
  In-insert_by a x (y ∷ ys) h = elim (Bool-cases (le x y)) [
    | inl e ↦ rw e h
    | inr e ↦ rw e (elim h [
      | inl p ↦ inr (In-insert_by a x ys (inl p))
      | inr (inl p) ↦ inl p
      | inr (inr p) ↦ inr (In-insert_by a x ys (inr p))
    ])
  ]

  -- `sort_by` loses no row.
  pub In-sort_by : (a : A) (xs : List A) → In a xs → In a (sort_by le xs)
  unfolding sort_by
  In-sort_by a [] h = h
  In-sort_by a (x ∷ xs) (inl p) = In-insert_by a x (sort_by le xs) (inl p)
  In-sort_by a (x ∷ xs) (inr p) = In-insert_by a x (sort_by le xs) (inr (In-sort_by a xs p))

  of_In-insert_by : (a x : A) (xs : List A) → In a (insert_by le x xs) → In a (x ∷ xs)
  unfolding insert_by
  of_In-insert_by a x [] h = h
  of_In-insert_by a x (y ∷ ys) h = elim (Bool-cases (le x y)) [
    | inl e ↦ rw e at h
    | inr e ↦
        let moved : In a (y ∷ insert_by le x ys) = rw e at h in
        elim moved [
          | inl p ↦ inr (inl p)
          | inr p ↦ elim (of_In-insert_by a x ys p) [ inl q ↦ inl q | inr q ↦ inr (inr q) ]
        ]
  ]

  -- `sort_by` invents no row.
  pub of_In-sort_by : (a : A) (xs : List A) → In a (sort_by le xs) → In a xs
  unfolding sort_by
  of_In-sort_by a [] h = h
  of_In-sort_by a (x ∷ xs) h = elim (of_In-insert_by a x (sort_by le xs) h) [
    | inl p ↦ inl p
    | inr p ↦ inr (of_In-sort_by a xs p)
  ]

-- A change of the rows that the order does not see commutes with the sort.
module _ {A : Type 0} (le : A → A → Bool) (g : A → A)
    (same : (a b : A) → le (g a) (g b) ≡ le a b) where
  insert_by-map : (x : A) (xs : List A) → insert_by le (g x) (map g xs) ≡ map g (insert_by le x xs)
  unfolding insert_by
  insert_by-map x [] = refl
  insert_by-map x (y ∷ ys) = elim (Bool-cases (le x y)) [
    | inl e ↦ rw (same x y, e) refl
    | inr e ↦ rw (same x y, e) (ap (λ t. g y ∷ t) (insert_by-map x ys))
  ]

  pub sort_by-map : (xs : List A) → sort_by le (map g xs) ≡ map g (sort_by le xs)
  unfolding sort_by
  sort_by-map [] = refl
  sort_by-map (x ∷ xs) = rw (sort_by-map xs) (insert_by-map x (sort_by le xs))
