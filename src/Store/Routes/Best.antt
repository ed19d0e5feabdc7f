-- ===== src/Store/Routes/Best.antt =====
-- The loop of `resolve_route` returns the certificate of the first of the best candidates.
use traffic_cone.Common.{
  ℕ, ◌≡◌, refl, ◌⊎◌, inl, inr, Bool, true, false, Option, none, some, List, [], ◌∷◌, arith,
  Bool-cases, All, ok, Text,
}
use traffic_cone.Common.Int.{ℤ}
use traffic_cone.Store.Models.{App, Route}
use traffic_cone.Store.Handle.{Store}
use traffic_cone.Store.Listing.{list_apps, list_routes}
use traffic_cone.Store.Routes.{
  Query, app_id_of, outranks, is_candidate, specificity, consider, best_route, resolve_route,
}

outranks_trans :
    (p : ℤ) (s : ℕ) (p' : ℤ) (s' : ℕ) (p'' : ℤ) (s'' : ℕ)
    → outranks p s p' s' ≡ true
    → outranks p' s' p'' s'' ≡ true
    → outranks p s p'' s'' ≡ true
outranks_trans p s p' s' p'' s'' h k = ground arith

outranks_trans_not :
    (p : ℤ) (s : ℕ) (p' : ℤ) (s' : ℕ) (p'' : ℤ) (s'' : ℕ)
    → outranks p s p' s' ≡ true
    → outranks p'' s'' p' s' ≡ false
    → outranks p s p'' s'' ≡ true
outranks_trans_not p s p' s' p'' s'' h k = ground arith

module _ (app_id : Option Text) (q : Query) where
  abbrev candidate : Route → Bool
  candidate = is_candidate app_id q

  abbrev pub beats : Route → Route → Bool
  beats r x = outranks r.priority (specificity app_id q r) x.priority (specificity app_id q x)

  beats_trans : (r x b : Route) → beats r x ≡ true → beats x b ≡ true → beats r b ≡ true
  beats_trans r x b h k =
      outranks_trans r.priority (specificity app_id q r) x.priority (specificity app_id q x)
        b.priority (specificity app_id q b) h k

  beats_trans_not : (r b x : Route) → beats r b ≡ true → beats x b ≡ false → beats r x ≡ true
  beats_trans_not r b x h k =
      outranks_trans_not r.priority (specificity app_id q r) b.priority (specificity app_id q b)
        x.priority (specificity app_id q x) h k

  abbrev pub entry : Route → ℤ × ℕ × Text
  entry r = (r.priority, specificity app_id q r, r.cert_id)

  -- `r` is a candidate that outranks each candidate before it, and that none after it outranks.
  pub data Wins : List Route → Route → Type 0 where
    here :
        (r : Route) (rs : List Route)
        → is_candidate app_id q r ≡ true
        → All (λ x. is_candidate app_id q x ≡ true → beats x r ≡ false) rs
        → Wins (r ∷ rs) r
    there :
        (x r : Route) (rs : List Route)
        → (is_candidate app_id q x ≡ true → beats r x ≡ true)
        → Wins rs r
        → Wins (x ∷ rs) r

  abbrev Keeps : Route → List Route → Type 0
  Keeps b rs =
      (best_route app_id q (some (entry b)) rs ≡ some (entry b))
      × All (λ x. candidate x ≡ true → beats x b ≡ false) rs

  abbrev Replaced : Route → List Route → Type 0
  Replaced b rs =
      (r : Route) × Wins rs r
      × (beats r b ≡ true)
      × (best_route app_id q (some (entry b)) rs ≡ some (entry r))

  consider_skip :
      (b x : Route) → candidate x ≡ false → consider app_id q (some (entry b)) x ≡ some (entry b)
  unfolding consider
  consider_skip b x h = rw h

  consider_keep :
      (b x : Route) → beats x b ≡ false → consider app_id q (some (entry b)) x ≡ some (entry b)
  unfolding consider
  consider_keep b x h = ground arith

  consider_replace :
      (b x : Route)
      → candidate x ≡ true
      → beats x b ≡ true
      → consider app_id q (some (entry b)) x ≡ some (entry x)
  unfolding consider
  consider_replace b x h k = ground arith

  scan : (b : Route) (rs : List Route) → Keeps b rs ⊎ Replaced b rs
  unfolding best_route
  scan b [] = inl (refl, tt)
  scan b (x ∷ rs) = elim (Bool-cases (candidate x)) [
    | inr out ↦ rw (consider_skip b x out) (elim (scan b rs) [
      | inl k ↦ inl (k.0, ((λ c. cc), k.1))
      | inr (r, w, o, e) ↦ inr (r, there x r rs (λ c. cc) w, o, e)
    ])
    | inl c ↦ elim (Bool-cases (beats x b)) [
      | inr low ↦ rw (consider_keep b x low) (elim (scan b rs) [
        | inl k ↦ inl (k.0, ((λ _. low), k.1))
        | inr (r, w, o, e) ↦ inr (r, there x r rs (λ _. beats_trans_not r b x o low) w, o, e)
      ])
      | inl high ↦ rw (consider_replace b x c high) (elim (scan x rs) [
        | inl k ↦ inr (x, here x rs c k.1, high, k.0)
        | inr (r, w, o, e) ↦ inr (r, there x r rs (λ _. o) w, beats_trans r x b o high, e)
      ])
    ]
  ]

  first_skip : (x : Route) → candidate x ≡ false → consider app_id q none x ≡ none
  unfolding consider
  first_skip x h = ground arith

  first_take : (x : Route) → candidate x ≡ true → consider app_id q none x ≡ some (entry x)
  unfolding consider
  first_take x h = ground arith

  -- The loop from `None`: no candidate and no entry, or the winner's entry.
  pub best_route-Wins :
      (rs : List Route)
      → ((best_route app_id q none rs ≡ none) × All (λ x. is_candidate app_id q x ≡ false) rs)
        ⊎ ((r : Route) × Wins rs r × (best_route app_id q none rs ≡ some (entry r)))
  unfolding best_route
  best_route-Wins [] = inl (refl, tt)
  best_route-Wins (x ∷ rs) = elim (Bool-cases (candidate x)) [
    | inr out ↦ rw (first_skip x out) (elim (best_route-Wins rs) [
      | inl k ↦ inl (k.0, (out, k.1))
      | inr (r, w, e) ↦ inr (r, there x r rs (λ c. cc) w, e)
    ])
    | inl c ↦ rw (first_take x c) (elim (scan x rs) [
      | inl k ↦ inr (x, here x rs c k.1, k.0)
      | inr (r, w, o, e) ↦ inr (r, there x r rs (λ _. o) w, e)
    ])
  ]

-- On an unlocked store `resolve_route` returns, and what it returns is the certificate of the
-- winner among the listed routes, or `None` when no route is a candidate.
pub resolve_route-Wins :
    (s : Store) (q : Query) (rs : List Route) (apps : List App)
    → list_routes s ≡ ok rs
    → list_apps s ≡ ok apps
    → ((resolve_route s q ≡ ok none)
        × All (λ x. is_candidate (app_id_of apps q.exe_path) q x ≡ false) rs)
      ⊎ ((r : Route) × Wins (app_id_of apps q.exe_path) q rs r
          × (resolve_route s q ≡ ok (some r.cert_id)))
unfolding resolve_route
resolve_route-Wins s q rs apps hr ha =
    rw (hr, ha)
      (elim (best_route-Wins (app_id_of apps q.exe_path) q rs) [
        | inl k ↦ inl (rw k.0, k.1)
        | inr (r, w, e) ↦ inr (r, w, rw e)
      ])
