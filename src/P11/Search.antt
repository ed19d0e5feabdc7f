-- ===== src/P11/Search.antt =====
-- A search hands out every object once, in order, and the handles are those that are accepted.
use traffic_cone.Common.{
  ℕ, zero, suc, ◌+◌, ◌*◌, ◌/◌, ◌<◌, ◌≡◌, refl, sym, ap, ◌∙◌, ◌↔◌, inl, inr, true, false, none, some,
  List, [], ◌∷◌, ◌++◌, arith, Bool-cases, length, get_elem?, take, Result, unwrap_or,
}
use traffic_cone.P11.{
  ckr_ok, object_count, get_attribute_value, has_object, P11Cert, P11Error, find_objects_init,
  find_objects, find_handles, ModuleState,
}

-- The handles of a sequence of calls with these limits.
abbrev pub collect : List ℕ → ModuleState → List ℕ
collect [] s = []
collect (max ∷ more) s = (find_objects max s).1 ++ collect more (find_objects max s).0

-- So many numbers from one on.
abbrev pub range : ℕ → ℕ → List ℕ
range first zero = []
range first (suc n) = first ∷ range (suc first) n

abbrev pub sum : List ℕ → ℕ
sum [] = 0
sum (n ∷ ns) = n + sum ns

find_handles-range :
    (max place left : ℕ) → find_handles max place (place + left) ≡ take max (range place left)
unfolding find_handles
find_handles-range zero place left = refl
find_handles-range (suc max) place zero = ground arith
find_handles-range (suc max) place (suc left) =
    let ih : find_handles max (suc place) (place + suc left) ≡ take max (range (suc place) left) =
      ap (find_handles max (suc place)) (omega arith) ∙ find_handles-range max (suc place) left in
    ground (arith, ih)

pub take_nil : (n : ℕ) → take {A = ℕ} n [] ≡ []
take_nil zero = refl
take_nil (suc n) = refl

-- What a limit leaves of a range, and the limits after it.
abbrev Splits : ℕ → ℕ → ℕ → Type 0
Splits max place left =
    (left' : ℕ) × (length (take max (range place left)) + left' ≡ left)
    × ((n : ℕ)
        → take (max + n) (range place left)
          ≡ take max (range place left)
            ++ take n (range (place + length (take max (range place left))) left'))

none_taken : (n place left : ℕ) → take (0 + n) (range place left) ≡ take n (range (place + 0) left)
none_taken n place left =
    let en : 0 + n ≡ n = omega arith in
    let ep : place ≡ place + 0 = omega arith in
    ap (λ (m : ℕ). take m (range place left)) en ∙ ap (λ (p : ℕ). take n (range p left)) ep

range-Splits : (max place left : ℕ) → Splits max place left
range-Splits zero place left = (left, omega arith, λ n. none_taken n place left)
range-Splits (suc max) place zero = (0, omega arith, λ n. take_nil (suc max + n) ∙ sym (take_nil n))
range-Splits (suc max) place (suc left) =
    let (left', e, f) = range-Splits max (suc place) left in
    let k : ℕ = length (take max (range (suc place) left)) in
    (
      left',
      omega (arith, e),
      λ n.
          let en : suc max + n ≡ suc (max + n) = omega arith in
          let ep : suc place + k ≡ place + suc k = omega arith in
          ap (λ (m : ℕ). take m (range place (suc left))) en
          ∙ ap (λ (t : List ℕ). place ∷ t)
              (f n
                ∙ ap (λ (p : ℕ). take max (range (suc place) left) ++ take n (range p left')) ep),
    )

collect-range :
    (limits : List ℕ) (s : ModuleState) (left : ℕ)
    → s.find_position + left ≡ object_count s
    → collect limits s ≡ take (sum limits) (range s.find_position left)
unfolding find_objects
collect-range [] s left h = refl
collect-range (max ∷ more) s left h =
    let handed : find_handles max s.find_position (object_count s)
        ≡ take max (range s.find_position left) =
      ap (find_handles max s.find_position) (sym h) ∙ find_handles-range max s.find_position left in
    let (left', e, f) = range-Splits max s.find_position left in
    let count : ℕ = object_count s in
    let handles : List ℕ = find_handles max s.find_position count in
    let lens : length handles ≡ length (take max (range s.find_position left)) = ap length handed in
    let ih = collect-range more (find_objects max s).0 left' (omega (arith, h, e, lens)) in
    ap (λ (t : List ℕ). handles ++ t) ih
    ∙ (ap (λ (hs : List ℕ). hs ++ take (sum more) (range (s.find_position + length hs) left'))
          handed
        ∙ sym (f (sum more)))

-- Calls of `C_FindObjects` after `C_FindObjectsInit`, however their limits cut them up, hand out the
-- handles 0, 1, 2 and so on, in order and each once, as many as the limits add up to, and stop at two
-- for each certificate.
pub collect-find_objects_init :
    (reply : Result P11Error (List P11Cert)) (s : ModuleState) (limits : List ℕ)
    → collect limits (find_objects_init reply s).0
      ≡ take (sum limits) (range 0 (length (unwrap_or reply []) * 2))
unfolding find_objects_init
collect-find_objects_init reply s limits =
    collect-range limits (find_objects_init reply s).0 (length (unwrap_or reply []) * 2)
      (omega arith)

has_object-ltb :
    (certs : List P11Cert) (i : ℕ)
    → ((elim (get_elem? certs i) [ none ↦ false | some cert ↦ true ]) ≡ true) ↔ (i < length certs)
has_object-ltb [] zero = ground arith
has_object-ltb [] (suc i) = ground arith
has_object-ltb (c ∷ certs) zero = ground arith
has_object-ltb (c ∷ certs) (suc i) =
    let (f, g) = has_object-ltb certs i in
    ((λ h. let q = f h in omega (arith, q)), λ h. g (omega (arith, h)))

has_object_iff :
    (s : ModuleState) (handle : ℕ) → (has_object s handle ≡ true) ↔ (handle / 2 < length s.certs)
unfolding has_object
has_object_iff s handle = has_object-ltb s.certs (handle / 2)

-- `C_GetAttributeValue` accepts a handle exactly if a search hands it out.
pub get_attribute_value_iff :
    (handle : ℕ) (s : ModuleState)
    → (get_attribute_value handle s ≡ ckr_ok) ↔ (handle < object_count s)
unfolding get_attribute_value
get_attribute_value_iff handle s = elim (Bool-cases (has_object s handle)) [
  | inl b ↦ (
    (λ h. let below = (has_object_iff s handle).0 b in omega (arith, below)),
    λ h. rw (b, get_attribute_value) refl,
  )
  | inr b ↦ (
    (λ h. absurd (omega (arith, (rw (b, get_attribute_value) at h)))),
    λ h. absurd (cc (b, (has_object_iff s handle).1 (omega (arith, h)))),
  )
]
