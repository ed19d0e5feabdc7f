-- ===== src/P11/Token/Padding.antt =====
-- The fixed fields of the token info.
use traffic_cone.Common.{
  ℕ, zero, suc, ◌-◌, ◌≤◌, ◌≡◌, refl, sym, ap, ◌∙◌, inl, inr, [], ◌∷◌, ◌++◌, arith, leb,
  if◌then◌else◌, Bool-cases, length, take, Text, Bytes,
}
use traffic_cone.P11.Search.{take_nil}
use traffic_cone.P11.Token.{copy_front, spaces, pad32, pad16}

take_all : (s : Text) (n : ℕ) → length s ≤ n → take n s ≡ s
take_all [] n h = take_nil n
take_all (b ∷ s) zero h = absurd (omega arith)
take_all (b ∷ s) (suc n) h = ap (λ (t : Text). b ∷ t) (take_all s n (omega arith))

length-spaces : (n : ℕ) → length (spaces n) ≡ n
length-spaces zero = refl
length-spaces (suc n) = ap suc (length-spaces n)

length-copy_front : (bs buf : Bytes) → length (copy_front bs buf) ≡ length buf
unfolding copy_front
length-copy_front [] buf = refl
length-copy_front (b ∷ bs) [] = refl
length-copy_front (b ∷ bs) (x ∷ buf) = ap suc (length-copy_front bs buf)

copy_front-spaces :
    (s : Text) (n : ℕ) → copy_front (take n s) (spaces n) ≡ take n s ++ spaces (n - length s)
unfolding copy_front
copy_front-spaces s zero = let e : 0 - length s ≡ 0 = omega arith in rw e refl
copy_front-spaces [] (suc n) = let e : suc n - 0 ≡ suc n = omega arith in rw e refl
copy_front-spaces (b ∷ s) (suc n) =
    let e : suc n - suc (length s) ≡ n - length s = omega arith in
    rw e (ap (λ (t : Text). b ∷ t) (copy_front-spaces s n))

-- The `min` of the source.
take-min : (s : Text) (n : ℕ) → take (if leb (length s) n then length s else n) s ≡ take n s
take-min s n = elim (Bool-cases (leb (length s) n)) [
  | inl e ↦ rw e (take_all s (length s) (omega arith) ∙ sym (take_all s n (ground arith)))
  | inr e ↦ rw e refl
]

-- A text that is padded fills its field exactly: it is cut after the size of the field, or followed by
-- spaces.
pub pad-take :
    (s : Text)
    → (pad32 s ≡ take 32 s ++ spaces (32 - length s))
      × (length (pad32 s) ≡ 32)
      × (pad16 s ≡ take 16 s ++ spaces (16 - length s))
      × (length (pad16 s) ≡ 16)
unfolding pad32 pad16
pad-take s = (
  ap (λ (t : Text). copy_front t (spaces 32)) (take-min s 32) ∙ copy_front-spaces s 32,
  length-copy_front _ (spaces 32) ∙ length-spaces 32,
  ap (λ (t : Text). copy_front t (spaces 16)) (take-min s 16) ∙ copy_front-spaces s 16,
  length-copy_front _ (spaces 16) ∙ length-spaces 16,
)
