-- ===== src/Daemon/Utf8.antt =====
-- `to_str` of std, which crates/coned/src/process_monitor.rs calls on a path: whether bytes are UTF-8,
-- by the table of well-formed sequences in the Unicode standard.
use traffic_cone.Common.{
  refl, ℕ, zero, suc, Bool, true, false, ◌&&◌, ◌≡◌, Option, none, some, [], ◌∷◌, ◌==◌, ltb, leb,
  if◌then◌else◌, All, ◌<◌, Bytes, arith,
}

-- For the first byte of a sequence, how many follow and the bounds of the first that does.
unfoldable pub lead : ℕ → Option (ℕ × ℕ × ℕ)
lead b =
    if ltb b 0x80
    then some (0, 0, 0)
    else if ltb b 0xc2
    then none
    else if ltb b 0xe0
    then some (1, 0x80, 0xbf)
    else if b == 0xe0
    then some (2, 0xa0, 0xbf)
    else if b == 0xed
    then some (2, 0x80, 0x9f)
    else if ltb b 0xf0
    then some (2, 0x80, 0xbf)
    else if b == 0xf0
    then some (3, 0x90, 0xbf)
    else if ltb b 0xf4
    then some (3, 0x80, 0xbf)
    else if b == 0xf4
    then some (3, 0x80, 0x8f)
    else none

-- The rest of the bytes, where `n` of the sequence are left and the next is between the bounds.
unfoldable pub continues : ℕ → ℕ → ℕ → Bytes → Bool
continues zero lo hi [] = true
continues (suc n) lo hi [] = false
continues zero lo hi (b ∷ rest) = elim (lead b) [
  | none ↦ false
  | some (n, low, high) ↦ continues n low high rest
]
continues (suc n) lo hi (b ∷ rest) = leb lo b && leb b hi && continues n 0x80 0xbf rest

unfoldable pub is_utf8 : Bytes → Bool
is_utf8 bytes = continues 0 0 0 bytes

lead-ascii : (b : ℕ) → b < 0x80 → lead b ≡ some (0, 0, 0)
unfolding lead
lead-ascii b h = ground arith

-- ASCII text is UTF-8.
is_utf8-ascii : (bytes : Bytes) → All (λ b. b < 0x80) bytes → is_utf8 bytes ≡ true
unfolding is_utf8 continues
is_utf8-ascii [] h = refl
is_utf8-ascii (b ∷ rest) (h, hs) = rw (lead-ascii b h, is_utf8, continues) (is_utf8-ascii rest hs)
