-- ===== src/Store/Import/Path.antt =====
-- `Path::new(path).extension()`, in lower case, and `str::contains`; for ASCII names.
use traffic_cone.Common.{
  reverse, ℕ, ◌+◌, ◌≡◌, refl, Bool, ◌&&◌, ◌||◌, Option, none, some, [], ◌∷◌, map, leb, ◌==◌,
  if◌then◌else◌, Text, codes, starts_with,
}

-- Slashes and `/.` at the end of a path, on the reversed path.
trim_end : Text → Text
trim_end (x ∷ y ∷ rest) =
    let one = trim_end (y ∷ rest) in
    let two = trim_end rest in
    if x == b'/' then one else if x == b'.' && y == b'/' then two else x ∷ y ∷ rest
trim_end t = t

-- The reversed text up to the first `stop`, with what lies behind it, if there is one.
break_at : ℕ → Text → Text × Option Text
break_at stop [] = ([], none)
break_at stop (x ∷ xs) =
    let (front, back) = break_at stop xs in if x == stop then ([], some xs) else (x ∷ front, back)

-- The part of the reversed file name before its first dot, unless nothing follows the dot.
extension_of : Text × Option Text → Text
extension_of (front, none) = []
extension_of (front, some []) = []
extension_of (front, some (x ∷ xs)) = reverse front

unfoldable pub to_lower : ℕ → ℕ
to_lower c = if leb b'A' c && leb c b'Z' then c + 32 else c

unfoldable pub extension_lower : Text → Text
unfolding trim_end break_at extension_of to_lower
extension_lower path =
    map to_lower (extension_of (break_at b'.' (break_at b'/' (trim_end (reverse path))).0))

unfoldable pub contains : Text → Text → Bool
contains [] sub = starts_with [] sub
contains (x ∷ xs) sub = let rest = contains xs sub in starts_with (x ∷ xs) sub || rest

ext_pfx : extension_lower (codes "/home/a.b/Laptop.PFX") ≡ codes "pfx"
unfolding extension_lower
ext_pfx = refl

ext_none : extension_lower (codes "dir.d/.hidden") ≡ []
unfolding extension_lower
ext_none = refl
