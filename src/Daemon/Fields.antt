-- ===== src/Daemon/Fields.antt =====
-- Cutting text: `split_whitespace`, `lines`, `split_once` and `rfind`, for ASCII.
use traffic_cone.Common.{
  ℕ, Bool, ◌&&◌, ◌||◌, Option, none, some, List, [], ◌∷◌, map, leb, ◌==◌, if◌then◌else◌, Text,
}

abbrev pub is_space : ℕ → Bool
is_space c = c == 32 || (leb 9 c && leb c 13)

abbrev push_word : Text → List Text → List Text
push_word [] ws = ws
push_word (c ∷ cs) ws = (c ∷ cs) ∷ ws

-- The first word, up to a space, and the words behind it.
words : Text → Text × List Text
words [] = ([], [])
words (c ∷ cs) = let (w, ws) = words cs in if is_space c then ([], push_word w ws) else (c ∷ w, ws)

unfoldable pub split_whitespace : Text → List Text
unfolding words
split_whitespace t = let (w, ws) = words t in push_word w ws

-- The pieces between line feeds, the last one included.
cut_lines : Text → Text × List Text
cut_lines [] = ([], [])
cut_lines (c ∷ cs) = let (l, ls) = cut_lines cs in if c == 10 then ([], l ∷ ls) else (c ∷ l, ls)

strip_cr : Text → Text
strip_cr [] = []
strip_cr (c ∷ []) = if c == 13 then [] else c ∷ []
strip_cr (c ∷ d ∷ cs) = c ∷ strip_cr (d ∷ cs)

drop_last_empty : List Text → List Text
drop_last_empty [] = []
drop_last_empty ([] ∷ []) = []
drop_last_empty ((c ∷ cs) ∷ []) = (c ∷ cs) ∷ []
drop_last_empty (l ∷ m ∷ ls) = l ∷ drop_last_empty (m ∷ ls)

-- `str::lines`: a line feed at the end opens no further line.
unfoldable pub lines : Text → List Text
unfolding cut_lines strip_cr drop_last_empty
lines t = let (l, ls) = cut_lines t in map strip_cr (drop_last_empty (l ∷ ls))

unfoldable pub split_once : ℕ → Text → Option (Text × Text)
split_once stop [] = none
split_once stop (c ∷ cs) =
    let rest = split_once stop cs in
    if c == stop
    then some ([], cs)
    else (elim rest [ none ↦ none | some (front, back) ↦ some (c ∷ front, back) ])

-- What stands behind the last `stop`.
unfoldable pub after_last : ℕ → Text → Option Text
after_last stop [] = none
after_last stop (c ∷ cs) = elim (after_last stop cs) [
  | some back ↦ some back
  | none ↦ if c == stop then some cs else none
]
