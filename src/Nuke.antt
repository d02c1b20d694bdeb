-- ===== src/Nuke.antt =====
-- `Nuke::split`, `Nuke::join` and `Nuke::contains` (src/Nuke/string_utils.h,
-- src/Nuke/lang_extend.h). Every call in the repository gives `split` and `join` a separator of one
-- byte, so the separator is a byte here.
pub mod RoundTrip
use mathlib.Core.List.{foldl}
use ctx_db.Prelude.{
  ℕ, Bool, true, false, ◌||◌, List, [], ◌∷◌, ◌++◌, Text, same, ◌==◌, if◌then◌else◌,
}

-- Puts a byte in front of the first piece.
abbrev pub onto_first : ℕ → List Text → List Text
onto_first c [] = (c ∷ []) ∷ []
onto_first c (p ∷ ps) = (c ∷ p) ∷ ps

-- The pieces between the separators, the last one included.
unfoldable pub pieces : ℕ → Text → List Text
pieces sep [] = [] ∷ []
pieces sep (c ∷ cs) = let rest = pieces sep cs in if c == sep then [] ∷ rest else onto_first c rest

-- A single empty piece is no piece at all.
abbrev pub drop_lone_empty : List Text → List Text
drop_lone_empty ([] ∷ []) = []
drop_lone_empty ps = ps

unfoldable pub split : ℕ → Text → List Text
unfolding pieces
split sep s = drop_lone_empty (pieces sep s)

abbrev pub is_empty : Text → Bool
is_empty [] = true
is_empty (c ∷ cs) = false

-- The function that `std::accumulate` folds with.
abbrev pub join_step : ℕ → Text → Text → Text
join_step sep x y = if is_empty x then y else x ++ sep ∷ y

unfoldable pub join : ℕ → List Text → Text
join sep xs = foldl (join_step sep) [] xs

-- `contains` on a vector of strings.
unfoldable pub contains : List Text → Text → Bool
unfolding same
contains [] k = false
contains (x ∷ xs) k = same x k || contains xs k
