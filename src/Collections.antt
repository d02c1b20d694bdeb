-- ===== src/Collections.antt =====
-- The associative containers of the servers: `std::unordered_map` as an association list in the
-- order of its iteration, `std::set<int>` as an ascending list. `m[k]` on a missing key reads the
-- default value. That it also stores the default is modelled where the map is iterated later.
pub mod Lookup
use ctx_db.Prelude.{
  ℕ, Bool, true, false, not, ◌||◌, List, [], ◌∷◌, Option, none, some, Text, same, ltb, ◌==◌,
  if◌then◌else◌,
}

module _ {ℓ} {V : Type ℓ} where
  unfoldable pub lookup : ℕ → List (ℕ × V) → Option V
  lookup k [] = none
  lookup k ((j, v) ∷ m) = if j == k then some v else lookup k m

  -- `m[k]`, where the default value is given.
  unfoldable pub get_or : V → ℕ → List (ℕ × V) → V
  get_or d k [] = d
  get_or d k ((j, v) ∷ m) = if j == k then v else get_or d k m

  -- `m[k] = v`; a new key goes to the end.
  unfoldable pub put : ℕ → V → List (ℕ × V) → List (ℕ × V)
  put k v [] = (k, v) ∷ []
  put k v ((j, w) ∷ m) = if j == k then (k, v) ∷ m else (j, w) ∷ put k v m

  unfoldable pub erase : ℕ → List (ℕ × V) → List (ℕ × V)
  erase k [] = []
  erase k ((j, w) ∷ m) = let rest = erase k m in if j == k then rest else (j, w) ∷ rest

  abbrev pub keys : List (ℕ × V) → List ℕ
  keys [] = []
  keys ((k, v) ∷ m) = k ∷ keys m

  unfoldable pub lookup_text : Text → List (Text × V) → Option V
  lookup_text k [] = none
  lookup_text k ((j, v) ∷ m) = if same j k then some v else lookup_text k m

  unfoldable pub put_text : Text → V → List (Text × V) → List (Text × V)
  put_text k v [] = (k, v) ∷ []
  put_text k v ((j, w) ∷ m) = if same j k then (k, v) ∷ m else (j, w) ∷ put_text k v m

-- A set of `int`.
unfoldable pub member : ℕ → List ℕ → Bool
member k [] = false
member k (j ∷ js) = j == k || member k js

unfoldable pub insert : ℕ → List ℕ → List ℕ
insert k [] = k ∷ []
insert k (j ∷ js) =
    let rest = insert k js in if k == j then j ∷ js else if ltb k j then k ∷ j ∷ js else j ∷ rest

unfoldable pub remove : ℕ → List ℕ → List ℕ
remove k [] = []
remove k (j ∷ js) = let rest = remove k js in if j == k then rest else j ∷ rest
