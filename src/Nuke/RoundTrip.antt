-- ===== src/Nuke/RoundTrip.antt =====
-- `split` undoes `join` (src/Nuke/string_utils.h).
use mathlib.Core.List.{foldl, append_assoc, append-nil}
use ctx_db.Prelude.{ℕ, ◌≡◌, ◌≢◌, refl, sym, ap, ◌∙◌, List, [], ◌∷◌, ◌++◌, Text, All, arith}
use ctx_db.Nuke.{pieces, split, drop_lone_empty, join, join_step}

-- No byte of the text is the separator.
abbrev pub Free : ℕ → Text → Type 0
Free sep = All (λ c. c ≢ sep)

-- A text that a list of names can hold: not empty, and without the separator.
abbrev pub IsName : ℕ → Text → Type 0
IsName sep s = (s ≢ []) × Free sep s

-- A text with no separator is one piece, and stands in front of what a separator follows.
pub pieces-Free : (sep : ℕ) (s : Text) → Free sep s → pieces sep s ≡ s ∷ []
unfolding pieces
pieces-Free sep [] h = refl
pieces-Free sep (c ∷ cs) h = ground (arith, pieces-Free sep cs h.1)

pub pieces-append :
    (sep : ℕ) (s t : Text) → Free sep s → pieces sep (s ++ sep ∷ t) ≡ s ∷ pieces sep t
unfolding pieces
pieces-append sep [] t h = ground arith
pieces-append sep (c ∷ cs) t h = ground (arith, pieces-append sep cs t h.1)

-- `join` of names with the first one taken off.
abbrev tail_text : ℕ → List Text → Text
tail_text sep [] = []
tail_text sep (y ∷ ys) = sep ∷ (y ++ tail_text sep ys)

join_from :
    (sep c : ℕ) (cs : Text) (ys : List Text)
    → foldl (join_step sep) (c ∷ cs) ys ≡ (c ∷ cs) ++ tail_text sep ys
join_from sep c cs [] = sym (append-nil (c ∷ cs))
join_from sep c cs (y ∷ ys) =
    join_from sep c (cs ++ sep ∷ y) ys ∙ append_assoc (c ∷ cs) (sep ∷ y) (tail_text sep ys)

pieces-tail_text :
    (sep : ℕ) (x : Text) (xs : List Text)
    → Free sep x
    → All (IsName sep) xs
    → pieces sep (x ++ tail_text sep xs) ≡ x ∷ xs
pieces-tail_text sep x [] f h = rw (append-nil x) (pieces-Free sep x f)
pieces-tail_text sep x (y ∷ ys) f h =
    pieces-append sep x (y ++ tail_text sep ys) f ∙ ap (◌∷◌ x) (pieces-tail_text sep y ys h.0.1 h.1)

-- A list of names, none of them empty and none holding the separator, is what `split` makes of its
-- `join`. The empty list is included.
pub split-join : (sep : ℕ) (xs : List Text) → All (IsName sep) xs → split sep (join sep xs) ≡ xs
unfolding split join
split-join sep [] h = refl
split-join sep ([] ∷ xs) h = absurd (h.0.0 refl)
split-join sep ((c ∷ cs) ∷ xs) h =
    rw (join_from sep c cs xs, pieces-tail_text sep (c ∷ cs) xs h.0.1 h.1)

Free-append : (c : ℕ) (s t : Text) → Free c s → Free c t → Free c (s ++ t)
Free-append c [] t hs ht = ht
Free-append c (x ∷ xs) t hs ht = (hs.0, Free-append c xs t hs.1 ht)

Free-foldl :
    (sep c : ℕ) (acc : Text) (xs : List Text)
    → sep ≢ c
    → Free c acc
    → All (Free c) xs
    → Free c (foldl (join_step sep) acc xs)
Free-foldl sep c acc [] d fa fx = fa
Free-foldl sep c [] (y ∷ ys) d fa fx = Free-foldl sep c y ys d fx.0 fx.1
Free-foldl sep c (a ∷ rest) (y ∷ ys) d fa fx =
    Free-foldl sep c ((a ∷ rest) ++ sep ∷ y) ys d (Free-append c (a ∷ rest) (sep ∷ y) fa (d, fx.0))
      fx.1

-- A byte that is neither the separator nor in a name is not in the joined text.
pub Free-join : (sep c : ℕ) (xs : List Text) → sep ≢ c → All (Free c) xs → Free c (join sep xs)
unfolding join
Free-join sep c xs d fx = Free-foldl sep c [] xs d tt fx

pub drop_lone_empty-cons : (a b : Text) (ps : List Text) → drop_lone_empty (a ∷ b ∷ ps) ≡ a ∷ b ∷ ps
drop_lone_empty-cons [] b ps = refl
drop_lone_empty-cons (x ∷ xs) b ps = refl
