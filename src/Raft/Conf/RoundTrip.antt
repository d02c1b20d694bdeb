-- ===== src/Raft/Conf/RoundTrip.antt =====
-- A configuration read back from its text form (src/node.h).
use ctx_db.Prelude.{◌≡◌, List, [], ◌∷◌, ◌++◌, some, Text, All, arith}
use mathlib.Core.List.{append_assoc}
use ctx_db.Nuke.{split, join}
use ctx_db.Nuke.RoundTrip.{Free, IsName, pieces-append, split-join, Free-join, drop_lone_empty-cons}
use ctx_db.Raft.Types.{Configuration}
use ctx_db.Raft.Conf.{make_configuration, to_string, from_string, newline, semicolon}

-- A peer's name as a configuration can carry it: not empty, no ";" and no newline.
abbrev pub IsPeerName : Text → Type 0
IsPeerName s = IsName semicolon s × Free newline s

All-names : (xs : List Text) → All IsPeerName xs → All (IsName semicolon) xs
All-names [] h = tt
All-names (x ∷ xs) h = (h.0.0, All-names xs h.1)

All-Free : (xs : List Text) → All IsPeerName xs → All (Free newline) xs
All-Free [] h = tt
All-Free (x ∷ xs) h = (h.0.1, All-Free xs h.1)

Free-line : (xs : List Text) → All IsPeerName xs → Free newline (join semicolon xs)
Free-line xs h = Free-join semicolon newline xs (omega arith) (All-Free xs h)

split-lines :
    (a r o : Text)
    → Free newline a
    → Free newline r
    → Free newline o
    → split newline ((a ++ newline ∷ []) ++ (r ++ newline ∷ []) ++ (o ++ newline ∷ []))
      ≡ a ∷ r ∷ o ∷ [] ∷ []
unfolding split
split-lines a r o fa fr fo = simp append_assoc (
    rw (pieces-append newline a _ fa, pieces-append newline r _ fr, pieces-append newline o _ fo)
      (drop_lone_empty-cons a r _))

-- What `to_string` writes, `from_string` reads as the same three lists of peers, with the voting
-- thresholds computed again and the other fields as in a new configuration, provided that no
-- peer's name is empty or holds ";" or a newline.
pub from_string-to_string :
    (c : Configuration)
    → All IsPeerName c.app
    → All IsPeerName c.rem
    → All IsPeerName c.old
    → from_string (to_string c) ≡ some (make_configuration c.app c.rem c.old)
unfolding from_string to_string
from_string-to_string c ha hr ho =
    let names =
      λ (xs : List Text) (h : All IsPeerName xs). split-join semicolon xs (All-names xs h) in
    rw (
      split-lines _ _ _ (Free-line c.app ha) (Free-line c.rem hr) (Free-line c.old ho),
      names c.app ha,
      names c.rem hr,
      names c.old ho,
    )
