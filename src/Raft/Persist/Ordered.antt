-- ===== src/Raft/Persist/Ordered.antt =====
-- The map of peers (src/node_conf.cpp) where names come to it in order.
use ctx_db.Prelude.{
  ◌≡◌, refl, map, false, same, List, [], ◌∷◌, ◌++◌, none, Text, All, arith, inl, inr, Bool-cases,
}
use ctx_db.Raft.Types.{NodePeer}
use ctx_db.Raft.Peers.{before, insert_peer, find_peer, new_peer}

abbrev pub peer_names : List (Text × NodePeer) → List Text
peer_names = map (λ (e : Text × NodePeer). e.0)

-- A peer as `add_peer` makes it, under its name.
abbrev pub fresh_entry : Text → Text × NodePeer
fresh_entry k = (k, new_peer k)

abbrev pub Distinct : List Text → Type 0
Distinct [] = Unit
Distinct (k ∷ ks) = All (λ j. same k j ≡ false) ks × Distinct ks

-- The order of a `std::map`.
abbrev pub IsOrdered : List Text → Type 0
IsOrdered [] = Unit
IsOrdered (k ∷ ks) = All (λ j. before j k ≡ false) ks × IsOrdered ks

find_peer-append :
    (j k : Text) (p : NodePeer) (ps : List (Text × NodePeer))
    → find_peer j ps ≡ none
    → same k j ≡ false
    → find_peer j (ps ++ (k, p) ∷ []) ≡ none
unfolding find_peer
find_peer-append j k p [] h other = ground (arith, other)
find_peer-append j k p ((i, q) ∷ ps) h other = elim (Bool-cases (same i j)) [
  | inl here ↦ ground (arith, here)
  | inr later ↦ rw later (find_peer-append j k p ps (rw later at h) other)
]

-- A name that is not in the map, and comes behind all names in it.
abbrev pub Follows : Text → List (Text × NodePeer) → Type 0
Follows k ps = (find_peer k ps ≡ none) × All (λ j. before k j ≡ false) (peer_names ps)

pub insert_peer_last :
    (k : Text) (p : NodePeer) (ps : List (Text × NodePeer))
    → All (λ j. before k j ≡ false) (peer_names ps)
    → insert_peer k p ps ≡ ps ++ (k, p) ∷ []
unfolding insert_peer
insert_peer_last k p [] h = refl
insert_peer_last k p ((j, q) ∷ ps) h = rw (h.0, insert_peer_last k p ps h.1) refl

before-append :
    (j k : Text) (ps : List (Text × NodePeer))
    → All (λ i. before j i ≡ false) (peer_names ps)
    → before j k ≡ false
    → All (λ i. before j i ≡ false) (peer_names (ps ++ fresh_entry k ∷ []))
before-append j k [] h last = (last, tt)
before-append j k (e ∷ ps) h last = (h.0, before-append j k ps h.1 last)

pub Follows-append :
    (ks : List Text) (k : Text) (ps : List (Text × NodePeer))
    → All (λ j. Follows j ps) ks
    → All (λ j. same k j ≡ false) ks
    → All (λ j. before j k ≡ false) ks
    → All (λ j. Follows j (ps ++ fresh_entry k ∷ [])) ks
Follows-append [] k ps h other later = tt
Follows-append (j ∷ ks) k ps h other later = (
  (find_peer-append j k (new_peer k) ps h.0.0 other.0, before-append j k ps h.0.1 later.0),
  Follows-append ks k ps h.1 other.1 later.1,
)

pub Follows-empty :
    (ks : List Text) (ps : List (Text × NodePeer)) → ps ≡ [] → All (λ j. Follows j ps) ks
unfolding find_peer
Follows-empty [] ps h = tt
Follows-empty (k ∷ ks) ps h = ((rw h refl, rw h tt), Follows-empty ks ps h)
