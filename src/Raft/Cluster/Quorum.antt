-- ===== src/Raft/Cluster/Quorum.antt =====
-- Two majorities of the members have a member in common.
use ctx_db.Prelude.{
  suc, ◌+◌, ◌*◌, ◌/◌, ◌≤◌, ◌<◌, ◌≡◌, ◌≢◌, refl, sym, ap, ◌∙◌, inl, inr, Bool, true, false, ◌&&◌,
  ◌||◌, List, [], ◌∷◌, Text, same, same→eq, same_refl, arith, count, length, Bool-cases, subst,
}
use ctx_db.Raft.Types.{NodePeer}
use ctx_db.Raft.Peers.{voters_of, votes_of}
use ctx_db.Raft.Cluster.{In, others, names_of, AreActive}

module _ {ℓ} {A : Type ℓ} where
  pub in_common :
      (f g : A → Bool) (l : List A)
      → length l < count f l + count g l
      → (x : A) × (f x ≡ true) × (g x ≡ true)
  in_common f g [] h = absurd (omega (arith, h))
  in_common f g (x ∷ xs) h = elim (Bool-cases (f x && g x)) [
    | inl both ↦ (x, ground (arith, both), ground (arith, both))
    | inr not_both ↦ in_common f g xs (ground (arith, h, not_both))
  ]

  pub count_mono :
      (f g : A → Bool) (l : List A) → ((x : A) → f x ≡ true → g x ≡ true) → count f l ≤ count g l
  count_mono f g [] h = omega arith
  count_mono f g (x ∷ xs) h = ground (arith, h x, count_mono f g xs h)

-- No name stands twice.
abbrev pub AreMembers : List Text → Type 0
AreMembers [] = Unit {0}
AreMembers (x ∷ xs) = (x ≢ []) × (In x xs → ⊥) × AreMembers xs

length-others_none : (a : Text) (l : List Text) → (In a l → ⊥) → length (others a l) ≡ length l
unfolding others
length-others_none a [] h = refl
length-others_none a (x ∷ xs) h = elim (Bool-cases (same x a)) [
  | inl here ↦ absurd (h (inl (sym (same→eq x a here))))
  | inr other ↦ rw other (ap suc (length-others_none a xs (λ i. h (inr i))))
]

pub length-others :
    (a : Text) (l : List Text) → AreMembers l → In a l → length (others a l) + 1 ≡ length l
unfolding others
length-others a [] d i = elim i [ ]
length-others a (x ∷ xs) d i = elim (Bool-cases (same x a)) [
  | inl here ↦
      let absent : In a xs → ⊥ = λ j. d.1 (subst (λ y. In y xs) (sym (same→eq x a here)) j) in
      rw here (omega (arith, length-others_none a xs absent))
  | inr other ↦ elim i [
    | inl e ↦ absurd (ground (arith, other, e, same_refl a))
    | inr j ↦ rw other (omega (arith, length-others a xs d.2 j))
  ]
]

count-others :
    (f : Text → Bool) (a : Text) (l : List Text)
    → count f (others a l) ≤ count (λ v. same v a || f v) l
unfolding others
count-others f a [] = omega arith
count-others f a (x ∷ xs) = ground (arith, count-others f a xs)

pub count-others_self :
    (f : Text → Bool) (a : Text) (l : List Text)
    → In a l
    → count f (others a l) + 1 ≤ count (λ v. same v a || f v) l
unfolding others
count-others_self f a [] i = elim i [ ]
count-others_self f a (x ∷ xs) i = elim (Bool-cases (same x a)) [
  | inl here ↦ ground (arith, here, count-others f a xs)
  | inr other ↦ elim i [
    | inl e ↦ absurd (ground (arith, other, e, same_refl a))
    | inr j ↦ ground (arith, other, count-others_self f a xs j)
  ]
]

pub others-ne : (a v : Text) (l : List Text) → In v (others a l) → v ≢ a
unfolding others
others-ne a v [] i = elim i [ ]
others-ne a v (x ∷ xs) i = elim (Bool-cases (same x a)) [
  | inl here ↦ others-ne a v xs (rw here at i)
  | inr other ↦ elim (rw other at i) [
    | inl e ↦ λ h. ground (arith, other, e, h, same_refl a)
    | inr j ↦ others-ne a v xs j
  ]
]

-- Whether a peer is noted as voting for the node.
unfoldable pub has_noted : Text → List (Text × NodePeer) → Bool
unfolding same
has_noted v [] = false
has_noted v ((k, p) ∷ ps) = (same k v && p.voted_for_me) || has_noted v ps

votes_of-noted :
    (ps : List (Text × NodePeer))
    → votes_of (λ q. q.voted_for_me) ps ≤ count (λ v. has_noted v ps) (names_of ps) + 1
unfolding votes_of has_noted
votes_of-noted [] = omega arith
votes_of-noted ((k, p) ∷ ps) =
    let more =
      count_mono (λ v. has_noted v ps) (λ v. has_noted v ((k, p) ∷ ps)) (names_of ps)
        (λ v h. ground (arith, h)) in
    ground (arith, votes_of-noted ps, more, same_refl k)

voters_of-AreActive :
    (ps : List (Text × NodePeer)) → AreActive ps → voters_of ps ≡ length (names_of ps) + 1
unfolding voters_of
voters_of-AreActive [] h = refl
voters_of-AreActive ((k, p) ∷ ps) h = ground (arith, h, voters_of-AreActive ps h.1)

-- The members that the peers of a node, and the node itself, stand for when they are enough.
abbrev pub backs : Text → List (Text × NodePeer) → Text → Bool
backs a ps v = same v a || has_noted v ps

pub majority-backs :
    (a : Text) (ps : List (Text × NodePeer)) (l : List Text)
    → AreMembers l
    → In a l
    → AreActive ps
    → names_of ps ≡ others a l
    → voters_of ps / 2 < votes_of (λ q. q.voted_for_me) ps
    → length l < 2 * count (backs a ps) l
majority-backs a ps l d i active at wins =
    let voters = voters_of-AreActive ps active ∙ ap (λ x. length x + 1) at in
    let size = length-others a l d i in
    let votes = votes_of-noted ps in
    let own = count-others_self (λ v. has_noted v ps) a l i in
    let at' = ap (count (λ v. has_noted v ps)) at in
    omega (arith, voters, size, votes, own, at', wins)
