-- ===== src/Shardmaster/Leave.antt =====
-- The new assignment after a leave (`onLeaveApply`, src/shardmaster_server.cpp): the loop with its
-- `goto` ends, and no shard stays with a group that left.
use ctx_db.Prelude.{
  ℕ, zero, suc, ◌+◌, ◌-◌, ◌*◌, ◌%◌, ◌≤◌, ◌<◌, ◌≡◌, ◌≢◌, refl, ◌∙◌, ◌⊎◌, inl, inr, true, false, ◌||◌,
  List, [], ◌∷◌, none, some, arith, ltb, ◌==◌, Bool-cases, Option-cases, length, get_elem?,
  get_elem?-some, All,
}
use ctx_db.Collections.{get_or, member}
use ctx_db.Collections.Lookup.{get_or-put_self, get_or-put_other}
use ctx_db.Shardmaster.{
  count_shard, first_short, Pass, finished, again, fault, behind, leave_pass, leave_loop,
}

-- How many shards the groups lack of their share.
unfoldable pub deficit : ℕ → List (ℕ × ℕ) → List ℕ → ℕ
deficit share held [] = 0
deficit share held (g ∷ gs) = share - get_or 0 g held + deficit share held gs

get_or-count_shard :
    (g i : ℕ) (held : List (ℕ × ℕ))
    → ((i ≡ g) × (get_or 0 i (count_shard g held) ≡ get_or 0 i held + 1))
      ⊎ ((i ≢ g) × (get_or 0 i (count_shard g held) ≡ get_or 0 i held))
get_or-count_shard g i held = elim (Bool-cases (i == g)) [
  | inl here ↦
      let e : i ≡ g = ground arith in inl (e, rw e (get_or-put_self 0 (get_or 0 g held + 1) g held))
  | inr other ↦
      let e : i ≢ g = ground arith in inr (e, get_or-put_other 0 (get_or 0 g held + 1) g i held e)
]

deficit-count_shard :
    (share g : ℕ) (held : List (ℕ × ℕ)) (gs : List ℕ)
    → deficit share (count_shard g held) gs ≤ deficit share held gs
unfolding deficit
deficit-count_shard share g held [] = omega arith
deficit-count_shard share g held (h ∷ hs) = elim (get_or-count_shard g h held) [
  | inl (_, more) ↦ omega (arith, more, deficit-count_shard share g held hs)
  | inr (_, same) ↦ omega (arith, same, deficit-count_shard share g held hs)
]

first_short-lem :
    (share g : ℕ) (held : List (ℕ × ℕ)) (gs : List ℕ)
    → first_short share held gs ≡ some g
    → (member g gs ≡ true) × (deficit share (count_shard g held) gs < deficit share held gs)
unfolding first_short deficit member
first_short-lem share g held [] h = cc
first_short-lem share g held (k ∷ ks) h = elim (Bool-cases (ltb (get_or 0 k held) share)) [
  | inl short ↦
      let here : k ≡ g = ground (arith, short) in
      let rest = deficit-count_shard share g held ks in
      elim (get_or-count_shard g k held) [
        | inl (_, more) ↦ (ground arith, ground (arith, more, rest, short))
        | inr (other, _) ↦ absurd (other here)
      ]
  | inr full ↦
      let rest = first_short-lem share g held ks (ground (arith, full)) in
      elim (get_or-count_shard g k held) [
        | inl (_, more) ↦ (ground (arith, rest.0), omega (arith, more, rest.1))
        | inr (_, same) ↦ (ground (arith, rest.0), omega (arith, same, rest.1))
      ]
]

-- Where a shard may be: nowhere, at a remaining group, or still at a leaving one.
abbrev pub At : List ℕ → ℕ → Type 0
At remaining g = (g ≡ 0) ⊎ (member g remaining ≡ true)

abbrev pub StillAt : List ℕ → List ℕ → ℕ → Type 0
StillAt leaving remaining g = At remaining g ⊎ (member g leaving ≡ true)

-- What a pass gives: it never fails; when it ends, all the shards are placed; and when it starts
-- again, the groups lack less than before.
abbrev Progress : List ℕ → List ℕ → ℕ → List ℕ → ℕ → Pass → Type 0
Progress leaving remaining share shards lack (finished s) =
    (length s ≡ length shards) × All (At remaining) s
Progress leaving remaining share shards lack (again s held) =
    (length s ≡ length shards)
    × All (StillAt leaving remaining) s
    × (deficit share held remaining < lack)
Progress leaving remaining share shards lack fault = (0 < 0)

behind-Progress :
    (leaving remaining : List ℕ) (share : ℕ) (rest : List ℕ) (g gid lack lack' : ℕ) (p : Pass)
    → At remaining g
    → lack' ≤ lack
    → Progress leaving remaining share rest lack' p
    → Progress leaving remaining share (gid ∷ rest) lack (behind g p)
behind-Progress leaving remaining share rest g gid lack lack' (finished s) at le (size, all) =
    (omega (arith, size), (at, all))
behind-Progress leaving remaining share rest g gid lack lack' (again s held) at le
      (size, all, less) =
    (omega (arith, size), (inl at, all), omega (arith, le, less))
behind-Progress leaving remaining share rest g gid lack lack' fault at le never = never

get_elem?-member : (l : List ℕ) (i g : ℕ) → get_elem? l i ≡ some g → member g l ≡ true
unfolding member
get_elem?-member [] i g h = cc
get_elem?-member (k ∷ ks) zero g h = ground arith
get_elem?-member (k ∷ ks) (suc i) g h = ground (arith, get_elem?-member ks i g h)

kept-At :
    (leaving remaining : List ℕ) (g : ℕ)
    → StillAt leaving remaining g
    → member g leaving ≡ false
    → At remaining g
kept-At leaving remaining g (inl at) stays = at
kept-At leaving remaining g (inr left) stays = cc

leave_pass-Progress :
    (leaving remaining : List ℕ) (share : ℕ) (shards : List ℕ) (held : List (ℕ × ℕ)) (j : ℕ)
    → j < length remaining
    → All (StillAt leaving remaining) shards
    → Progress leaving remaining share shards
        (deficit share held remaining)
        (leave_pass leaving remaining share shards held j)
unfolding leave_pass
leave_pass-Progress leaving remaining share [] held j inside all = (refl, tt)
leave_pass-Progress leaving remaining share (gid ∷ rest) held j inside (at, all) =
    let lack = deficit share held remaining in
    let (id, found) = get_elem?-some remaining j inside in
    let next : (j + 1) % length remaining < length remaining = omega arith in
    let turn =
      leave_pass-Progress leaving remaining share rest (count_shard id held)
        ((j + 1) % length remaining) next all in
    let stay =
      leave_pass-Progress leaving remaining share rest (count_shard gid held) j inside all in
    let in_turn =
      behind-Progress leaving remaining share rest id gid lack _ _
        (inr (get_elem?-member remaining j id found)) (deficit-count_shard share id held remaining)
        turn in
    elim (Bool-cases (member gid leaving || get_or 0 gid held == share)) [
      | inr keep ↦ rw keep (
          behind-Progress leaving remaining share rest gid gid lack _ _
            (kept-At leaving remaining gid at (ground (arith, keep)))
            (deficit-count_shard share gid held remaining) stay)
      | inl move ↦ elim (Option-cases (first_short share held remaining)) [
        | inr (g, short) ↦
            let (there, less) = first_short-lem share g held remaining short in
            rw (move, short) (refl, (inl (inr there), all), less)
        | inl enough ↦ rw (move, enough, found) in_turn
      ]
    ]

-- With more fuel than the groups lack, the loop ends with all the shards placed.
pub leave_loop-At :
    (fuel : ℕ) (leaving remaining : List ℕ) (share : ℕ) (shards : List ℕ) (held : List (ℕ × ℕ))
    → 0 < length remaining
    → deficit share held remaining < fuel
    → All (StillAt leaving remaining) shards
    → (s : List ℕ) × (leave_loop fuel leaving remaining share shards held ≡ some s)
      × (length s ≡ length shards)
      × All (At remaining) s
unfolding leave_loop
leave_loop-At zero leaving remaining share shards held some_left enough all = absurd (omega arith)
leave_loop-At (suc f) leaving remaining share shards held some_left enough all =
    go (leave_pass leaving remaining share shards held 0)
      (λ s held' less still. leave_loop-At f leaving remaining share s held' some_left less still)
      (leave_pass-Progress leaving remaining share shards held 0 some_left all)
  where
    go :
        (p : Pass)
        → ((s : List ℕ) (held' : List (ℕ × ℕ))
            → deficit share held' remaining < f
            → All (StillAt leaving remaining) s
            → (t : List ℕ) × (leave_loop f leaving remaining share s held' ≡ some t)
              × (length t ≡ length s)
              × All (At remaining) t)
        → Progress leaving remaining share shards (deficit share held remaining) p
        → (s : List ℕ) × (elim p [
          | finished s ↦ some s
          | again s held' ↦ leave_loop f leaving remaining share s held'
          | fault ↦ none
        ]
            ≡ some s)
          × (length s ≡ length shards)
          × All (At remaining) s
    go (finished s) rest (size, placed) = (s, refl, size, placed)
    go (again s held') rest (size, still, less) =
        let (t, done, size', placed) = rest s held' (omega (arith, enough, less)) still in
        (t, done, size' ∙ size, placed)
    go fault rest never = absurd (omega (arith, never))

pub deficit-start : (share : ℕ) (gs : List ℕ) → deficit share [] gs ≡ length gs * share
unfolding deficit get_or
deficit-start share [] = omega arith
deficit-start share (g ∷ gs) = omega (arith, deficit-start share gs)
