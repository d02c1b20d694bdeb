-- ===== src/Shardmaster/Remaining.antt =====
-- Who has the shards after a leave (`onLeaveApply`, src/shardmaster_server.cpp).
use ctx_db.Prelude.{
  ℕ, zero, suc, ◌/◌, max, ◌≡◌, ◌≢◌, refl, ap, ◌∙◌, ◌⊎◌, inl, inr, true, List, [], ◌∷◌, some, Text,
  arith, ◌==◌, Bool-cases, length, replicate, length-replicate, All,
}
use ctx_db.Collections.{keys, member, erase}
use ctx_db.Shardmaster.{n_shards, leave_fuel, erase_groups, leave_shards}
use ctx_db.Shardmaster.Leave.{At, StillAt, deficit-start, leave_loop-At}

member-keys_left :
    {V : Type 0} (g k : ℕ) (groups : List (ℕ × V))
    → k ≢ g
    → member g (keys groups) ≡ true
    → member g (keys (erase k groups)) ≡ true
unfolding member erase
member-keys_left g k [] other h = cc
member-keys_left g k ((j, v) ∷ m) other h = elim (Bool-cases (j == k)) [
  | inl erased ↦ rw erased (member-keys_left g k m other (ground arith))
  | inr stays ↦ elim (Bool-cases (j == g)) [
    | inl here ↦ rw (stays, here) refl
    | inr later ↦ rw (stays, later) (member-keys_left g k m other (ground (arith, later)))
  ]
]

erase_groups-StillAt :
    (leaving : List ℕ) (groups : List (ℕ × List Text)) (g : ℕ)
    → (g ≡ 0) ⊎ (member g (keys groups) ≡ true)
    → StillAt leaving (keys (erase_groups leaving groups)) g
unfolding erase_groups member
erase_groups-StillAt [] groups g h = inl h
erase_groups-StillAt (k ∷ ks) groups g (inl nowhere) = inl (inl nowhere)
erase_groups-StillAt (k ∷ ks) groups g (inr there) = elim (Bool-cases (k == g)) [
  | inl here ↦ inr (ground arith)
  | inr other ↦
      let kept = member-keys_left g k groups (ground arith) there in
      let rest = erase_groups-StillAt ks (erase k groups) g (inr kept) in
      ground (arith, rest, other)
]

length-keys : {V : Type 0} (m : List (ℕ × V)) → length (keys m) ≡ length m
length-keys [] = refl
length-keys (e ∷ m) = ap suc (length-keys m)

All-map : {P Q : ℕ → Type 0} (l : List ℕ) → ((g : ℕ) → P g → Q g) → All P l → All Q l
All-map [] f h = tt
All-map (x ∷ xs) f (p, ps) = (f x p, All-map xs f ps)

All-replicate : (P : ℕ → Type 0) (n g : ℕ) → P g → All P (replicate n g)
All-replicate P zero g p = tt
All-replicate P (suc n) g p = (p, All-replicate P n g p)

-- Every shard is without a group or belongs to one of these groups, and there are `n_shards`.
abbrev pub IsAssigned : List (ℕ × List Text) → List ℕ → Type 0
IsAssigned groups shards =
    (length shards ≡ n_shards) × All (λ g. (g ≡ 0) ⊎ (member g (keys groups) ≡ true)) shards

-- Of `n_shards` shards, each without a group or with one of the groups that there are, a leave of
-- any groups gets a result: the loop with its `goto` ends within the fuel, no access is out of
-- bounds, and every shard is then without a group or belongs to a group that remains.
pub leave_assigns_to_remaining :
    (leaving : List ℕ) (groups : List (ℕ × List Text)) (shards : List ℕ)
    → IsAssigned groups shards
    → (s : List ℕ) × (leave_shards leaving (erase_groups leaving groups) shards ≡ some s)
      × IsAssigned (erase_groups leaving groups) s
unfolding leave_shards
leave_assigns_to_remaining leaving groups shards (size, assigned) =
    let remaining = erase_groups leaving groups in
    let share = max 1 (n_shards / length remaining) in
    elim (Bool-cases (length remaining == 0)) [
      | inl none_left ↦ (
        replicate n_shards 0,
        rw none_left refl,
        (
          length-replicate {A = ℕ} n_shards 0,
          All-replicate (At (keys remaining)) n_shards 0 (inl refl),
        ),
      )
      | inr some_left ↦
          let still = All-map shards (erase_groups-StillAt leaving groups) assigned in
          let start = deficit-start share (keys remaining) in
          let (s, done, size', placed) =
            leave_loop-At (leave_fuel (keys remaining) share) leaving (keys remaining) share shards
              [] (ground (arith, length-keys remaining, some_left)) (omega (arith, start)) still in
          (s, rw some_left done, (size' ∙ size, placed))
    ]
