-- ===== src/Shardkv/Claim.antt =====
-- Which shards a group owns and waits for after a change of configuration (`ApplyNewConf`,
-- src/shardkv_server.cpp).
use ctx_db.Prelude.{
  ℕ, zero, suc, ◌+◌, ◌<◌, ◌≡◌, refl, sym, ◌∙◌, ◌⊎◌, inl, inr, true, false, not, ◌&&◌, ◌||◌, List,
  [], ◌∷◌, ◌++◌, some, arith, leb, ◌==◌, if◌then◌else◌, Bool-cases, is_some, get_elem?, subst,
  if_true, if_false,
}
use ctx_db.Collections.{lookup, put, member, insert, remove}
use ctx_db.Message.{Config}
use ctx_db.Shardkv.{ShardkvServer, claim_shards, take_conf, apply_new_conf}
use ctx_db.Shardkv.Migration.{give_away-keeps}

member-insert :
    (k i : ℕ) (l : List ℕ) → member k (insert i l) ≡ true → (k ≡ i) ⊎ (member k l ≡ true)
unfolding member insert
member-insert k i [] h = ground arith
member-insert k i (j ∷ js) h = ground (arith, member-insert k i js)

pub member-insert_keeps :
    (k i : ℕ) (l : List ℕ) → (k ≡ i) ⊎ (member k l ≡ true) → member k (insert i l) ≡ true
unfolding member insert
member-insert_keeps k i [] h = ground arith
member-insert_keeps k i (j ∷ js) h = ground (arith, member-insert_keeps k i js)

member-remove : (k i : ℕ) (l : List ℕ) → member k (remove i l) ≡ true → member k l ≡ true
unfolding member remove
member-remove k i [] h = h
member-remove k i (j ∷ js) h = ground (arith, member-remove k i js)

pub member-remove_or :
    (k i : ℕ) (l : List ℕ) → member k l ≡ true → (k ≡ i) ⊎ (member k (remove i l) ≡ true)
unfolding member remove
member-remove_or k i [] h = inr h
member-remove_or k i (j ∷ js) h = ground (arith, h, member-remove_or k i js)

is_some-put :
    (k i v : ℕ) (m : List (ℕ × ℕ))
    → (k ≡ i) ⊎ (is_some (lookup k m) ≡ true)
    → is_some (lookup k (put i v m)) ≡ true
unfolding lookup put
is_some-put k i v [] h = ground arith
is_some-put k i v ((j, w) ∷ m) h = ground (arith, is_some-put k i v m)

-- A shard is owned or waited for.
abbrev pub Has : List ℕ → List (ℕ × ℕ) → ℕ → Type 0
Has own waiting k = (member k own ≡ true) ⊎ (is_some (lookup k waiting) ≡ true)

claim_shards-keeps :
    (gid num : ℕ) (gs : List ℕ) (i : ℕ) (own : List ℕ) (waiting : List (ℕ × ℕ)) (old : List ℕ)
    (k : ℕ)
    → Has own waiting k
    → let (own', waiting', _) = claim_shards gid num gs i own waiting old in Has own' waiting' k
unfolding claim_shards
claim_shards-keeps gid num [] i own waiting old k h = h
claim_shards-keeps gid num (g ∷ gs) i own waiting old k h =
    let rest =
      claim_shards-keeps gid num gs (i + 1)
        (if g == gid && (member i old || num == 0) then insert i own else own)
        (if g == gid && not (member i old || num == 0) then put i num waiting else waiting)
        (if g == gid && (member i old || num == 0) then remove i old else old) k in
    rest (ground (arith, h, member-insert_keeps k i own, is_some-put k i num waiting))

claim_shards-covers :
    (gid num : ℕ) (gs : List ℕ) (i d : ℕ) (own : List ℕ) (waiting : List (ℕ × ℕ)) (old : List ℕ)
    → get_elem? gs d ≡ some gid
    → let (own', waiting', _) = claim_shards gid num gs i own waiting old in
      Has own' waiting' (i + d)
unfolding claim_shards
claim_shards-covers gid num [] i d own waiting old h = cc
claim_shards-covers gid num (g ∷ gs) i zero own waiting old h =
    claim_shards-keeps gid num gs (i + 1)
      (if g == gid && (member i old || num == 0) then insert i own else own)
      (if g == gid && not (member i old || num == 0) then put i num waiting else waiting)
      (if g == gid && (member i old || num == 0) then remove i old else old) (i + 0)
      (ground (arith, h, member-insert_keeps (i + 0) i own, is_some-put (i + 0) i num waiting))
claim_shards-covers gid num (g ∷ gs) i (suc d) own waiting old h =
    let rest =
      claim_shards-covers gid num gs (i + 1) d
        (if g == gid && (member i old || num == 0) then insert i own else own)
        (if g == gid && not (member i old || num == 0) then put i num waiting else waiting)
        (if g == gid && (member i old || num == 0) then remove i old else old) h in
    let at : i + 1 + d ≡ i + suc d = omega arith in rw at at rest

-- Where an owned shard comes from.
abbrev Claimed : ℕ → ℕ → List ℕ → ℕ → List ℕ → ℕ → Type 0
Claimed gid num gs i old k =
    (d : ℕ) × (k ≡ i + d) × (get_elem? gs d ≡ some gid) × ((member k old ≡ true) ⊎ (num ≡ 0))

claim_shards-own :
    (gid num : ℕ) (gs : List ℕ) (i : ℕ) (own : List ℕ) (waiting : List (ℕ × ℕ)) (old : List ℕ)
    (k : ℕ)
    → member k (claim_shards gid num gs i own waiting old).0 ≡ true
    → (member k own ≡ true) ⊎ Claimed gid num gs i old k
unfolding claim_shards
claim_shards-own gid num [] i own waiting old k h = inl h
claim_shards-own gid num (g ∷ gs) i own waiting old k h =
    let rest =
      claim_shards-own gid num gs (i + 1)
        (if g == gid && (member i old || num == 0) then insert i own else own)
        (if g == gid && not (member i old || num == 0) then put i num waiting else waiting)
        (if g == gid && (member i old || num == 0) then remove i old else old) k h in
    elim rest [
      | inl now ↦ elim (Bool-cases (g == gid && (member i old || num == 0))) [
        | inl claim ↦
            elim (member-insert k i own (subst (λ l. member k l ≡ true) (if_true own claim) now)) [
              | inl here ↦
                  inr (0, omega (arith, here), ground (arith, claim), ground (arith, claim, here))
              | inr before ↦ inl before
            ]
        | inr skip ↦ inl (subst (λ l. member k l ≡ true) (if_false (insert i own) skip) now)
      ]
      | inr (d, at, found, held) ↦
          inr (suc d, omega (arith, at), found, ground (arith, held, member-remove k i old))
    ]

own-assigned :
    (gid num : ℕ) (gs : List ℕ) (waiting : List (ℕ × ℕ)) (old : List ℕ) (k : ℕ)
    → member k (claim_shards gid num gs 0 [] waiting old).0 ≡ true
    → (get_elem? gs k ≡ some gid) × ((member k old ≡ true) ⊎ (num ≡ 0))
unfolding member
own-assigned gid num gs waiting old k h = elim (claim_shards-own gid num gs 0 [] waiting old k h) [
  | inl none_yet ↦ cc
  | inr (d, at, found, held) ↦
      (subst (λ j. get_elem? gs j ≡ some gid) (omega (arith, at)) found, held)
]

-- `ApplyNewConf` takes a newer configuration over and puts the one before into the history. A shard
-- that the group then owns is assigned to it and was owned before, or there was no configuration
-- before; and each shard that is assigned to it is then owned or waited for. This is so before its
-- loop over the data, and the loop, where it ends, leaves all of it as it is.
pub new_conf_claims :
    (c : Config) (s : ShardkvServer)
    → s.config.num < c.num
    → let m = (take_conf c s).0 in
      (m.config ≡ c)
      × (m.history_configs ≡ s.history_configs ++ s.config ∷ [])
      × ((k : ℕ)
          → member k m.own_shards ≡ true
          → (get_elem? c.shards k ≡ some s.gid)
            × ((member k s.own_shards ≡ true) ⊎ (s.config.num ≡ 0)))
      × ((k : ℕ) → get_elem? c.shards k ≡ some s.gid → Has m.own_shards m.waiting_shards k)
      × ((x : ShardkvServer)
          → apply_new_conf c s ≡ some x
          → (x.config ≡ m.config)
            × (x.history_configs ≡ m.history_configs)
            × (x.own_shards ≡ m.own_shards)
            × (x.waiting_shards ≡ m.waiting_shards))
unfolding apply_new_conf take_conf
new_conf_claims c s newer =
    let test : leb c.num s.config.num ≡ false = ground arith in
    let (taken, lost) = take_conf c s in
    (
      refl,
      refl,
      λ k h. own-assigned s.gid s.config.num c.shards s.waiting_shards s.own_shards k h,
      λ k h.
          subst (Has taken.own_shards taken.waiting_shards) (omega arith) (
            claim_shards-covers s.gid s.config.num c.shards 0 k [] s.waiting_shards s.own_shards h),
      λ x done.
          let (own, _, waiting, config, history, _) =
            give_away-keeps s.config.num lost taken x (sym (if_false (some s) test) ∙ done) in
          (config, history, own, waiting),
    )
