-- ===== src/Shardkv/Owned.antt =====
-- The store of a group holds keys of its own shards only (src/shardkv_server.cpp).
use ctx_db.Prelude.{
  ℕ, ◌+◌, ◌≡◌, sym, ap, ◌∙◌, ◌⊎◌, inl, inr, true, not, ◌&&◌, ◌||◌, List, [], ◌∷◌, some, Text, same,
  same→eq, arith, leb, ◌==◌, Bool-cases, subst, if_false, if◌then◌else◌,
}
use ctx_db.Collections.{put, insert, remove, member, lookup_text, put_text}
use ctx_db.Message.{Config}
use ctx_db.Shardkv.{ShardkvServer, key2shard, claim_shards, apply_new_conf, take_conf, store_pairs}
use ctx_db.Shardkv.Claim.{member-insert_keeps, member-remove_or}
use ctx_db.Shardkv.Migration.{give_away-keeps}
use ctx_db.Shardkv.ShardKeys.{InShard}
use ctx_db.Shardkv.Pairs.{DistinctKeys, lookup_text-put_text}

-- Every key that the store has is in an owned shard.
abbrev pub Owned : List ℕ → List (Text × Text) → Type 0
Owned own store = (k v : Text) → lookup_text k store ≡ some v → member (key2shard k) own ≡ true

abbrev pub IsSound : ShardkvServer → Type 0
IsSound s = DistinctKeys s.store × Owned s.own_shards s.store

pub put_text-Owned :
    (own : List ℕ) (k v : Text) (m : List (Text × Text))
    → member (key2shard k) own ≡ true
    → Owned own m
    → Owned own (put_text k v m)
put_text-Owned own k v m mine h i w found = elim (Bool-cases (same k i)) [
  | inl here ↦ subst (λ j. member (key2shard j) own ≡ true) (same→eq k i here) mine
  | inr later ↦ h i w (sym (if_false (some v) later) ∙ sym (lookup_text-put_text k i v m) ∙ found)
]

pub store_pairs-Owned :
    (own : List ℕ) (shard : ℕ) (ps m : List (Text × Text))
    → member shard own ≡ true
    → InShard shard ps
    → Owned own m
    → Owned own (store_pairs ps m)
unfolding store_pairs
store_pairs-Owned own shard [] m mine inside h = h
store_pairs-Owned own shard ((k, v) ∷ ps) m mine inside h =
    let at = subst (λ i. member i own ≡ true) (sym inside.0) mine in
    store_pairs-Owned own shard ps (put_text k v m) mine inside.1 (put_text-Owned own k v m at h)

-- A shard that was owned is owned afterwards, or is lost.
claim_shards-splits :
    (gid num : ℕ) (gs : List ℕ) (i : ℕ) (own : List ℕ) (waiting : List (ℕ × ℕ)) (old : List ℕ)
    (k : ℕ)
    → (member k own ≡ true) ⊎ (member k old ≡ true)
    → let (own', _, lost) = claim_shards gid num gs i own waiting old in
      (member k own' ≡ true) ⊎ (member k lost ≡ true)
unfolding claim_shards
claim_shards-splits gid num [] i own waiting old k h = h
claim_shards-splits gid num (g ∷ gs) i own waiting old k h =
    claim_shards-splits gid num gs (i + 1)
      (if g == gid && (member i old || num == 0) then insert i own else own)
      (if g == gid && not (member i old || num == 0) then put i num waiting else waiting)
      (if g == gid && (member i old || num == 0) then remove i old else old) k
      (ground (arith, h, member-insert_keeps k i own, member-remove_or k i old))

pub apply_new_conf-IsSound :
    (c : Config) (s m : ShardkvServer) → apply_new_conf c s ≡ some m → IsSound s → IsSound m
unfolding apply_new_conf take_conf
apply_new_conf-IsSound c s m h (distinct, owned) =
    let taken = (take_conf c s).0 in
    elim (Bool-cases (leb c.num s.config.num)) [
      | inl old ↦ let e : s ≡ m = ground (arith, old, h) in subst IsSound e (distinct, owned)
      | inr newer ↦
          let (same_own, same_store, _, _, _, kept) =
            give_away-keeps s.config.num (take_conf c s).1 taken m (rw newer at h) in
          (
            subst DistinctKeys (sym same_store) distinct,
            λ k v found.
                let before = ap (lookup_text k) (sym same_store) ∙ found in
                let split =
                  claim_shards-splits s.gid s.config.num c.shards 0 [] s.waiting_shards s.own_shards
                    (key2shard k) (inr (owned k v before)) in
                let mine : member (key2shard k) taken.own_shards ≡ true =
                  ground (arith, split, kept k v before) in
                ap (member (key2shard k)) same_own ∙ mine,
          )
    ]
