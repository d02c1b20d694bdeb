-- ===== src/Shardkv/Migration.antt =====
-- What becomes of the shards and the data when the configuration changes (`ApplyNewConf`,
-- src/shardkv_server.cpp).
use ctx_db.Prelude.{
  ℕ, ◌≡◌, ◌≢◌, refl, ap, inl, inr, false, ◌||◌, List, [], ◌∷◌, some, Text, same, same→eq, arith,
  Bool-cases, bind_some,
}
use ctx_db.Collections.{member, lookup_text}
use ctx_db.Message.{MigrationData}
use ctx_db.Shardkv.{ShardkvServer, key2shard, any_pair, any_cached, give_away, migrate_out}

-- No key of a shard is found in a store without entries of it.
any_pair-lookup_text :
    (shard : ℕ) (m : List (Text × Text)) (k v : Text)
    → any_pair shard m ≡ false
    → lookup_text k m ≡ some v
    → key2shard k ≢ shard
unfolding any_pair lookup_text
any_pair-lookup_text shard [] k v empty found at = cc
any_pair-lookup_text shard ((j, w) ∷ m) k v empty found at = elim (Bool-cases (same j k)) [
  | inl here ↦ absurd (ground (arith, empty, at, ap key2shard (same→eq j k here)))
  | inr later ↦ any_pair-lookup_text shard m k v (ground (arith, empty)) (rw later at found) at
]

-- Where the loop ends, no key of a lost shard is in the store.
pub migrate_out-lost :
    (lost : List ℕ) (s : ShardkvServer) (moved : List (ℕ × MigrationData)) (k v : Text)
    → migrate_out lost s ≡ some moved
    → lookup_text k s.store ≡ some v
    → member (key2shard k) lost ≡ false
unfolding migrate_out member
migrate_out-lost [] s moved k v h found = refl
migrate_out-lost (shard ∷ rest) s moved k v h found =
    elim (Bool-cases (any_pair shard s.store || any_cached shard s.cache)) [
      | inl met ↦ absurd (ground (arith, met, h))
      | inr free ↦
          let (others, done, _) = bind_some (migrate_out rest s) _ (rw free at h) in
          let kept = migrate_out-lost rest s others k v done found in
          let elsewhere = any_pair-lookup_text shard s.store k v (ground (arith, free)) found in
          ground (arith, kept, elsewhere)
    ]

-- What giving away leaves alone, where it ends.
pub give_away-keeps :
    (num : ℕ) (lost : List ℕ) (s m : ShardkvServer)
    → give_away num lost s ≡ some m
    → (m.own_shards ≡ s.own_shards)
      × (m.store ≡ s.store)
      × (m.waiting_shards ≡ s.waiting_shards)
      × (m.config ≡ s.config)
      × (m.history_configs ≡ s.history_configs)
      × ((k v : Text) → lookup_text k s.store ≡ some v → member (key2shard k) lost ≡ false)
unfolding member
give_away-keeps num [] s m h = (
  ground (arith, h),
  ground (arith, h),
  ground (arith, h),
  ground (arith, h),
  ground (arith, h),
  λ k v found. refl,
)
give_away-keeps num (shard ∷ rest) s m h =
    let (moved, done, h1) = bind_some (migrate_out (shard ∷ rest) s) _ h in
    (
      ground (arith, h1),
      ground (arith, h1),
      ground (arith, h1),
      ground (arith, h1),
      ground (arith, h1),
      λ k v found. migrate_out-lost (shard ∷ rest) s moved k v done found,
    )
