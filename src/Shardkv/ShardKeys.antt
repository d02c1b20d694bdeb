-- ===== src/Shardkv/ShardKeys.antt =====
-- The pairs that travel with a shard are of that shard (src/shardkv_server.cpp).
use ctx_db.Prelude.{ℕ, ◌≡◌, List, Text, All}
use ctx_db.Shardkv.{key2shard}

-- Pairs whose keys are all in one shard.
abbrev pub InShard : ℕ → List (Text × Text) → Type 0
InShard shard = All (λ (p : Text × Text). key2shard p.0 ≡ shard)
