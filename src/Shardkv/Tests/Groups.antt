-- ===== src/Shardkv/Tests/Groups.antt =====
-- A run of a group at an example.
use ctx_db.Prelude.{
  ℕ, ◌≡◌, refl, false, List, [], ◌∷◌, Option, none, some, Text, All, replicate, codes, same,
}
use ctx_db.Collections.{lookup_text}
use ctx_db.Message.{Config, Command, put_append_apply, new_config_apply, migration_reply_apply}
use ctx_db.Shardkv.{
  ShardkvServer, key2shard, on_put_append_apply, on_new_config_apply,
  on_shard_migration_reply_apply, apply, run,
}
use ctx_db.Shardkv.Owned.{IsSound}
use ctx_db.Shardkv.Sound.{HasOwnKeys, run-IsSound}

abbrev key_a : Text
key_a = 97 ∷ []

abbrev value_a : Text
value_a = 120 ∷ []

abbrev config : ℕ → ℕ → Config
config num gid = record { num = num; shards = replicate 10 gid; groups = [] }

-- A group without data, in configuration 3.
abbrev group_of : ℕ → List ℕ → ShardkvServer
group_of gid own = record {
  gid = gid;
  config = config 3 1;
  own_shards = own;
  migrating_shards = [];
  waiting_shards = [];
  cleaning_shards = [];
  history_configs = [];
  store = [];
  cache = [];
  flag = false;
  get_value = [];
}

empty-IsSound : (gid : ℕ) (own : List ℕ) → IsSound (group_of gid own)
unfolding lookup_text
empty-IsSound gid own = (tt, λ k v found. cc)

-- A key is put, the next configuration comes with all shards for the group, and another shard's data
-- arrive.
abbrev commands : List Command
commands =
    put_append_apply 11 10 3 key_a value_a (codes "put")
    ∷ new_config_apply (config 4 1)
    ∷ migration_reply_apply 8 3 (record { pairs = (98 ∷ [], value_a) ∷ []; cached = [] })
    ∷ []

commands-HasOwnKeys : All HasOwnKeys commands
unfolding key2shard
commands-HasOwnKeys = (tt, (tt, ((refl, tt), tt)))

abbrev or_server : ShardkvServer → Option ShardkvServer → ShardkvServer
or_server s none = s
or_server s (some m) = m

abbrev reached : ShardkvServer
reached = or_server (group_of 2 []) (run commands (group_of 1 (7 ∷ [])))

commands-run : run commands (group_of 1 (7 ∷ [])) ≡ some reached
unfolding run apply on_put_append_apply on_new_config_apply on_shard_migration_reply_apply same
commands-run = refl

run-IsSound_example : IsSound reached
run-IsSound_example =
    run-IsSound commands (group_of 1 (7 ∷ [])) reached commands-HasOwnKeys commands-run
      (empty-IsSound 1 (7 ∷ []))
