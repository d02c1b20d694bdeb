-- ===== src/Shardkv/Tests.antt =====
-- The theorems on a group's server at an example.
pub mod Groups
use ctx_db.Prelude.{
  same, ℕ, ◌≡◌, ◌≢◌, refl, ◌⊎◌, true, false, [], ◌∷◌, ◌++◌, some, none, Text, codes, arith,
  get_elem?, replicate,
}
use ctx_db.Collections.{lookup, lookup_text, member}
use ctx_db.Message.{Config, MigrationData}
use ctx_db.Shardkv.{
  ShardkvServer, key2shard, serves, on_get_apply, on_put_append_apply, take_conf, apply_new_conf,
}
use ctx_db.Shardkv.Requests.{written, written_then_read, request_once}
use ctx_db.Shardkv.Losing.{losing_key_undefined}
use ctx_db.Shardkv.Claim.{Has, new_conf_claims}

-- The bytes 97 and 98 are in the shards 7 and 8.
abbrev key_a : Text
key_a = 97 ∷ []

abbrev server : ShardkvServer
server = record {
  gid = 1;
  config = record { num = 3; shards = replicate 10 1; groups = [] };
  own_shards = 7 ∷ 9 ∷ [];
  migrating_shards = [];
  waiting_shards = [];
  cleaning_shards = [];
  history_configs = [];
  store = (key_a, 120 ∷ []) ∷ [];
  cache = [];
  flag = false;
  get_value = [];
}

abbrev put_op : Text
put_op = codes "put"

abbrev after_put : ShardkvServer
after_put = on_put_append_apply 11 10 3 key_a (121 ∷ []) put_op server

abbrev after_get : ShardkvServer
after_get = on_get_apply 3 key_a after_put

written_then_read_example :
    (after_put.flag ≡ true)
    × (lookup_text key_a after_put.store
        ≡ some (written put_op (121 ∷ []) (lookup_text key_a server.store)))
    × ((other : Text)
        → other ≢ key_a
        → lookup_text other after_put.store ≡ lookup_text other server.store)
    × (after_get.flag ≡ true)
    × (after_get.get_value
        ≡ server.get_value ++ written put_op (121 ∷ []) (lookup_text key_a server.store) ∷ [])
unfolding serves lookup
written_then_read_example = written_then_read 11 10 3 key_a (121 ∷ []) put_op server refl refl

-- The put comes for an older configuration, is not served, and its retry is lost.
abbrev refused : ShardkvServer
refused = on_put_append_apply 11 10 2 key_a (121 ∷ []) put_op server

request_once_example :
    (on_put_append_apply 11 10 3 key_a (121 ∷ []) put_op refused).store ≡ refused.store
request_once_example =
    request_once 11 10 10 2 3 key_a key_a (121 ∷ []) (121 ∷ []) put_op put_op server refused refl

abbrev next_config : Config
next_config = record { num = 4; shards = replicate 10 1; groups = [] }

abbrev changed : ShardkvServer
changed = (take_conf next_config server).0

new_conf_claims_example :
    (changed.config ≡ next_config)
    × (changed.history_configs ≡ server.config ∷ [])
    × ((k : ℕ)
        → member k changed.own_shards ≡ true
        → (get_elem? next_config.shards k ≡ some 1)
          × ((member k server.own_shards ≡ true) ⊎ (server.config.num ≡ 0)))
    × ((k : ℕ)
        → get_elem? next_config.shards k ≡ some 1
        → Has changed.own_shards changed.waiting_shards k)
    × ((x : ShardkvServer)
        → apply_new_conf next_config server ≡ some x
        → (x.config ≡ changed.config)
          × (x.history_configs ≡ changed.history_configs)
          × (x.own_shards ≡ changed.own_shards)
          × (x.waiting_shards ≡ changed.waiting_shards))
new_conf_claims_example = new_conf_claims next_config server (omega arith)

-- All shards go to another group, while the store has a key.
abbrev losing_config : Config
losing_config = record { num = 4; shards = replicate 10 2; groups = [] }

losing_key_undefined_example : apply_new_conf losing_config server ≡ none
unfolding key2shard member lookup_text same
losing_key_undefined_example =
    losing_key_undefined losing_config server key_a (120 ∷ []) (omega arith) refl refl
      (λ e. ground (arith, e))
