-- ===== src/Shardkv.antt =====
-- `ShardkvServer` (src/shardkv_server.h, src/shardkv_server.cpp): the apply callbacks, the change
-- of configuration, and what the server answers to another group. `key2shard` is that of
-- src/shardmaster_config.cpp. An `int` that may be negative is kept as its bit pattern.
pub mod Handlers
pub mod Background
pub mod Pairs
pub mod ShardKeys
pub mod Owned
pub mod Sound
pub mod Requests
pub mod Migration
pub mod Losing
pub mod Claim
pub mod Tests
use ctx_db.Prelude.{
  ℕ, ◌+◌, ◌-◌, ◌^◌, ◌%◌, Bool, true, false, not, ◌&&◌, ◌||◌, List, [], ◌∷◌, ◌++◌, Option, none,
  some, Text, codes, same, get_elem?, ltb, leb, ◌==◌, if◌then◌else◌, is_some, ◌>>=◌,
}
use ctx_db.Collections.{lookup, get_or, put, erase, lookup_text, put_text, member, insert, remove}
use ctx_db.Message.{
  Config, MigrationData, Command, get_apply, put_append_apply, new_config_apply,
  migration_reply_apply, cleanup_apply,
}

pub record ShardkvServer : Type 0 where
  pub gid : ℕ
  pub config : Config
  pub own_shards : List ℕ
  pub migrating_shards : List (ℕ × List (ℕ × MigrationData))
  pub waiting_shards : List (ℕ × ℕ)
  pub cleaning_shards : List (ℕ × List ℕ)
  pub history_configs : List Config
  pub store : List (Text × Text)
  pub cache : List (ℕ × Text)
  pub flag : Bool
  pub get_value : List Text

-- The first byte modulo `NShards`. A `char` is signed, and so is `%`: the bytes from 128 on are
-- negative.
unfoldable pub key2shard : Text → ℕ
key2shard [] = 0
key2shard (b ∷ bs) =
    if ltb b 128 then b % 10 else if (256 - b) % 10 == 0 then 0 else 2 ^ 32 - (256 - b) % 10

-- Whether the store, or the cache, where the value is the key of the request, has an entry whose key
-- is in a shard.
unfoldable pub any_pair : ℕ → List (Text × Text) → Bool
unfolding key2shard
any_pair shard [] = false
any_pair shard ((k, v) ∷ m) = key2shard k == shard || any_pair shard m

unfoldable pub any_cached : ℕ → List (ℕ × Text) → Bool
unfolding key2shard
any_cached shard [] = false
any_cached shard ((i, k) ∷ m) = key2shard k == shard || any_cached shard m

-- The loop of `ApplyNewConf` over the new assignment. Of the shards given to this group, those held
-- before, or all if there was no configuration yet, are owned at once; the others are waited for.
unfoldable pub claim_shards :
    ℕ → ℕ → List ℕ → ℕ → List ℕ → List (ℕ × ℕ) → List ℕ → List ℕ × List (ℕ × ℕ) × List ℕ
unfolding member insert remove put
claim_shards gid old_num [] i own waiting old = (own, waiting, old)
claim_shards gid old_num (g ∷ gs) i own waiting old =
    let mine = g == gid in
    let held = member i old || old_num == 0 in
    claim_shards gid old_num gs (i + 1) (if mine && held then insert i own else own)
      (if mine && not held then put i old_num waiting else waiting)
      (if mine && held then remove i old else old)

abbrev pub no_moved : MigrationData
no_moved = record { pairs = []; cached = [] }

-- The loop over the shards that the group has lost. It erases each entry of the shard that it meets
-- and then moves on the iterator that stood on it, which is undefined: `none`, here and below. So the
-- loop only ends where no entry is met, and with no data for any shard.
unfoldable pub migrate_out : List ℕ → ShardkvServer → Option (List (ℕ × MigrationData))
unfolding any_pair any_cached
migrate_out [] s = some []
migrate_out (shard ∷ rest) s =
    let others = migrate_out rest s in
    if any_pair shard s.store || any_cached shard s.cache
    then none
    else (do moved ← others; some ((shard, no_moved) ∷ moved))

abbrev pub give_away : ℕ → List ℕ → ShardkvServer → Option ShardkvServer
give_away old_num [] s = some s
give_away old_num (shard ∷ rest) s = do
  moved ← migrate_out (shard ∷ rest) s
  some (record s { migrating_shards = put old_num moved s.migrating_shards })

-- `ApplyNewConf` up to that loop: the server, and the shards that are lost.
unfoldable pub take_conf : Config → ShardkvServer → ShardkvServer × List ℕ
unfolding claim_shards
take_conf c s =
    let (own, waiting, lost) =
      claim_shards s.gid s.config.num c.shards 0 [] s.waiting_shards s.own_shards in
    (
      record s {
        config = c;
        own_shards = own;
        waiting_shards = waiting;
        history_configs = s.history_configs ++ s.config ∷ [];
      },
      lost,
    )

-- `ApplyNewConf`.
unfoldable pub apply_new_conf : Config → ShardkvServer → Option ShardkvServer
unfolding take_conf migrate_out put
apply_new_conf c s =
    let (taken, lost) = take_conf c s in
    if leb c.num s.config.num then some s else give_away s.config.num lost taken

-- The two tests in front of a request for a key.
unfoldable pub serves : ℕ → Text → ShardkvServer → Bool
unfolding member key2shard
serves config_num key s = config_num == s.config.num && member (key2shard key) s.own_shards

-- `data[key]`, which stores the empty text under a missing key.
abbrev pub value_of : Option Text → Text
value_of none = []
value_of (some v) = v

unfoldable pub on_get_apply : ℕ → Text → ShardkvServer → ShardkvServer
unfolding serves lookup_text put_text
on_get_apply config_num key s =
    let v = value_of (lookup_text key s.store) in
    if serves config_num key s
    then record s { store = put_text key v s.store; get_value = s.get_value ++ v ∷ []; flag = true }
    else record s { flag = false }

-- The last two statements of `onPutAppendApply`, which every branch reaches.
abbrev pub remember : ℕ → ℕ → Text → ShardkvServer → ShardkvServer
remember request_id expire_request_id key s = record s {
  cache = put request_id key (erase expire_request_id s.cache);
}

-- A request that is in the cache changes neither the store nor the flag.
unfoldable pub on_put_append_apply : ℕ → ℕ → ℕ → Text → Text → Text → ShardkvServer → ShardkvServer
unfolding serves lookup lookup_text put_text put erase
on_put_append_apply request_id expire_request_id config_num key value op s =
    remember request_id expire_request_id key (
      if not (serves config_num key s)
      then record s { flag = false }
      else if is_some (lookup request_id s.cache)
      then s
      else if same op (codes "put")
      then record s { flag = true; store = put_text key value s.store }
      else record s {
        flag = true;
        store = put_text key (value_of (lookup_text key s.store) ++ value) s.store;
      })

unfoldable pub store_pairs : List (Text × Text) → List (Text × Text) → List (Text × Text)
unfolding put_text
store_pairs [] m = m
store_pairs ((k, v) ∷ ps) m = store_pairs ps (put_text k v m)

unfoldable pub store_cached : List (ℕ × Text) → List (ℕ × Text) → List (ℕ × Text)
unfolding put
store_cached [] m = m
store_cached ((k, v) ∷ ps) m = store_cached ps (put k v m)

-- The shard's data arrive: it is owned from now on, and the other group is to clean up.
unfoldable pub on_shard_migration_reply_apply :
    ℕ → ℕ → MigrationData → ShardkvServer → ShardkvServer
unfolding erase member insert put get_or store_pairs store_cached
on_shard_migration_reply_apply shard config_num moved s =
    if config_num + 1 == s.config.num
    then (if member shard s.own_shards
        then record s { waiting_shards = erase shard s.waiting_shards; flag = true }
        else record s {
          waiting_shards = erase shard s.waiting_shards;
          cleaning_shards =
              put config_num (insert shard (get_or [] config_num s.cleaning_shards))
                s.cleaning_shards;
          own_shards = insert shard s.own_shards;
          store = store_pairs moved.pairs s.store;
          cache = store_cached moved.cached s.cache;
          flag = true;
        })
    else record s { flag = true }

abbrev drop_if_empty :
    ℕ
    → List (ℕ × MigrationData)
    → List (ℕ × List (ℕ × MigrationData))
    → List (ℕ × List (ℕ × MigrationData))
drop_if_empty n [] m = erase n m
drop_if_empty n (e ∷ es) m = put n (e ∷ es) m

unfoldable pub on_shard_cleanup_apply : ℕ → ℕ → ShardkvServer → ShardkvServer
unfolding lookup erase put
on_shard_cleanup_apply shard config_num s = elim (lookup config_num s.migrating_shards) [
  | none ↦ record s { flag = true }
  | some v ↦ record s {
    migrating_shards = drop_if_empty config_num (erase shard v) s.migrating_shards;
    flag = true;
  }
]

unfoldable pub on_new_config_apply : Config → ShardkvServer → Option ShardkvServer
unfolding apply_new_conf
on_new_config_apply c s = do s' ← apply_new_conf c s; some (record s' { flag = true })

-- The five callbacks that the constructor sets; no other command reaches this server. That for the
-- data of a shard is not reached in the program, since `doPull` logs another command than the one
-- that `do_apply` asks for.
unfoldable pub apply : Command → ShardkvServer → Option ShardkvServer
unfolding on_get_apply on_put_append_apply on_new_config_apply on_shard_migration_reply_apply
    on_shard_cleanup_apply
apply (get_apply config_num key) s = some (on_get_apply config_num key s)
apply (put_append_apply id expire config_num key value op) s =
    some (on_put_append_apply id expire config_num key value op s)
apply (new_config_apply c) s = on_new_config_apply c s
apply (migration_reply_apply shard config_num moved) s =
    some (on_shard_migration_reply_apply shard config_num moved s)
apply (cleanup_apply shard config_num) s = some (on_shard_cleanup_apply shard config_num s)
apply _ s = some s

unfoldable pub run : List Command → ShardkvServer → Option ShardkvServer
unfolding apply
run [] s = some s
run (c ∷ cs) s = do s' ← apply c s; run cs s'
