-- ===== src/Shardkv/Sound.antt =====
-- The callbacks of a group keep its store sound (src/shardkv_server.cpp).
use ctx_db.Prelude.{
  sym, ap, ◌∙◌, subst, ℕ, ◌+◌, ◌≡◌, inl, inr, true, List, [], ◌∷◌, ◌++◌, Text, codes, same, arith,
  ◌==◌, Bool-cases, Option-cases, is_some, All, bind_some, some,
}
use ctx_db.Collections.{lookup, insert, member, lookup_text, put_text}
use ctx_db.Collections.Lookup.{member-insert_self}
use ctx_db.Message.{
  MigrationData, Command, get_apply, put_append_apply, new_config_apply, migration_reply_apply,
  cleanup_apply, join_apply, leave_apply, move_apply, query_apply, plain_apply,
}
use ctx_db.Shardkv.{
  ShardkvServer, key2shard, on_get_apply, on_put_append_apply, on_new_config_apply,
  on_shard_migration_reply_apply, on_shard_cleanup_apply, serves, value_of, apply, run,
  apply_new_conf,
}
use ctx_db.Shardkv.Claim.{member-insert_keeps}
use ctx_db.Shardkv.ShardKeys.{InShard}
use ctx_db.Shardkv.Pairs.{DistinctKeys, put_text-DistinctKeys, store_pairs-DistinctKeys}
use ctx_db.Shardkv.Owned.{Owned, IsSound, put_text-Owned, store_pairs-Owned, apply_new_conf-IsSound}

pub on_shard_migration_reply_apply-IsSound :
    (shard num : ℕ) (d : MigrationData) (s : ShardkvServer)
    → InShard shard d.pairs
    → IsSound s
    → IsSound (on_shard_migration_reply_apply shard num d s)
unfolding on_shard_migration_reply_apply
on_shard_migration_reply_apply-IsSound shard num d s inside (distinct, owned) =
    elim (Bool-cases (num + 1 == s.config.num)) [
      | inr other ↦ rw other (distinct, owned)
      | inl now ↦ elim (Bool-cases (member shard s.own_shards)) [
        | inl mine ↦ rw (now, mine) (distinct, owned)
        | inr free ↦
            let wider : Owned (insert shard s.own_shards) s.store = λ k v found.
              member-insert_keeps (key2shard k) shard s.own_shards (inr (owned k v found)) in
            rw (now, free)
              (
                store_pairs-DistinctKeys d.pairs s.store distinct,
                store_pairs-Owned (insert shard s.own_shards) shard d.pairs s.store
                    (member-insert_self shard s.own_shards) inside wider,
              )
      ]
    ]

-- A value written for a request that the group serves.
put_served :
    (num : ℕ) (k v : Text) (s : ShardkvServer)
    → serves num k s ≡ true
    → IsSound s
    → DistinctKeys (put_text k v s.store) × Owned s.own_shards (put_text k v s.store)
unfolding serves
put_served num k v s mine (distinct, owned) = (
  put_text-DistinctKeys k v s.store distinct,
  put_text-Owned s.own_shards k v s.store (ground (arith, mine)) owned,
)

on_get_apply-IsSound :
    (num : ℕ) (k : Text) (s : ShardkvServer) → IsSound s → IsSound (on_get_apply num k s)
unfolding on_get_apply
on_get_apply-IsSound num k s sound = elim (Bool-cases (serves num k s)) [
  | inl mine ↦ rw mine (put_served num k (value_of (lookup_text k s.store)) s mine sound)
  | inr theirs ↦ rw theirs sound
]

on_put_append_apply-IsSound :
    (id expire num : ℕ) (k v op : Text) (s : ShardkvServer)
    → IsSound s
    → IsSound (on_put_append_apply id expire num k v op s)
unfolding on_put_append_apply
on_put_append_apply-IsSound id expire num k v op s sound = elim (Bool-cases (serves num k s)) [
  | inr theirs ↦ rw theirs sound
  | inl mine ↦ elim (Bool-cases (is_some (lookup id s.cache))) [
    | inl seen ↦ rw (mine, seen) sound
    | inr fresh ↦ elim (Bool-cases (same op (codes "put"))) [
      | inl is_put ↦ rw (mine, fresh, is_put) (put_served num k v s mine sound)
      | inr is_append ↦
          rw (mine, fresh, is_append)
            (put_served num k (value_of (lookup_text k s.store) ++ v) s mine sound)
    ]
  ]
]

on_shard_cleanup_apply-keeps :
    (shard num : ℕ) (s : ShardkvServer)
    → ((on_shard_cleanup_apply shard num s).store ≡ s.store)
      × ((on_shard_cleanup_apply shard num s).own_shards ≡ s.own_shards)
unfolding on_shard_cleanup_apply
on_shard_cleanup_apply-keeps shard num s = elim (Option-cases (lookup num s.migrating_shards)) [
  | inl missing ↦ ground (arith, missing)
  | inr (v, found) ↦ ground (arith, found)
]

on_shard_cleanup_apply-IsSound :
    (shard num : ℕ) (s : ShardkvServer) → IsSound s → IsSound (on_shard_cleanup_apply shard num s)
on_shard_cleanup_apply-IsSound shard num s (distinct, owned) =
    let (same_store, same_own) = on_shard_cleanup_apply-keeps shard num s in
    (
      subst DistinctKeys (sym same_store) distinct,
      λ k v found.
          ap (member (key2shard k)) same_own
          ∙ owned k v (ap (lookup_text k) (sym same_store) ∙ found),
    )

some-IsSound : {x m : ShardkvServer} → some x ≡ some m → IsSound x → IsSound m
some-IsSound {x} {m} done sound = let e : x ≡ m = ground (arith, done) in subst IsSound e sound

-- The data of a shard that arrive have keys of that shard only.
abbrev pub HasOwnKeys : Command → Type 0
HasOwnKeys (migration_reply_apply shard num d) = InShard shard d.pairs
HasOwnKeys _ = Unit {0}

apply-IsSound :
    (c : Command) (s m : ShardkvServer) → HasOwnKeys c → apply c s ≡ some m → IsSound s → IsSound m
unfolding apply on_new_config_apply
apply-IsSound (get_apply num k) s m h done sound =
    some-IsSound done (on_get_apply-IsSound num k s sound)
apply-IsSound (put_append_apply id expire num k v op) s m h done sound =
    some-IsSound done (on_put_append_apply-IsSound id expire num k v op s sound)
apply-IsSound (new_config_apply c) s m h done sound =
    let (x, taken, e) = bind_some (apply_new_conf c s) _ done in
    let sound_x = apply_new_conf-IsSound c s x taken sound in some-IsSound e sound_x
apply-IsSound (migration_reply_apply shard num d) s m h done sound =
    some-IsSound done (on_shard_migration_reply_apply-IsSound shard num d s h sound)
apply-IsSound (cleanup_apply shard num) s m h done sound =
    some-IsSound done (on_shard_cleanup_apply-IsSound shard num s sound)
apply-IsSound (join_apply _ _ _) s m h done sound = some-IsSound done sound
apply-IsSound (leave_apply _ _ _) s m h done sound = some-IsSound done sound
apply-IsSound (move_apply _ _ _ _) s m h done sound = some-IsSound done sound
apply-IsSound (query_apply _) s m h done sound = some-IsSound done sound
apply-IsSound (plain_apply _) s m h done sound = some-IsSound done sound

-- Through any commands, where the data of a shard that arrive have keys of that shard only, and as
-- long as no change of configuration is undefined for the entries that it meets, it stays true that
-- no key stands twice in the store of a group and that every key in it belongs to a shard that the
-- group owns.
pub run-IsSound :
    (cs : List Command) (s m : ShardkvServer)
    → All HasOwnKeys cs
    → run cs s ≡ some m
    → IsSound s
    → IsSound m
unfolding run
run-IsSound [] s m h done sound = some-IsSound done sound
run-IsSound (c ∷ cs) s m h done sound =
    let (x, applied, rest) = bind_some (apply c s) _ done in
    run-IsSound cs x m h.1 rest (apply-IsSound c s x h.0 applied sound)
