-- ===== src/Shardkv/Requests.antt =====
-- What a group answers to the requests of clients (src/shardkv_server.cpp).
use ctx_db.Prelude.{
  ℕ, ◌≡◌, ◌≢◌, refl, ap, ◌∙◌, inl, inr, true, false, [], ◌∷◌, ◌++◌, Option, none, some, Text, codes,
  same, if◌then◌else◌, Bool-cases,
}
use ctx_db.Collections.{lookup, lookup_text}
use ctx_db.Collections.Lookup.{
  lookup-put_self, lookup_text-put_text_self, lookup_text-put_text_other,
}
use ctx_db.Shardkv.{ShardkvServer, serves, value_of, on_get_apply, on_put_append_apply}

-- The value that a put or an append leaves under its key.
abbrev pub written : Text → Text → Option Text → Text
written op value old = if same op (codes "put") then value else value_of old ++ value

-- A put or an append that the group serves and that is not in the cache sets the flag, writes the
-- new value, or the old one with the new one behind it, under its key and leaves every other key; a
-- get of the key in the same configuration then reads what was written.
pub written_then_read :
    (id expire config_num : ℕ) (key value op : Text) (s : ShardkvServer)
    → serves config_num key s ≡ true
    → lookup id s.cache ≡ none
    → let m = on_put_append_apply id expire config_num key value op s in
      let g = on_get_apply config_num key m in
      (m.flag ≡ true)
      × (lookup_text key m.store ≡ some (written op value (lookup_text key s.store)))
      × ((other : Text) → other ≢ key → lookup_text other m.store ≡ lookup_text other s.store)
      × (g.flag ≡ true)
      × (g.get_value ≡ s.get_value ++ written op value (lookup_text key s.store) ∷ [])
unfolding on_put_append_apply on_get_apply serves
written_then_read id expire config_num key value op s mine fresh =
    elim (Bool-cases (same op (codes "put"))) [
      | inl is_put ↦
          let now = lookup_text-put_text_self value key s.store in
          rw (mine, fresh, is_put, mine, now)
            (
              refl,
              refl,
              λ other h. lookup_text-put_text_other value key other s.store h,
              refl,
              refl,
            )
      | inr is_append ↦
          let all = value_of (lookup_text key s.store) ++ value in
          let now = lookup_text-put_text_self all key s.store in
          rw (mine, fresh, is_append, mine, now)
            (refl, refl, λ other h. lookup_text-put_text_other all key other s.store h, refl, refl)
    ]

lookup-on_put_append_apply :
    (id expire config_num : ℕ) (key value op : Text) (s : ShardkvServer)
    → lookup id (on_put_append_apply id expire config_num key value op s).cache ≡ some key
unfolding on_put_append_apply
lookup-on_put_append_apply id expire config_num key value op s = lookup-put_self key id _

-- Once a put or an append came by, whether the group served it or not, a later one with the same
-- request id, in any state whose cache is the one that the first left, does not change the store,
-- in whatever configuration and with whatever key and value.
pub request_once :
    (id expire expire' config_num config_num' : ℕ) (key key' value value' op op' : Text)
    (s m : ShardkvServer)
    → m.cache ≡ (on_put_append_apply id expire config_num key value op s).cache
    → (on_put_append_apply id expire' config_num' key' value' op' m).store ≡ m.store
unfolding on_put_append_apply
request_once id expire expire' config_num config_num' key key' value value' op op' s m same_cache =
    let seen =
      ap (lookup id) same_cache ∙ lookup-on_put_append_apply id expire config_num key value op s in
    elim (Bool-cases (serves config_num' key' m)) [
      | inl mine ↦ rw (mine, seen) refl
      | inr theirs ↦ rw theirs refl
    ]

-- A get and a put or an append that the group does not serve, for another configuration or another
-- group's shard, leave the store and the values read as they were and set the flag to false.
other_shard_untouched :
    (id expire config_num : ℕ) (key value op : Text) (s : ShardkvServer)
    → serves config_num key s ≡ false
    → let m = on_put_append_apply id expire config_num key value op s in
      (on_get_apply config_num key s ≡ record s { flag = false })
      × (m.store ≡ s.store)
      × (m.get_value ≡ s.get_value)
      × (m.flag ≡ false)
unfolding on_put_append_apply on_get_apply
other_shard_untouched id expire config_num key value op s theirs =
    (rw theirs refl, rw theirs refl, rw theirs refl, rw theirs refl)
