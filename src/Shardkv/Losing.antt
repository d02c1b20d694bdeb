-- ===== src/Shardkv/Losing.antt =====
-- When the loop of `ApplyNewConf` over the data (src/shardkv_server.cpp) is defined.
use ctx_db.Prelude.{
  ℕ, suc, ◌+◌, ◌<◌, ◌≡◌, ◌≢◌, refl, ap, ◌∙◌, inl, inr, true, false, not, ◌&&◌, ◌||◌, List, [], ◌∷◌,
  none, some, Text, same, same→eq, arith, leb, ◌==◌, Bool-cases, get_elem?, subst, if_false,
  if◌then◌else◌,
}
use ctx_db.Collections.{member, lookup_text, insert, remove, put}
use ctx_db.Message.{Config}
use ctx_db.Shardkv.{
  ShardkvServer, key2shard, any_pair, any_cached, give_away, migrate_out, claim_shards, take_conf,
  apply_new_conf,
}
use ctx_db.Shardkv.Claim.{member-remove_or}

-- A shard that was owned and is not assigned to the group any more is lost.
claim_shards-loses :
    (gid num : ℕ) (gs : List ℕ) (i : ℕ) (own : List ℕ) (waiting : List (ℕ × ℕ)) (old : List ℕ)
    (k : ℕ)
    → member k old ≡ true
    → ((d : ℕ) → k ≡ i + d → get_elem? gs d ≢ some gid)
    → member k (claim_shards gid num gs i own waiting old).2 ≡ true
unfolding claim_shards
claim_shards-loses gid num [] i own waiting old k h other = h
claim_shards-loses gid num (g ∷ gs) i own waiting old k h other =
    let not_now : g == gid ≡ true → k ≢ i =
      λ mine e. other 0 (omega (arith, e)) (ap some (ground (arith, mine))) in
    claim_shards-loses gid num gs (i + 1)
      (if g == gid && (member i old || num == 0) then insert i own else own)
      (if g == gid && not (member i old || num == 0) then put i num waiting else waiting)
      (if g == gid && (member i old || num == 0) then remove i old else old) k
      (ground (arith, h, not_now, member-remove_or k i old))
      (λ d e. other (suc d) (omega (arith, e)))

any_pair-found :
    (m : List (Text × Text)) (k v : Text)
    → lookup_text k m ≡ some v
    → any_pair (key2shard k) m ≡ true
unfolding any_pair lookup_text
any_pair-found [] k v found = cc
any_pair-found ((j, w) ∷ m) k v found = elim (Bool-cases (same j k)) [
  | inl here ↦ ground (arith, ap key2shard (same→eq j k here))
  | inr later ↦ ground (arith, any_pair-found m k v (rw later at found))
]

migrate_out-none :
    (lost : List ℕ) (s : ShardkvServer) (k v : Text)
    → lookup_text k s.store ≡ some v
    → member (key2shard k) lost ≡ true
    → migrate_out lost s ≡ none
unfolding migrate_out member
migrate_out-none [] s k v found h = cc
migrate_out-none (shard ∷ rest) s k v found h =
    elim (Bool-cases (any_pair shard s.store || any_cached shard s.cache)) [
      | inl met ↦ rw met refl
      | inr free ↦
          let other : (shard == key2shard k) ≡ false =
            ground (arith, free, any_pair-found s.store k v found, ap (λ i. any_pair i s.store)) in
          rw (free, migrate_out-none rest s k v found (ground (arith, h, other))) refl
    ]

give_away-none :
    (num : ℕ) (lost : List ℕ) (s : ShardkvServer) (k v : Text)
    → lookup_text k s.store ≡ some v
    → member (key2shard k) lost ≡ true
    → give_away num lost s ≡ none
unfolding member
give_away-none num [] s k v found h = cc
give_away-none num (shard ∷ rest) s k v found h =
    rw (migrate_out-none (shard ∷ rest) s k v found h) refl

-- A group has a key in its store, whose shard it owns and which a newer configuration does not assign
-- to it any more: then `ApplyNewConf` runs into the undefined step of its loop, whatever else the
-- group holds.
pub losing_key_undefined :
    (c : Config) (s : ShardkvServer) (k v : Text)
    → s.config.num < c.num
    → lookup_text k s.store ≡ some v
    → member (key2shard k) s.own_shards ≡ true
    → get_elem? c.shards (key2shard k) ≢ some s.gid
    → apply_new_conf c s ≡ none
unfolding apply_new_conf take_conf
losing_key_undefined c s k v newer found owned other =
    let (taken, lost) = take_conf c s in
    let test : leb c.num s.config.num ≡ false = ground arith in
    let is_lost =
      claim_shards-loses s.gid s.config.num c.shards 0 [] s.waiting_shards s.own_shards
        (key2shard k) owned
        (λ d e h. other (subst (λ j. get_elem? c.shards j ≡ some s.gid) (omega (arith, e)) h)) in
    if_false (some s) test ∙ give_away-none s.config.num lost taken k v found is_lost
