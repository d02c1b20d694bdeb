-- ===== src/Shardkv/Background.antt =====
-- The background threads of `ShardkvServer` (src/shardkv_server.cpp): one round of `poll`, `pull`
-- and `clean`. The other servers are parameters: what `mck->Query` gives, and what a call leaves in
-- the response. The threads that `pull` and `clean` start are the list of their arguments.
use ctx_db.Prelude.{
  ℕ, ◌+◌, List, [], ◌∷◌, ◌++◌, Option, none, some, Text, codes, get_elem?, length, leb, ◌==◌,
  if◌then◌else◌, ◌>>=◌,
}
use ctx_db.Collections.{get_or, put, erase, remove}
use ctx_db.Nuke.{contains}
use ctx_db.Wire.{
  ShardMigrationRequest, ShardMigrationResponse, ShardCleanupRequest, FlagResponse,
  migration_payload,
}
use ctx_db.Message.{Config}
use ctx_db.Raft.Types.{Env, is_leader}
use ctx_db.Service.{success, do_log_request, do_log_config}
use ctx_db.Shardkv.{ShardkvServer}
use ctx_db.Shardkv.Handlers.{ShardNode}

-- The query is sent with the next number.
unfoldable pub poll : Env → (ℕ → Config) → ShardNode → Option ShardNode
unfolding do_log_config
poll env query n =
    let next = n.server.config.num + 1 in
    let logged = (do (res, n') ← do_log_config env (codes "newconfig") (query next) n; some n') in
    if is_leader n.state then (if (query next).num == next then logged else some n) else some n

-- The arguments of the threads of `pull`: a waiting shard, and the configuration it was lost in.
unfoldable pub pulls : List Config → List (ℕ × ℕ) → Option (List (ℕ × Config))
pulls history [] = some []
pulls history ((shard, num) ∷ waiting) = do
  old ← get_elem? history num
  rest ← pulls history waiting
  some ((shard, old) ∷ rest)

unfoldable pub pull : ShardNode → Option (List (ℕ × Config))
unfolding pulls
pull n =
    let all = pulls n.server.history_configs n.server.waiting_shards in
    if is_leader n.state then all else some []

-- The servers of the group that had a shard; the access fails for a shard out of range.
abbrev holders : ℕ → Config → Option (List Text)
holders shard c = do gid ← get_elem? c.shards shard; some (get_or [] gid c.groups)

-- The calls of one server after the other, up to the first success. A server without a client is a
-- null dereference.
module _ {R : Type 0} (known : List Text) (rpc : Text → R → R) (flag_of : R → ℕ) where
  unfoldable pub try_servers : List Text → R → Option (Option R)
  unfolding contains
  try_servers [] response = some none
  try_servers (server ∷ servers) response =
      let r = rpc server response in
      let rest = try_servers servers r in
      if contains known server then (if flag_of r == success then some (some r) else rest) else none

abbrev no_data : ShardMigrationResponse
no_data = record { flag = 0; shard = 0; confignum = 0; pairs = []; cached = [] }

-- `doPull`, up to its wait, which has no effect.
unfoldable pub do_pull :
    Env
    → List Text
    → (ShardMigrationRequest → Text → ShardMigrationResponse → ShardMigrationResponse)
    → ℕ
    → Config
    → ShardNode
    → Option ShardNode
unfolding try_servers do_log_request
do_pull env known rpc shard old n = do
  servers ← holders shard old
  got ←
      try_servers known (rpc (record { shard = shard; confignum = old.num })) (λ r. r.flag) servers
        no_data
  elim got [
    | none ↦ some n
    | some r ↦ (do
      (res, n') ← do_log_request env (codes "shardmigration") (migration_payload r) n
      some n')
  ]

-- The arguments of the threads of `clean`. It does not ask whether the node leads.
abbrev cleans_of : Config → List ℕ → List (ℕ × Config)
cleans_of c [] = []
cleans_of c (shard ∷ shards) = (shard, c) ∷ cleans_of c shards

unfoldable pub cleans : List Config → List (ℕ × List ℕ) → Option (List (ℕ × Config))
cleans history [] = some []
cleans history ((num, shards) ∷ cleaning) = do
  c ← get_elem? history num
  rest ← cleans history cleaning
  some (cleans_of c shards ++ rest)

-- The vector of threads has one place for each configuration; a thread more is out of bounds.
unfoldable pub clean : ShardkvServer → Option (List (ℕ × Config))
unfolding cleans
clean s = do
  all ← cleans s.history_configs s.cleaning_shards
  if leb (length all) (length s.cleaning_shards) then some all else none

-- `cleaningShards[configNum].erase(shard)`; an empty set goes away.
abbrev forget : ℕ → List ℕ → List (ℕ × List ℕ) → List (ℕ × List ℕ)
forget num [] m = erase num m
forget num (shard ∷ shards) m = put num (shard ∷ shards) m

-- `doClean`.
unfoldable pub do_clean :
    List Text
    → (ShardCleanupRequest → Text → FlagResponse → FlagResponse)
    → ℕ
    → Config
    → ShardkvServer
    → Option ShardkvServer
unfolding try_servers remove get_or put erase
do_clean known rpc shard c s = do
  servers ← holders shard c
  got ←
      try_servers known (rpc (record { shard = shard; confignum = c.num })) (λ r. r.flag) servers
        (record { flag = 0; leader_name = [] })
  elim got [
    | none ↦ some s
    | some r ↦ some (record s {
      cleaning_shards =
          forget c.num (remove shard (get_or [] c.num s.cleaning_shards)) s.cleaning_shards;
    })
  ]
