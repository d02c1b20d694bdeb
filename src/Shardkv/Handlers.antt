-- ===== src/Shardkv/Handlers.antt =====
-- The RPC handlers of `ShardkvServer` (src/shardkv_server.cpp). The server is the state behind its
-- node.
use ctx_db.Prelude.{ℕ, List, [], ◌∷◌, Option, none, some, codes, leb, if◌then◌else◌, ◌>>=◌, is_some}
use ctx_db.Collections.{lookup}
use ctx_db.Wire.{
  GetRequest, PutAppendRequest, ShardMigrationRequest, ShardMigrationResponse, ShardCleanupRequest,
  get_payload, put_append_payload, cleanup_payload, FlagResponse, GetResponse,
}
use ctx_db.Message.{MigrationData, to_int}
use ctx_db.Raft.Types.{RaftNode, Env, is_leader}
use ctx_db.Service.{
  Handled, answer, wait, Wakeup, timeout, notified, success, fail, again, get_leader_name,
  do_log_request, log_or_redirect, end_wait,
}
use ctx_db.Shardkv.{ShardkvServer}

abbrev pub ShardNode : Type 0
ShardNode = RaftNode ShardkvServer

abbrev pub value_reply : FlagResponse → GetResponse
value_reply a = record { flag = a.flag; leader_name = a.leader_name; value = [] }

unfoldable pub on_get : Env → GetRequest → ShardNode → Option (Handled GetResponse × ShardNode)
unfolding log_or_redirect
on_get env r n = log_or_redirect value_reply env (codes "get") (get_payload r) n

-- The first value read; on an empty queue, `front` is undefined.
abbrev take_value : ShardkvServer → Option (GetResponse × ShardkvServer)
take_value s = elim s.get_value [
  | [] ↦ none
  | v ∷ vs ↦
      some (record { flag = success; leader_name = []; value = v }, record s { get_value = vs })
]

-- The last lines of `onGet`, which take the value from the queue.
unfoldable pub end_get : Wakeup → ShardkvServer → Option (GetResponse × ShardkvServer)
unfolding end_wait
end_get timeout s = some (value_reply (end_wait timeout s.flag), s)
end_get notified s =
    if s.flag then take_value s else some (value_reply (end_wait notified s.flag), s)

unfoldable pub on_put_append :
    Env → PutAppendRequest → ShardNode → Option (Handled FlagResponse × ShardNode)
unfolding log_or_redirect
on_put_append env r n = log_or_redirect (λ a. a) env (codes "putappend") (put_append_payload r) n

-- The last lines of `onPutAppend`, and of `onShardCleanup`.
unfoldable pub end_change : Wakeup → ShardkvServer → FlagResponse
unfolding end_wait
end_change w s = end_wait w s.flag

-- The shards that wait to be fetched by other groups, under the number of a configuration.
abbrev migrating_at : ℕ → ShardkvServer → List (ℕ × MigrationData)
migrating_at num s = elim (lookup num s.migrating_shards) [ none ↦ [] | some v ↦ v ]

-- What a node that does not lead has put into the response before it goes on.
abbrev redirect : ShardNode → FlagResponse
redirect n =
    if is_leader n.state
    then record { flag = success; leader_name = [] }
    else record { flag = again; leader_name = get_leader_name n }

-- `onShardCleanup`. There is no `return` behind the redirection: the request is looked at all the
-- same. A configuration that is not in the map fails; one whose shard is not there falls off the end,
-- with the response as it was.
unfoldable pub on_shard_cleanup :
    Env → ShardCleanupRequest → ShardNode → Option (Handled FlagResponse × ShardNode)
unfolding lookup get_leader_name do_log_request
on_shard_cleanup env r n =
    let logged = (do
      (res, n') ← do_log_request env (codes "shardcleanup") (cleanup_payload r) n
      some (wait res, n')) in
    elim (lookup r.confignum n.server.migrating_shards) [
      | none ↦ some (answer (record (redirect n) { flag = fail }), n)
      | some v ↦ if is_some (lookup r.shard v) then logged else some (answer (redirect n), n)
    ]

-- `onShardMigration`: a configuration that is not older than the server's own is refused; otherwise
-- the data of the shard are sent, or none where there are none.
unfoldable pub on_shard_migration : ShardMigrationRequest → ShardkvServer → ShardMigrationResponse
unfolding lookup
on_shard_migration r s =
    let found : MigrationData =
      elim (lookup (to_int r.shard) (migrating_at (to_int r.confignum) s)) [
        | none ↦ record { pairs = []; cached = [] }
        | some d ↦ d
      ] in
    if leb s.config.num r.confignum
    then record {
      flag = fail;
      shard = to_int r.shard;
      confignum = to_int r.confignum;
      pairs = [];
      cached = [];
    }
    else record {
      flag = success;
      shard = to_int r.shard;
      confignum = to_int r.confignum;
      pairs = found.pairs;
      cached = found.cached;
    }
