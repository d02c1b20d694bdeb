-- ===== src/Message.antt =====
-- The apply messages of src/shardmaster_config.h, and how `RaftNode::do_apply` (src/node.cpp) makes
-- one from a log entry.
pub mod RoundTrip
use ctx_db.Prelude.{ℕ, ◌^◌, ◌%◌, ℤ, Bool, List, [], ◌∷◌, map, Text, codes, same, if◌then◌else◌}
use ctx_db.Collections.{put, put_text}
use ctx_db.Nuke.{split, join}
use ctx_db.Wire.{
  MapEntry, JoinRequest, LeaveRequest, MoveRequest, QueryRequest, GetRequest, PutAppendRequest,
  Group, WireConfig, ShardMigrationResponse, ShardCleanupRequest, Payload, join_payload,
  leave_payload, move_payload, query_payload, get_payload, put_append_payload, config_payload,
  migration_payload, cleanup_payload,
}

-- `Config`.
pub record Config : Type 0 where
  pub num : ℕ
  pub shards : List ℕ
  pub groups : List (ℕ × List Text)

-- `MigrationData`.
pub record MigrationData : Type 0 where
  pub pairs : List (Text × Text)
  pub cached : List (ℕ × Text)

-- One constructor for each kind of apply message, with the callback that it is for.
pub data Command : Type 0 where
  join_apply : ℕ → ℕ → List (ℕ × List Text) → Command
  leave_apply : ℕ → ℕ → List ℕ → Command
  move_apply : ℕ → ℕ → ℕ → ℕ → Command
  query_apply : ℤ → Command
  get_apply : ℕ → Text → Command
  put_append_apply : ℕ → ℕ → ℕ → Text → Text → Text → Command
  new_config_apply : Config → Command
  migration_reply_apply : ℕ → ℕ → MigrationData → Command
  cleanup_apply : ℕ → ℕ → Command
  plain_apply : Text → Command

-- The index, the term and the node's name stand in every apply message.
pub record ApplyMessage : Type 0 where
  pub index : ℕ
  pub term : ℕ
  pub name : Text
  pub from_snapshot : Bool
  pub command : Command

-- An `int` initialised with an `int64`, as its bit pattern.
abbrev pub to_int : ℕ → ℕ
to_int x = x % 2 ^ 32

abbrev pub dash : ℕ
dash = b'-'

-- A submessage that is not set reads as one with default fields.
abbrev joinrequest : Payload → JoinRequest
joinrequest (join_payload r) = r
joinrequest _ = record { clientid = 0; requestseq = 0; servers = [] }

abbrev leaverequest : Payload → LeaveRequest
leaverequest (leave_payload r) = r
leaverequest _ = record { clientid = 0; requestseq = 0; gids = [] }

abbrev moverequest : Payload → MoveRequest
moverequest (move_payload r) = r
moverequest _ = record { clientid = 0; requestseq = 0; shard = 0; gid = 0 }

abbrev queryrequest : Payload → QueryRequest
queryrequest (query_payload r) = r
queryrequest _ = record { num = ℤ.pos 0 }

abbrev getrequest : Payload → GetRequest
getrequest (get_payload r) = r
getrequest _ = record { confignum = 0; key = [] }

abbrev putappendrequest : Payload → PutAppendRequest
putappendrequest (put_append_payload r) = r
putappendrequest _ = record {
  requestid = 0;
  expirerequestid = 0;
  confignum = 0;
  key = [];
  value = [];
  op = [];
}

abbrev newconfig : Payload → WireConfig
newconfig (config_payload r) = r
newconfig _ = record { num = 0; shards = []; groups = [] }

abbrev shardmigrationresponse : Payload → ShardMigrationResponse
shardmigrationresponse (migration_payload r) = r
shardmigrationresponse _ = record { flag = 0; shard = 0; confignum = 0; pairs = []; cached = [] }

abbrev shardcleanuprequest : Payload → ShardCleanupRequest
shardcleanuprequest (cleanup_payload r) = r
shardcleanuprequest _ = record { shard = 0; confignum = 0 }

-- The servers of a group travel as one text, joined by "-".
unfoldable pub servers_of : List MapEntry → List (ℕ × List Text) → List (ℕ × List Text)
unfolding put split
servers_of [] acc = acc
servers_of (e ∷ es) acc = servers_of es (put (to_int e.key) (split dash e.value) acc)

unfoldable pub groups_of : List Group → List (ℕ × List Text) → List (ℕ × List Text)
unfolding put split
groups_of [] acc = acc
groups_of (g ∷ gs) acc = groups_of gs (put g.gid (split dash g.servers) acc)

unfoldable pub config_of : WireConfig → Config
unfolding groups_of
config_of w = record { num = w.num; shards = w.shards; groups = groups_of w.groups [] }

-- `do_log` of a configuration: the same text form, the other way.
unfoldable pub wire_groups : List (ℕ × List Text) → List Group
unfolding join
wire_groups [] = []
wire_groups ((gid, servers) ∷ m) = record { gid = gid; servers = join dash servers } ∷ wire_groups m

unfoldable pub wire_config : Config → WireConfig
unfolding wire_groups
wire_config c = record { num = c.num; shards = c.shards; groups = wire_groups c.groups }

unfoldable pub collect_pairs : List (Text × Text) → List (Text × Text) → List (Text × Text)
unfolding put_text
collect_pairs [] acc = acc
collect_pairs ((k, v) ∷ ps) acc = collect_pairs ps (put_text k v acc)

unfoldable pub collect_cached : List (ℕ × Text) → List (ℕ × Text) → List (ℕ × Text)
unfolding put
collect_cached [] acc = acc
collect_cached ((k, v) ∷ ps) acc = collect_cached ps (put (to_int k) v acc)

unfoldable pub migration_of : ShardMigrationResponse → MigrationData
unfolding collect_pairs collect_cached
migration_of r = record { pairs = collect_pairs r.pairs []; cached = collect_cached r.cached [] }

-- `atoi` of the C library is a parameter.
module _ (atoi : Text → ℕ) where
  -- The ladder of tests on `cmd()`.
  unfoldable pub command_of : Text → Payload → Text → Command
  unfolding servers_of config_of migration_of split same
  command_of cmd p content =
      if same cmd (codes "join")
      then join_apply (joinrequest p).clientid (joinrequest p).requestseq
          (servers_of (joinrequest p).servers [])
      else if same cmd (codes "leave")
      then leave_apply (leaverequest p).clientid (leaverequest p).requestseq
          (map atoi (split dash (leaverequest p).gids))
      else if same cmd (codes "move")
      then move_apply (moverequest p).clientid (moverequest p).requestseq
          (to_int (moverequest p).shard) (to_int (moverequest p).gid)
      else if same cmd (codes "query")
      then query_apply (queryrequest p).num
      else if same cmd (codes "get")
      then get_apply (to_int (getrequest p).confignum) (getrequest p).key
      else if same cmd (codes "putappend")
      then put_append_apply (to_int (putappendrequest p).requestid)
          (to_int (putappendrequest p).expirerequestid) (to_int (putappendrequest p).confignum)
          (putappendrequest p).key (putappendrequest p).value (putappendrequest p).op
      else if same cmd (codes "newconfig")
      then new_config_apply (config_of (newconfig p))
      else if same cmd (codes "shardmigrationreply")
      then migration_reply_apply (to_int (shardmigrationresponse p).shard)
          (to_int (shardmigrationresponse p).confignum) (migration_of (shardmigrationresponse p))
      else if same cmd (codes "shardcleanup")
      then cleanup_apply (to_int (shardcleanuprequest p).shard)
          (to_int (shardcleanuprequest p).confignum)
      else plain_apply content
