-- ===== src/Wire.antt =====
-- The requests that travel in log entries: src/grpc/shardmaster_messages.proto,
-- src/grpc/shardkv_messages.proto, src/grpc/shardkvinner_messages.proto.
-- Group ids, shard numbers and request numbers are not negative; a `QueryRequest` may ask for -1.
use ctx_db.Prelude.{ℕ, ℤ, List, Text}

pub record MapEntry : Type 0 where
  pub key : ℕ
  pub value : Text

pub record JoinRequest : Type 0 where
  pub clientid : ℕ
  pub requestseq : ℕ
  pub servers : List MapEntry

pub record LeaveRequest : Type 0 where
  pub clientid : ℕ
  pub requestseq : ℕ
  pub gids : Text

pub record MoveRequest : Type 0 where
  pub clientid : ℕ
  pub requestseq : ℕ
  pub shard : ℕ
  pub gid : ℕ

pub record QueryRequest : Type 0 where
  pub num : ℤ

pub record GetRequest : Type 0 where
  pub confignum : ℕ
  pub key : Text

pub record PutAppendRequest : Type 0 where
  pub requestid : ℕ
  pub expirerequestid : ℕ
  pub confignum : ℕ
  pub key : Text
  pub value : Text
  pub op : Text

pub record Group : Type 0 where
  pub gid : ℕ
  pub servers : Text

-- `shardmaster_messages::Config`.
pub record WireConfig : Type 0 where
  pub num : ℕ
  pub shards : List ℕ
  pub groups : List Group

-- `data` and `cache` are the repeated pairs of the message.
pub record ShardMigrationResponse : Type 0 where
  pub flag : ℕ
  pub shard : ℕ
  pub confignum : ℕ
  pub pairs : List (Text × Text)
  pub cached : List (ℕ × Text)

pub record ShardCleanupRequest : Type 0 where
  pub shard : ℕ
  pub confignum : ℕ

pub record ShardMigrationRequest : Type 0 where
  pub shard : ℕ
  pub confignum : ℕ

-- The two fields of `JoinResponse`, `LeaveResponse`, `MoveResponse`, `PutAppendResponse` and
-- `ShardCleanupResponse`. A field that is not set reads as 0 or the empty text.
pub record FlagResponse : Type 0 where
  pub flag : ℕ
  pub leader_name : Text

pub record QueryResponse : Type 0 where
  pub flag : ℕ
  pub leader_name : Text
  pub config : WireConfig

pub record GetResponse : Type 0 where
  pub flag : ℕ
  pub leader_name : Text
  pub value : Text

-- The optional submessage of a log entry; `do_log` sets one at most.
pub data Payload : Type 0 where
  no_payload : Payload
  join_payload : JoinRequest → Payload
  leave_payload : LeaveRequest → Payload
  move_payload : MoveRequest → Payload
  query_payload : QueryRequest → Payload
  get_payload : GetRequest → Payload
  put_append_payload : PutAppendRequest → Payload
  config_payload : WireConfig → Payload
  migration_payload : ShardMigrationResponse → Payload
  cleanup_payload : ShardCleanupRequest → Payload
