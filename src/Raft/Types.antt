-- ===== src/Raft/Types.antt =====
-- The state of a `RaftNode` and its messages (src/node.h, src/shardmaster_config.h,
-- src/grpc/raft_messages.proto).
-- An `IndexID` is a signed number from -1 on. It is kept as its successor: the cursor -1,
-- `default_index_cursor`, is 0 and index i is i + 1. Differences of indexes are not affected.
-- A `std::map` of peers is an association list in the order of its iteration.
use ctx_db.Prelude.{ℕ, ◌^◌, Bool, true, false, List, [], Option, Text}
use ctx_db.Wire.{Payload}

-- 2 ^ 64, for `uint64_t` and `size_t`.
abbrev pub u64_mod : ℕ
u64_mod = 2 ^ 64

-- UINT64_MAX.
abbrev pub u64_max : ℕ
u64_max = 0xffff_ffff_ffff_ffff

abbrev pub default_index_cursor : ℕ
default_index_cursor = 0

abbrev pub default_term_cursor : ℕ
default_term_cursor = 0

abbrev pub default_heartbeat_interval : ℕ
default_heartbeat_interval = 30

abbrev pub default_election_fail_timeout_interval : ℕ
default_election_fail_timeout_interval = 550

abbrev pub seq_start : ℕ
seq_start = 1

abbrev pub vote_for_none : Text
vote_for_none = []

-- NUFT_CMD_TYPE, the `command` of an entry.
abbrev pub nuft_cmd_normal : ℕ
nuft_cmd_normal = 0

abbrev pub nuft_cmd_trans : ℕ
nuft_cmd_trans = 1

abbrev pub nuft_cmd_snapshot : ℕ
nuft_cmd_snapshot = 2

abbrev pub nuft_cmd_trans_new : ℕ
nuft_cmd_trans_new = 3

pub data NodeState : Type 0 where
  follower candidate leader not_running : NodeState

abbrev pub is_follower : NodeState → Bool
is_follower follower = true
is_follower _ = false

abbrev pub is_candidate : NodeState → Bool
is_candidate candidate = true
is_candidate _ = false

abbrev pub is_leader : NodeState → Bool
is_leader leader = true
is_leader _ = false

abbrev pub is_not_running : NodeState → Bool
is_not_running not_running = true
is_not_running _ = false

-- Configuration::State, and its order.
pub data ConfState : Type 0 where
  blank staging old_joint joint joint_new new : ConfState

abbrev pub conf_rank : ConfState → ℕ
conf_rank blank = 0
conf_rank staging = 1
conf_rank old_joint = 2
conf_rank joint = 3
conf_rank joint_new = 4
conf_rank new = 5

-- `Configuration`.
pub record Configuration : Type 0 where
  pub app : List Text
  pub rem : List Text
  pub old : List Text
  pub index : ℕ
  pub index2 : ℕ
  pub oldvote_thres : ℕ
  pub newvote_thres : ℕ
  pub state : ConfState

-- `raft_messages::LogEntry`; the submessages of the services are the `payload`.
pub record LogEntry : Type 0 where
  pub index : ℕ
  pub term : ℕ
  pub command : ℕ
  pub content : Text
  pub cmd : Text
  pub payload : Payload

-- `NodePeer`, without the client object.
pub record NodePeer : Type 0 where
  pub name : Text
  pub voted_for_me : Bool
  pub next_index : ℕ
  pub match_index : ℕ
  pub receive_enabled : Bool
  pub send_enabled : Bool
  pub voting_rights : Bool
  pub seq : ℕ

pub record AppendEntriesRequest : Type 0 where
  pub name : Text
  pub term : ℕ
  pub prev_log_index : ℕ
  pub prev_log_term : ℕ
  pub leader_commit : ℕ
  pub entries : List LogEntry
  pub time : ℕ
  pub seq : ℕ
  pub initial : Bool

pub record AppendEntriesResponse : Type 0 where
  pub name : Text
  pub term : ℕ
  pub success : Bool
  pub last_log_index : ℕ
  pub last_log_term : ℕ
  pub time : ℕ
  pub seq : ℕ

pub record RequestVoteRequest : Type 0 where
  pub name : Text
  pub term : ℕ
  pub last_log_index : ℕ
  pub last_log_term : ℕ
  pub time : ℕ
  pub seq : ℕ
  pub initial : Bool

pub record RequestVoteResponse : Type 0 where
  pub name : Text
  pub term : ℕ
  pub vote_granted : Bool
  pub time : ℕ
  pub seq : ℕ

pub record InstallSnapshotRequest : Type 0 where
  pub term : ℕ
  pub name : Text
  pub last_included_index : ℕ
  pub last_included_term : ℕ
  pub content : Text
  pub time : ℕ
  pub seq : ℕ
  pub initial : Bool

pub record InstallSnapshotResponse : Type 0 where
  pub term : ℕ
  pub name : Text
  pub last_included_index : ℕ
  pub last_included_term : ℕ
  pub success : Bool
  pub time : ℕ
  pub seq : ℕ

-- What is handed to a peer's `raft_message_client`.
pub data Message : Type 0 where
  append_entries : AppendEntriesRequest → Message
  request_vote : RequestVoteRequest → Message
  install_snapshot : InstallSnapshotRequest → Message

pub record ConfRecord : Type 0 where
  pub peers : Text
  pub index : ℕ
  pub index2 : ℕ
  pub state : ConfState

pub record PersistRecord : Type 0 where
  pub term : ℕ
  pub name : Text
  pub vote_for : Text
  pub entries : List LogEntry
  pub conf_record : ConfRecord
  pub last_seq : ℕ

-- `RaftNode`. `server` is the state behind the apply callbacks, `disk` the file that the persister
-- writes, `outbox` what was handed to the peers' clients, the newest last.
pub record RaftNode (S : Type 0) : Type 0 where
  pub current_term : ℕ
  pub vote_for : Text
  pub logs : List LogEntry
  pub leader_name : Text
  pub trans_conf : Option Configuration
  pub commit_index : ℕ
  pub last_applied : ℕ
  pub name : Text
  pub state : NodeState
  pub paused : Bool
  pub tobe_destructed : Bool
  pub last_tick : ℕ
  pub elect_timeout_due : ℕ
  pub election_fail_timeout_due : ℕ
  pub vote_got : ℕ
  pub new_vote : ℕ
  pub old_vote : ℕ
  pub peers : List (Text × NodePeer)
  pub tobe_removed_peers : List NodePeer
  pub start_timepoint : ℕ
  pub last_seq : ℕ
  pub server : S
  pub disk : Option PersistRecord
  pub outbox : List (Text × Message)

-- What a handler reads from outside: `get_current_ms()` and the next `get_ranged_random(…)`.
pub record Env : Type 0 where
  pub now : ℕ
  pub random : ℕ
