-- ===== src/Service.antt =====
-- What the RPC handlers of the servers share (src/shardmaster_server.cpp, src/shardkv_server.cpp):
-- the flag of a response (src/shardmaster_config.h), the overloads of `RaftNode::do_log` that a
-- handler calls (src/node_rpc_a.cpp), and the wait for the entry to be applied.
-- A handler is split at its wait: the part in front of it is a step of the node, the part behind it
-- reads the server as it is then.
pub mod Logged
pub mod Tests
use ctx_db.Prelude.{ℕ, Bool, true, false, not, [], Option, none, some, Text, if◌then◌else◌, ◌>>=◌}
use ctx_db.Wire.{Payload, config_payload, FlagResponse}
use ctx_db.Message.{Config, wire_config}
use ctx_db.Raft.Types.{RaftNode, Env, is_leader, nuft_cmd_normal}
use ctx_db.Raft.Replicate.{Draft, LogResult, do_log}

-- `enum FLAG`, as the number that travels.
abbrev pub success : ℕ
success = 0

abbrev pub fail : ℕ
fail = 1

abbrev pub again : ℕ
again = 2

-- What the first part of a handler comes to: a response at once, or the wait on `map_[index]`, where
-- the index is what `do_log` returned. Its refusals are negative numbers there.
pub data Handled (R : Type 0) : Type 0 where
  answer : R → Handled R
  wait : LogResult → Handled R

-- How `wait_for` ends, after 60 seconds at the latest.
pub data Wakeup : Type 0 where
  timeout notified : Wakeup

module _ {S : Type 0} where
  unfoldable pub get_leader_name : RaftNode S → Text
  get_leader_name n = if is_leader n.state then n.name else n.leader_name

  -- The overloads of `do_log` that copy a request into an entry, which is chosen by the payload.
  unfoldable pub do_log_request :
      Env → Text → Payload → RaftNode S → Option (LogResult × RaftNode S)
  unfolding do_log
  do_log_request env cmd p n =
      do_log env (record { cmd = cmd; content = []; payload = p }) nuft_cmd_normal n

  unfoldable pub do_log_config : Env → Text → Config → RaftNode S → Option (LogResult × RaftNode S)
  unfolding do_log_request wire_config
  do_log_config env cmd c n = do_log_request env cmd (config_payload (wire_config c)) n

  -- A node that does not lead names the leader; on a leader the request is logged.
  unfoldable pub log_or_redirect :
      {R : Type 0}
      → (FlagResponse → R)
      → Env
      → Text
      → Payload
      → RaftNode S
      → Option (Handled R × RaftNode S)
  unfolding get_leader_name do_log_request
  log_or_redirect wrap env cmd p n =
      if not (is_leader n.state)
      then some (answer (wrap (record { flag = again; leader_name = get_leader_name n })), n)
      else (do (res, n') ← do_log_request env cmd p n; some (wait res, n'))

-- The response after the wait: the flag that the callback applied last has left.
unfoldable pub end_wait : Wakeup → Bool → FlagResponse
end_wait timeout ok = record { flag = fail; leader_name = [] }
end_wait notified ok = record { flag = if ok then success else fail; leader_name = [] }
