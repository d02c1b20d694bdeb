-- ===== src/Shardmaster/Handlers.antt =====
-- The RPC handlers of `ShardmasterServer` (src/shardmaster_server.cpp). The server is the state
-- behind its node.
use ctx_db.Prelude.{
  ℕ, ◌-◌, ◌^◌, ℤ, Bool, false, ◌&&◌, [], Option, some, codes, length, ltb, if◌then◌else◌, ◌>>=◌,
}
use ctx_db.Wire.{
  JoinRequest, LeaveRequest, MoveRequest, QueryRequest, join_payload, leave_payload, move_payload,
  query_payload, WireConfig, FlagResponse, QueryResponse,
}
use ctx_db.Message.{Config, to_int, wire_config}
use ctx_db.Raft.Types.{RaftNode, Env, is_leader}
use ctx_db.Service.{Handled, answer, Wakeup, timeout, notified, success, log_or_redirect, end_wait}
use ctx_db.Shardmaster.{ShardmasterServer, get_config}

abbrev MasterNode : Type 0
MasterNode = RaftNode ShardmasterServer

unfoldable pub on_join : Env → JoinRequest → MasterNode → Option (Handled FlagResponse × MasterNode)
unfolding log_or_redirect
on_join env r n = log_or_redirect (λ a. a) env (codes "join") (join_payload r) n

unfoldable pub on_leave :
    Env → LeaveRequest → MasterNode → Option (Handled FlagResponse × MasterNode)
unfolding log_or_redirect
on_leave env r n = log_or_redirect (λ a. a) env (codes "leave") (leave_payload r) n

unfoldable pub on_move : Env → MoveRequest → MasterNode → Option (Handled FlagResponse × MasterNode)
unfolding log_or_redirect
on_move env r n = log_or_redirect (λ a. a) env (codes "move") (move_payload r) n

-- The last lines of `onJoin`, `onLeave` and `onMove`.
unfoldable pub end_change : Wakeup → ShardmasterServer → FlagResponse
unfolding end_wait
end_change w s = end_wait w s.flag

-- `set_num(request.num())`, an `int32` set to an `int64`.
abbrev pub num_of : ℤ → ℕ
num_of (ℤ.pos k) = to_int k
num_of (ℤ.negsuc k) = to_int (2 ^ 64 - 1 - k)

abbrev no_config : WireConfig
no_config = record { num = 0; shards = []; groups = [] }

-- The configuration in a response: its number is that of the request.
unfoldable pub config_reply : QueryRequest → Config → QueryResponse
unfolding wire_config
config_reply r c = record {
  flag = success;
  leader_name = [];
  config = record (wire_config c) { num = num_of r.num };
}

abbrev pub flag_reply : FlagResponse → QueryResponse
flag_reply a = record { flag = a.flag; leader_name = a.leader_name; config = no_config }

-- `request.num() > 0 && request.num() < configs.size()`.
unfoldable pub is_known : ℤ → ShardmasterServer → Bool
is_known (ℤ.pos k) s = ltb 0 k && ltb k (length s.configs)
is_known (ℤ.negsuc k) s = false

-- A number in the history is answered at once, every other one is logged.
unfoldable pub on_query :
    Env → QueryRequest → MasterNode → Option (Handled QueryResponse × MasterNode)
unfolding log_or_redirect is_known get_config config_reply
on_query env r n =
    if is_leader n.state && is_known r.num n.server
    then (do c ← get_config r.num n.server; some (answer (config_reply r c), n))
    else log_or_redirect flag_reply env (codes "query") (query_payload r) n

-- The last lines of `onQuery`.
unfoldable pub end_query : Wakeup → QueryRequest → ShardmasterServer → QueryResponse
unfolding config_reply end_wait
end_query timeout r s = flag_reply (end_wait timeout s.flag)
end_query notified r s =
    if s.flag then config_reply r s.query_config else flag_reply (end_wait notified s.flag)
