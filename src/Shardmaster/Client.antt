-- ===== src/Shardmaster/Client.antt =====
-- `ShardmasterClient` (src/shardmaster_client.h, src/shardmaster_client.cpp): the requests that it
-- makes, and the loop that sends one until it is answered. The replies are given as a list. A call
-- that fails is `none`: it leaves the response as it was, and its return value is not looked at.
pub mod Calls
pub mod Join
use ctx_db.Prelude.{
  ℕ, ◌+◌, ◌%◌, ℤ, Bool, List, [], ◌∷◌, map, Option, none, some, Text, length, get_elem?, ◌==◌,
  if◌then◌else◌, ◌>>=◌,
}
use ctx_db.Nuke.{join, contains, is_empty}
use ctx_db.Wire.{
  MapEntry, JoinRequest, LeaveRequest, MoveRequest, QueryRequest, FlagResponse, QueryResponse,
}
use ctx_db.Message.{Config, dash, to_int, config_of}
use ctx_db.Service.{success, fail, again}

-- `rpc_clients` has the keys of `shardmasterRpcClients`.
pub record ShardmasterClient : Type 0 where
  pub addrs : List Text
  pub rpc_clients : List Text
  pub current_index : ℕ
  pub current_addr : Text
  pub request_seq : ℕ
  pub client_id : ℕ

-- The constructor, where the random number is given.
abbrev pub new_client : ℕ → ShardmasterClient
new_client id = record {
  addrs = [];
  rpc_clients = [];
  current_index = 0;
  current_addr = [];
  request_seq = 0;
  client_id = id;
}

unfoldable pub add_shardmaster_node : Text → ShardmasterClient → ShardmasterClient
add_shardmaster_node addr c = record c {
  rpc_clients = addr ∷ c.rpc_clients;
  current_addr = if is_empty c.current_addr then addr else c.current_addr;
}

abbrev pub get_next_request_seq : ShardmasterClient → ShardmasterClient
get_next_request_seq c = record c { request_seq = c.request_seq + 1 }

unfoldable pub map_entries : List (ℕ × List Text) → List MapEntry
unfolding join
map_entries [] = []
map_entries ((gid, servers) ∷ m) = record { key = gid; value = join dash servers } ∷ map_entries m

-- The requests, of the client after `GetNextRequestSeq`.
unfoldable pub join_request : List (ℕ × List Text) → ShardmasterClient → JoinRequest
unfolding map_entries
join_request servers c = record {
  clientid = c.client_id;
  requestseq = to_int c.request_seq;
  servers = map_entries servers;
}

-- `std::to_string` is a parameter.
unfoldable pub leave_request : (ℕ → Text) → List ℕ → ShardmasterClient → LeaveRequest
unfolding join
leave_request to_text gids c = record {
  clientid = c.client_id;
  requestseq = to_int c.request_seq;
  gids = join dash (map to_text gids);
}

unfoldable pub move_request : ℕ → ℕ → ShardmasterClient → MoveRequest
move_request gid shard c = record {
  clientid = c.client_id;
  requestseq = to_int c.request_seq;
  shard = shard;
  gid = gid;
}

-- Where a loop stands after the replies: it returned with a response, it was left by `break`, or it
-- is about to call. The last one is a null dereference, a division by zero or a read out of bounds.
pub data Outcome (R : Type 0) : Type 0 where
  returned : R → ShardmasterClient → Outcome R
  broke calling : ShardmasterClient → Outcome R
  fault : Outcome R

-- `(currentIndex + 1) % addrs.size()`, and the address there.
unfoldable pub next_addr : ShardmasterClient → Option ShardmasterClient
next_addr c = if length c.addrs == 0 then none else (do
  addr ← get_elem? c.addrs ((c.current_index + 1) % length c.addrs)
  some (record c { current_index = (c.current_index + 1) % length c.addrs; current_addr = addr }))

abbrev break_with : {R : Type 0} → Option ShardmasterClient → Outcome R
break_with none = fault
break_with (some c) = broke c

-- The response after a call.
abbrev pub received : {R : Type 0} → Option R → R → R
received none old = old
received (some r) old = r

module _ {R : Type 0} (flag_of : R → ℕ) (leader_of : R → Text) where
  -- The loop that the four requests share.
  unfoldable pub call_loop : List (Option R) → R → ShardmasterClient → Outcome R
  unfolding contains next_addr
  call_loop [] response c = calling c
  call_loop (reply ∷ replies) response c =
      let r = received reply response in
      let redirected = call_loop replies r (record c { current_addr = leader_of r }) in
      let repeated = call_loop replies r c in
      if contains c.rpc_clients c.current_addr
      then (if flag_of r == again
          then redirected
          else if flag_of r == fail
          then break_with (next_addr c)
          else if flag_of r == success
          then returned r c
          else repeated)
      else fault

-- `Join`, `Leave` and `Move` after their request is made, and `Query`, with a new response.
unfoldable pub send_change : List (Option FlagResponse) → ShardmasterClient → Outcome FlagResponse
unfolding call_loop
send_change replies c =
    call_loop (λ r. r.flag) (λ r. r.leader_name) replies (record { flag = 0; leader_name = [] }) c

unfoldable pub send_query : List (Option QueryResponse) → ShardmasterClient → Outcome QueryResponse
unfolding call_loop
send_query replies c =
    call_loop (λ r. r.flag) (λ r. r.leader_name) replies
      (record { flag = 0; leader_name = []; config = record { num = 0; shards = []; groups = [] } })
      c

-- What `Query` makes of its response.
unfoldable pub query_result : QueryResponse → Config
unfolding config_of
query_result r = config_of r.config
