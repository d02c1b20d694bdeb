-- ===== src/Shardmaster/Tests/Requests.antt =====
-- The theorems on the shard master's requests at examples.
use ctx_db.Prelude.{
  ℕ, ◌≡◌, ℤ, true, false, [], ◌∷◌, List, Option, none, some, Text, codes, arith, length, replicate,
  ◌>>=◌, ◌-◌, refl,
}
use ctx_db.Collections.{member}
use ctx_db.Nuke.{contains}
use ctx_db.Nuke.RoundTrip.{IsName}
use ctx_db.Wire.{FlagResponse}
use ctx_db.Message.{Config, dash, to_int, join_apply}
use ctx_db.Raft.Types.{RaftNode}
use ctx_db.Raft.Apply.{Callbacks, nuft_ok}
use ctx_db.Raft.Tests.{env, leader_of}
use ctx_db.Service.{Handled, notified, success, fail, again, do_log_config}
use ctx_db.Service.Logged.{EndsWith}
use ctx_db.Shardmaster.{ShardmasterServer, init_server, init_config, on_query_apply}
use ctx_db.Shardmaster.Handlers.{on_join, end_query}
use ctx_db.Shardmaster.Query.{IsSendable, unknown_number_renumbers}
use ctx_db.Shardmaster.Client.{
  ShardmasterClient, new_client, returned, fault, call_loop, send_change, join_request,
  query_result, add_shardmaster_node,
}
use ctx_db.Shardmaster.Client.Calls.{connect, redirected_until_success, first_call_errors}
use ctx_db.Shardmaster.Client.Join.{join_reaches_callback}
use ctx_db.Shardkv.{ShardkvServer}
use ctx_db.Shardkv.Background.{poll}

abbrev name_1 : Text
name_1 = codes "one"

abbrev name_2 : Text
name_2 = codes "two"

abbrev client : ShardmasterClient
client = connect (name_1 ∷ name_2 ∷ []) (new_client 7)

abbrev flag_of : FlagResponse → ℕ
flag_of r = r.flag

abbrev named_leader : FlagResponse → Text
named_leader r = r.leader_name

abbrev sent_on : FlagResponse
sent_on = record { flag = again; leader_name = name_2 }

abbrev done : FlagResponse
done = record { flag = success; leader_name = [] }

redirected_until_success_example :
    call_loop flag_of named_leader (some sent_on ∷ some done ∷ none ∷ []) done client
    ≡ returned done (record client { current_addr = name_2 })
unfolding add_shardmaster_node contains
redirected_until_success_example =
    redirected_until_success flag_of named_leader (sent_on ∷ []) done done (none ∷ []) client refl
      ((refl, refl), tt) refl

first_call_errors_example :
    (send_change (none ∷ []) client ≡ returned (record { flag = 0; leader_name = [] }) client)
    × (send_change (some (record { flag = fail; leader_name = [] }) ∷ []) client ≡ fault)
    × (contains client.rpc_clients (codes "three") ≡ false
        → send_change
            (some (record { flag = again; leader_name = codes "three" }) ∷ none ∷ [])
            client
          ≡ fault)
unfolding add_shardmaster_node contains
first_call_errors_example = first_call_errors 7 (name_1 ∷ name_2 ∷ []) [] (codes "three") none refl

abbrev two_groups : List (ℕ × List Text)
two_groups = (1, name_1 ∷ []) ∷ (2, name_2 ∷ name_1 ∷ []) ∷ []

name_1-IsName : IsName dash name_1
name_1-IsName =
    (λ e. cc, (λ e. ground (arith, e), (λ e. ground (arith, e), (λ e. ground (arith, e), tt))))

name_2-IsName : IsName dash name_2
name_2-IsName =
    (λ e. cc, (λ e. ground (arith, e), (λ e. ground (arith, e), (λ e. ground (arith, e), tt))))

-- A server that keeps its state.
abbrev callbacks : Callbacks ShardmasterServer
callbacks = record { atoi = λ t. length t - 1; invoke = λ s m. (s, nuft_ok) }

abbrev master : RaftNode ShardmasterServer
master = leader_of init_server

abbrev or_master :
    Option (Handled FlagResponse × RaftNode ShardmasterServer) → RaftNode ShardmasterServer
or_master none = master
or_master (some (h, n)) = n

abbrev joined : RaftNode ShardmasterServer
joined = or_master (on_join env (join_request two_groups client) master)

join_reaches_callback_example :
    EndsWith callbacks 1
      (join_apply client.client_id (to_int client.request_seq) two_groups)
      master
      joined
unfolding on_join member
join_reaches_callback_example =
    join_reaches_callback callbacks two_groups client env master joined 1
      ((name_1-IsName, tt), ((name_2-IsName, (name_1-IsName, tt)), tt))
      (omega arith, (omega arith, tt)) (refl, (refl, tt)) tt refl

-- A history of two configurations.
abbrev newest : Config
newest = record { num = 1; shards = replicate 10 1; groups = two_groups }

abbrev two_configs : ShardmasterServer
two_configs = record init_server { configs = init_config ∷ newest ∷ [] }

newest-IsSendable : IsSendable newest
unfolding member
newest-IsSendable =
    (((name_1-IsName, tt), ((name_2-IsName, (name_1-IsName, tt)), tt)), (refl, (refl, tt)))

-- A group in the newest configuration polls for the next one.
abbrev group : ShardkvServer
group = record {
  gid = 1;
  config = newest;
  own_shards = [];
  migrating_shards = [];
  waiting_shards = [];
  cleaning_shards = [];
  history_configs = [];
  store = [];
  cache = [];
  flag = false;
  get_value = [];
}

abbrev queried : ShardmasterServer
queried = record two_configs { query_config = newest; flag = true }

unknown_number_renumbers_example :
    (query_result (end_query notified (record { num = ℤ.pos 2 }) queried)
      ≡ record newest { num = 2 })
    × (poll env
          (λ _. query_result (end_query notified (record { num = ℤ.pos 2 }) queried))
          (leader_of group)
        ≡ (do
          (res, n') ←
              do_log_config env (codes "newconfig") (record newest { num = 2 }) (leader_of group)
          some n'))
unfolding on_query_apply
unknown_number_renumbers_example =
    unknown_number_renumbers env 2 newest two_configs queried (leader_of group) refl (omega arith)
      (omega arith) refl newest-IsSendable refl refl
