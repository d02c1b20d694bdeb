-- ===== src/Kv/Tests.antt =====
-- A database in memory in place of rocksdb, and the theorems at it (src/kv_server.cpp,
-- src/kv_client.h).
use ctx_db.Prelude.{
  ◌≡◌, refl, inl, true, false, List, [], ◌∷◌, ◌++◌, Option, none, some, Text, codes, arith, ltb,
  take, if◌then◌else◌,
}
use ctx_db.Collections.{lookup_text, put_text}
use ctx_db.Nuke.{contains}
use ctx_db.Message.{plain_apply}
use ctx_db.Raft.Types.{RaftNode, LogEntry}
use ctx_db.Raft.Log.{last_log_index}
use ctx_db.Raft.Apply.{Callbacks, message_of, nuft_ok}
use ctx_db.Raft.Replicate.{logged, as_int}
use ctx_db.Raft.Tests.{env, leader_of, name_a, name_b}
use ctx_db.Service.{Handled, wait, success, again}
use ctx_db.Kv.{
  HandleClientResponse, RocksDb, KvServer, on_handle_client_request, flag_only, equals_sign,
}
use ctx_db.Kv.Client.{KvClient, set_request, returned, ran_out, set}
use ctx_db.Kv.Applied.{set_reaches_apply}
use ctx_db.Kv.Calls.{last_leader, set_within_ten}

abbrev Memory : Type 0
Memory = List (Text × Text)

abbrev in_memory : RocksDb Memory
in_memory = record { put = λ k v d. (true, put_text k v d); get = lookup_text }

abbrev server : RaftNode (KvServer Memory)
server = leader_of (record { db = [] })

abbrev or_server :
    Option (Handled HandleClientResponse × RaftNode (KvServer Memory))
    → Handled HandleClientResponse × RaftNode (KvServer Memory)
or_server (some x) = x
or_server none = (wait (logged 0), server)

abbrev after_set : RaftNode (KvServer Memory)
after_set =
    (or_server
      (on_handle_client_request in_memory env (set_request (codes "k") (codes "v")) server)).1

abbrev no_callbacks : Callbacks (KvServer Memory)
no_callbacks = record { atoi = λ t. 0; invoke = λ s m. (s, nuft_ok) }

is_handled :
    on_handle_client_request in_memory env (set_request (codes "k") (codes "v")) server
    ≡ some (wait (logged 1), after_set)
unfolding on_handle_client_request
is_handled = refl

set_reaches_apply_example :
    (e : LogEntry) × (after_set.logs ≡ server.logs ++ e ∷ [])
    × (e.index ≡ last_log_index after_set)
    × (as_int e.index ≡ 1)
    × ((message_of no_callbacks false e.index e server).index ≡ e.index)
    × ((message_of no_callbacks false e.index e server).command
        ≡ plain_apply (codes "k" ++ equals_sign ∷ codes "v"))
set_reaches_apply_example =
    set_reaches_apply in_memory (codes "k") (codes "v") no_callbacks false 1 env server after_set
      server (omega arith) is_handled

abbrev client : KvClient
client = record {
  addrs = name_a ∷ name_b ∷ [];
  kv_clients = name_b ∷ name_a ∷ [];
  current_addr = name_a;
}

abbrev to_b : HandleClientResponse
to_b = record { flag = again; leader_name = name_b; value = [] }

set_within_ten_example : set (some to_b ∷ some (flag_only success) ∷ []) client ≡ (
    if ltb 1 10
    then returned true (record client { current_addr = last_leader name_a (to_b ∷ []) })
    else ran_out (record client { current_addr = last_leader name_a (take 10 (to_b ∷ [])) }))
unfolding contains
set_within_ten_example =
    set_within_ten (to_b ∷ []) (flag_only success) true [] client refl ((refl, refl), tt)
      (inl (refl, refl))
