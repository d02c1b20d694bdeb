-- ===== src/Lib.antt =====
-- A model of ctx_db, a sharded key-value store: clusters of Raft nodes, a shard master that assigns
-- shards to groups, and the groups' servers that hold the data.
--
-- The program's parts and their modules:
--   * Nuke: the text helpers of src/Nuke/string_utils.h and src/Nuke/lang_extend.h.
--   * Tasks: the thread pool of src/Nuke/thread_pool.h, its threads interleaved step by step.
--   * Wire, Message: the requests of the services as a log entry holds them, and the apply messages
--     of src/shardmaster_config.h with the way in which `RaftNode::do_apply` makes them.
--   * Collections: the associative containers of the servers.
--   * Raft: the node of src/node.h. Types has its state, NodePeer and the messages; Conf the text
--     form of a `Configuration`; Log the access to `logs`; Peers the map of peers and the votes;
--     Persist src/node_persister.cpp; Role src/node_state.cpp and the checks in front of the
--     handlers; Vote src/node_rpc_r.cpp; Replicate, Append and Commit src/node_rpc_a.cpp, as the
--     sender, as the receiver and at the answer; Snapshot src/node_rpc_i.cpp; Change
--     src/node_conf.cpp; Apply and Timer the rest of src/node.cpp.
--     Vote.Restarts has a node that ends and runs again from its file.
--     Transport is the end of a call in src/client_async.cpp; Server the services of src/server.cpp and
--     the reading threads of src/client_stream_sync.cpp; Cluster the elections of several nodes as a
--     step relation, in which the handlers of Vote are the steps, and Cluster.History what lasts over
--     a run.
--   * Service: what the RPC handlers of both servers share, the overloads of `RaftNode::do_log` and the
--     wait for an entry.
--   * Kv: the unsharded server of src/kv_server.cpp with its database, src/kv_database.cpp, and the
--     client of src/kv_client.h.
--   * Shardmaster: the apply callbacks of src/shardmaster_server.cpp; Handlers its RPC handlers; Query
--     what a query finds; Client src/shardmaster_client.cpp.
--   * Shardkv: the apply callbacks and `ApplyNewConf` of src/shardkv_server.cpp; Handlers its RPC
--     handlers; Background its polling, pulling and cleaning; Owned, Sound and Losing what becomes of
--     the data of a shard. No entry of the program reaches `on_shard_migration_reply_apply`: the
--     puller logs its result under another name than `do_apply` looks for.
--
-- How they interact: a handler takes a message and a node and gives the answer, if any, and the node
-- after it. What it hands to the peers' clients is appended to the field `outbox`, what it writes to
-- the file is the field `disk`. Committed entries go to the server behind the node through the record
-- Raft.Apply.Callbacks, which `do_apply` is given; the servers' callbacks are the functions named
-- after them, and `apply` in Shardmaster and Shardkv chooses one by the apply message.
--
-- Encodings and bounds: an `IndexID` starts at -1 and is kept as its successor. Unsigned numbers
-- of 64 bits wrap where the program adds to them; an `int` that may be negative is its bit
-- pattern, or a signed number. A failed assertion, an access out of bounds and a null
-- dereference are `none`, and so is the step of `ApplyNewConf` that erases the entry its
-- iterator stands on and then advances the iterator. The assertion of `last_log_index` is
-- `sizes_agree`, where a request of the leader is handled, an entry logged or the log compacted,
-- and left out elsewhere; `do_log` gives the index as an `int`, which is its bit pattern.
-- The loop with a `goto` in `onLeaveApply` runs on fuel, one more than the groups lack of their
-- share, since every `goto` takes one away. All other loops are structural recursions.
--
-- An RPC handler is split at its wait: `on_join` and the others are the part up to it, `end_change`,
-- `end_get` and `end_query` the part behind it, which reads the server as it is then.
--
-- Parameters: `atoi` and `std::to_string`, the server's callbacks where the Raft node is seen on
-- its own, rocksdb, and the replies of other servers where a client or a background thread calls
-- them. The order in which an unordered map is iterated is that of its association list. The map
-- of peers is kept in the order of its keys.
--
-- Not modelled: locks, the wire, and threads but those of Tasks: a handler is one step. A Cluster may
-- lose, delay and double messages; of a leader's messages it has the check that comes first, and it has
-- no restarts. The callbacks for elections and configuration changes, which no server sets, and printing
-- are left out. So is ShardkvClient (src/shardkv_client.h), which no file includes and which does not
-- compile.
pub mod Prelude
pub mod Nuke
pub mod Tasks
pub mod Collections
pub mod Wire
pub mod Message
pub mod Raft
pub mod Service
pub mod Kv
pub mod Shardmaster
pub mod Shardkv
