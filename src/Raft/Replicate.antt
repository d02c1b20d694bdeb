-- ===== src/Raft/Replicate.antt =====
-- The leader's side of replication: `do_append_entries` and `do_log` (src/node_rpc_a.cpp), and
-- `do_send_install_snapshot` (src/node_rpc_i.cpp).
pub mod Sent
pub mod Logged
use ctx_db.Prelude.{
  ℕ, zero, suc, ◌+◌, ◌-◌, ◌^◌, ◌%◌, max, Bool, not, ◌&&◌, ◌||◌, List, [], ◌∷◌, ◌++◌, Option, none,
  some, Text, ltb, leb, ◌==◌, if◌then◌else◌, ◌>>=◌, asserting,
}
use ctx_db.Wire.{Payload}
use ctx_db.Raft.Types.{
  RaftNode, NodePeer, LogEntry, is_leader, Env, Message, append_entries, install_snapshot,
  AppendEntriesRequest, default_index_cursor, default_term_cursor, nuft_cmd_snapshot,
}
use ctx_db.Raft.Log.{get_base_index, last_log_index, gl, sizes_agree}
use ctx_db.Raft.Peers.{is_running}
use ctx_db.Raft.Persist.{dump}
use ctx_db.Raft.Role.{seq_initial, next_seq}

module _ {S : Type 0} where
  -- The loop that copies `gl(i)` into the request.
  unfoldable pub copy_entries : RaftNode S → ℕ → ℕ → Option (List LogEntry)
  unfolding gl
  copy_entries n i zero = some []
  copy_entries n i (suc k) = do e ← gl n i; es ← copy_entries n (i + 1) k; some (e ∷ es)

  -- The term of the entry in front, or the default where there is none.
  abbrev prev_term : RaftNode S → ℕ → Option ℕ
  prev_term n prev =
      if ltb default_index_cursor prev
      then (do e ← gl n prev; some e.term)
      else some default_term_cursor

  -- `next_index` is never the cursor -1. It is asserted not to be below the base.
  unfoldable pub append_request : Env → RaftNode S → NodePeer → Option AppendEntriesRequest
  unfolding copy_entries get_base_index last_log_index
  append_request env n p = do
    let prev_log_index = p.next_index - 1
    prev_log_term ← prev_term n prev_log_index
    entries ← copy_entries n (max 1 p.next_index) (last_log_index n + 1 - max 1 p.next_index)
    if leb (get_base_index n) p.next_index
        then some (record {
          name = n.name;
          term = n.current_term;
          prev_log_index = prev_log_index;
          prev_log_term = prev_log_term;
          leader_commit = n.commit_index;
          entries = entries;
          time = env.now;
          seq = p.seq;
          initial = seq_initial p;
        })
        else none

  -- `do_send_install_snapshot`; where the first entry is no snapshot, the process exits.
  unfoldable pub snapshot_message : Env → RaftNode S → NodePeer → Option Message
  unfolding gl get_base_index
  snapshot_message env n p = do
    let base = get_base_index n
    e ← gl n base
    if e.command == nuft_cmd_snapshot
        then some (
            install_snapshot (record {
              term = n.current_term;
              name = n.name;
              last_included_index = base;
              last_included_term =
                  if base == default_index_cursor then default_term_cursor else e.term;
              content = e.content;
              time = env.now;
              seq = p.seq;
              initial = seq_initial p;
            }))
        else none

  -- What one peer is sent: the snapshot if it lags behind the base, entries otherwise. The test on
  -- `get_base_index() > 0` is on an index, so that it is above 1 here.
  unfoldable pub message_to : Env → RaftNode S → NodePeer → Option Message
  unfolding append_request snapshot_message
  message_to env n p =
      if leb p.next_index (get_base_index n) && ltb 1 (get_base_index n)
      then snapshot_message env n p
      else (do r ← append_request env n p; some (append_entries r))

  unfoldable pub send_all :
      Env
      → RaftNode S
      → List (Text × NodePeer)
      → Option (List (Text × NodePeer) × List (Text × Message))
  unfolding message_to
  send_all env n [] = some ([], [])
  send_all env n ((k, p) ∷ ps) = do
    (peers, sent) ← send_all env n ps
    if p.send_enabled
        then (do m ← message_to env n p; some ((k, next_seq p) ∷ peers, (k, m) ∷ sent))
        else some ((k, p) ∷ peers, sent)

  unfoldable pub do_append_entries : Env → RaftNode S → Option (RaftNode S)
  unfolding send_all
  do_append_entries env n = do
    (peers, sent) ← send_all env n n.peers
    some (record n { peers = peers; outbox = n.outbox ++ sent })

  unfoldable pub send_heartbeat : Env → RaftNode S → Option (RaftNode S)
  unfolding do_append_entries
  send_heartbeat env n = do_append_entries env n

-- The entry that `do_log` is given: `term` and `index` are set there.
pub record Draft : Type 0 where
  pub cmd : Text
  pub content : Text
  pub payload : Payload

-- An index as the `int` that `do_log` returns: its bit pattern, one more than it like every index
-- here. From the index 2 ^ 31 on that is a negative number, or another index.
abbrev pub as_int : ℕ → ℕ
as_int i = (i + (2 ^ 32 - 1)) % 2 ^ 32 + 1

-- The result of `do_log`: the new index as an `int`, or one of two refusals, which are the numbers -3
-- and -1 there.
pub data LogResult : Type 0 where
  logged : ℕ → LogResult
  not_leader fail : LogResult

module _ {S : Type 0} where
  abbrev pub draft_entry : Draft → ℕ → RaftNode S → LogEntry
  draft_entry d command n = record {
    index = last_log_index n + 1;
    term = n.current_term;
    command = command;
    content = d.content;
    cmd = d.cmd;
    payload = d.payload;
  }

  -- The functions that callers pass as `f` do nothing.
  unfoldable pub do_log : Env → Draft → ℕ → RaftNode S → Option (LogResult × RaftNode S)
  unfolding do_append_entries dump is_running last_log_index sizes_agree
  do_log env d command n =
      if not (is_leader n.state)
      then some (not_leader, n)
      else if not (is_running n)
      then some (fail, n)
      else asserting (sizes_agree n) (do
        n' ←
            do_append_entries env
              (dump (record n { logs = n.logs ++ draft_entry d command n ∷ [] }))
        some (logged (as_int (last_log_index n + 1)), n'))
