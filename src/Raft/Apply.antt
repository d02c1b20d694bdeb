-- ===== src/Raft/Apply.antt =====
-- `RaftNode::do_apply` (src/node.cpp): the committed entries go to the callbacks of the server.
pub mod Exact
use ctx_db.Prelude.{
  ℕ, zero, suc, ◌+◌, ◌-◌, Bool, true, false, not, ◌&&◌, Option, none, some, Text, ◌==◌,
  if◌then◌else◌, ◌>>=◌,
}
use ctx_db.Message.{ApplyMessage, command_of}
use ctx_db.Raft.Types.{RaftNode, LogEntry, nuft_cmd_snapshot}
use ctx_db.Raft.Log.{gl}

-- What the node calls: `atoi`, and the callbacks, which return a `NuftResult`.
pub record Callbacks (S : Type 0) : Type 0 where
  pub atoi : Text → ℕ
  pub invoke : S → ApplyMessage → S × ℕ

abbrev pub nuft_ok : ℕ
nuft_ok = 0

module _ {S : Type 0} (cb : Callbacks S) where
  unfoldable pub message_of : Bool → ℕ → LogEntry → RaftNode S → ApplyMessage
  unfolding command_of
  message_of from_snapshot i e n = record {
    index = i;
    term = e.term;
    name = n.name;
    from_snapshot = from_snapshot;
    command = command_of cb.atoi e.cmd e.payload e.content;
  }

  -- One round. A callback that fails leaves `last_applied`, and the loop goes on.
  unfoldable pub apply_entry : Bool → ℕ → LogEntry → RaftNode S → RaftNode S
  unfolding message_of
  apply_entry from_snapshot i e n =
      let (server, res) = cb.invoke n.server (message_of from_snapshot i e n) in
      if res == nuft_ok
      then record n { server = server; last_applied = i }
      else record n { server = server }

  -- The rounds from index i, as many as the first number says.
  unfoldable pub apply_loop : ℕ → Bool → ℕ → RaftNode S → Option (RaftNode S)
  unfolding gl
  apply_loop zero from_snapshot i n = some n
  apply_loop (suc k) from_snapshot i n = do
    e ← gl n i
    apply_loop k from_snapshot (i + 1) (apply_entry from_snapshot i e n)

  -- The entry after `last_applied` is read for the assertion only when a snapshot is applied.
  abbrev pub snapshot_first : Bool → RaftNode S → Option Bool
  snapshot_first true n = do e ← gl n (n.last_applied + 1); some (e.command == nuft_cmd_snapshot)
  snapshot_first false n = some true

  unfoldable pub do_apply : Bool → RaftNode S → Option (RaftNode S)
  unfolding apply_loop
  do_apply from_snapshot n = do
    asserted ← snapshot_first from_snapshot n
    let applied = apply_loop (n.commit_index - n.last_applied) from_snapshot (n.last_applied + 1) n
    if asserted then applied else none
