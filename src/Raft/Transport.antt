-- ===== src/Raft/Transport.antt =====
-- What `RaftMessagesClientAsync::AsyncCompleteRpc` (src/client_async.cpp) does with the end of a call:
-- `none` is a call whose status is not OK, as the service (src/server.cpp) answers where a handler
-- returned -1.
use ctx_db.Prelude.{ℕ, Bool, not, ◌&&◌, Option, none, some, Text, ltb, if◌then◌else◌}
use ctx_db.Raft.Types.{
  RaftNode, Env, RequestVoteResponse, AppendEntriesResponse, InstallSnapshotResponse,
}
use ctx_db.Raft.Peers.{has_peer}
use ctx_db.Raft.Vote.{on_vote_response}
use ctx_db.Raft.Apply.{Callbacks}
use ctx_db.Raft.Commit.{on_append_entries_response}
use ctx_db.Raft.Snapshot.{on_install_snapshot_response}

module _ {S : Type 0} where
  -- The peer is still there, and the response is not from before the node's start.
  unfoldable pub is_expected : Text → ℕ → RaftNode S → Bool
  unfolding has_peer
  is_expected peer time n = has_peer n peer && not (ltb time n.start_timepoint)

  unfoldable pub complete_vote :
      Text → Option RequestVoteResponse → RaftNode S → Option (RaftNode S)
  unfolding is_expected on_vote_response
  complete_vote peer none n = some n
  complete_vote peer (some r) n = if is_expected peer r.time n then on_vote_response r n else some n

  unfoldable pub complete_snapshot : Text → Option InstallSnapshotResponse → RaftNode S → RaftNode S
  unfolding is_expected on_install_snapshot_response
  complete_snapshot peer none n = n
  complete_snapshot peer (some r) n =
      if is_expected peer r.time n then on_install_snapshot_response r n else n

module _ {S : Type 0} (cb : Callbacks S) where
  unfoldable pub complete_append :
      Env → Text → Option AppendEntriesResponse → RaftNode S → Option (RaftNode S)
  unfolding is_expected on_append_entries_response
  complete_append env peer none n = some n
  complete_append env peer (some r) n =
      if is_expected peer r.time n then on_append_entries_response cb env r n else some n
