-- ===== src/Raft/Tests/Server.antt =====
-- A snapshot from before a restart, over the unary service and over a stream.
use ctx_db.Prelude.{◌≡◌, refl, true, [], ◌∷◌, none, some, arith, same}
use ctx_db.Raft.Types.{RaftNode, InstallSnapshotRequest}
use ctx_db.Raft.Peers.{is_running, is_peer_receive_enabled}
use ctx_db.Raft.Snapshot.{unset_response}
use ctx_db.Raft.Server.{ok, received, install_snapshot, stream_install_snapshot}
use ctx_db.Raft.Server.Served.{late_snapshot}
use ctx_db.Raft.Tests.{Recorder, recorder, env, name_b, node_a}

-- The node started at 950; the snapshot was sent at 900.
abbrev restarted : RaftNode Recorder
restarted = record node_a { start_timepoint = 950 }

abbrev sent_before : InstallSnapshotRequest
sent_before = record {
  name = name_b;
  term = 3;
  last_included_index = 5;
  last_included_term = 2;
  content = [];
  time = 900;
  seq = 1;
  initial = true;
}

late_snapshot_example :
    (install_snapshot recorder env sent_before restarted ≡ some (ok unset_response, restarted))
    × (stream_install_snapshot recorder (received (env, sent_before) ∷ []) restarted ≡ none)
unfolding is_running is_peer_receive_enabled same
late_snapshot_example = late_snapshot recorder env sent_before restarted [] refl refl (omega arith)
