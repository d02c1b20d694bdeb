-- ===== src/Raft/Tests/Snapshot.antt =====
-- A leader's snapshot that reaches past the end of a follower's log.
use ctx_db.Prelude.{same, ◌≡◌, refl, true, [], ◌∷◌, some, arith}
use ctx_db.Raft.Types.{RaftNode, InstallSnapshotRequest, InstallSnapshotResponse}
use ctx_db.Raft.Peers.{is_running, is_peer_receive_enabled}
use ctx_db.Raft.Role.{handle_request_routine, valid_seq}
use ctx_db.Raft.Snapshot.{on_install_snapshot_request}
use ctx_db.Raft.Snapshot.Install.{Reports, IsInstalled}
use ctx_db.Raft.Snapshot.Installed.{follower_takes_snapshot}
use ctx_db.Raft.Tests.{Recorder, recorder, env, node_a, name_b}

abbrev snapshot : InstallSnapshotRequest
snapshot = record {
  name = name_b;
  term = 3;
  last_included_index = 5;
  last_included_term = 2;
  content = 115 ∷ [];
  time = 900;
  seq = 1;
  initial = true;
}

follower_takes_snapshot_example :
    (a : InstallSnapshotResponse) × (m : RaftNode Recorder) × (on_install_snapshot_request recorder
        env snapshot node_a
      ≡ some (some a, m))
    × Reports recorder snapshot m a
    × IsInstalled recorder snapshot node_a m
    × (m.current_term ≡ 3)
unfolding is_running is_peer_receive_enabled handle_request_routine valid_seq same
follower_takes_snapshot_example =
    follower_takes_snapshot recorder env snapshot node_a (omega arith, (refl, tt)) (omega arith)
      refl refl (omega arith) (omega arith) refl
