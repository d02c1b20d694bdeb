-- ===== src/Raft/Server/Served.antt =====
-- The stream and the unary service on a request from before the node's start (src/server.cpp,
-- src/node_rpc_i.cpp).
use ctx_db.Prelude.{Bool, true, false, ◌≡◌, refl, ◌<◌, ltb, List, [], ◌∷◌, none, some, arith}
use ctx_db.Raft.Types.{RaftNode, Env, InstallSnapshotRequest}
use ctx_db.Raft.Peers.{is_running, is_peer_receive_enabled}
use ctx_db.Raft.Apply.{Callbacks}
use ctx_db.Raft.Snapshot.{unset_response, on_install_snapshot_request}
use ctx_db.Raft.Server.{
  ok, Event, received, drained, stop_stored, read_loop, Handler, call, serve, serve_stream,
  snapshot_named, install_snapshot, stream_install_snapshot,
}

-- A process that has ended stays so.
failed-read_loop :
    {S Q A : Type 0} (named : A → Bool) (h : Handler S Q A) (stopped : Bool)
    (es : List (Event (Env × Q)))
    → read_loop (serve named h) stopped es none ≡ none
unfolding read_loop serve
failed-read_loop named h stopped [] = refl
failed-read_loop named h stopped (stop_stored ∷ es) = failed-read_loop named h true es
failed-read_loop named h false (drained ∷ es) = failed-read_loop named h false es
failed-read_loop named h true (drained ∷ es) = refl
failed-read_loop named h false (received (env, q) ∷ es) = failed-read_loop named h false es
failed-read_loop named h true (received (env, q) ∷ es) = refl

module _ {S : Type 0} (cb : Callbacks S) where
  late-unset :
      (env : Env) (r : InstallSnapshotRequest) (n : RaftNode S)
      → is_running n ≡ true
      → is_peer_receive_enabled n r.name ≡ true
      → r.time < n.start_timepoint
      → on_install_snapshot_request cb env r n ≡ some (some unset_response, n)
  unfolding on_install_snapshot_request
  late-unset env r n runs hears early =
      let late : ltb r.time n.start_timepoint ≡ true = ground (arith, early) in
      ground (arith, runs, hears, late)

  -- A node that runs and hears the sender gets a snapshot that was sent before the node started. Over
  -- the unary service the call is OK, the node is as it was, and the response goes out with no field
  -- set. Over a stream, where the flag `stop` is not stored before, the assertion that the response has
  -- a name fails, and ends the process, whatever comes behind.
  pub late_snapshot :
      (env : Env) (r : InstallSnapshotRequest) (n : RaftNode S)
      (es : List (Event (Env × InstallSnapshotRequest)))
      → is_running n ≡ true
      → is_peer_receive_enabled n r.name ≡ true
      → r.time < n.start_timepoint
      → (install_snapshot cb env r n ≡ some (ok unset_response, n))
        × (stream_install_snapshot cb (received (env, r) ∷ es) n ≡ none)
  unfolding call serve_stream serve read_loop
  late_snapshot env r n es runs hears early =
      let unset = late-unset env r n runs hears early in
      (
        rw unset refl,
        rw unset (failed-read_loop snapshot_named (on_install_snapshot_request cb) false es),
      )
