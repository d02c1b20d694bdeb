-- ===== src/Raft/Snapshot/Installed.antt =====
-- What a follower is after a leader's snapshot (`on_install_snapshot_request`, src/node_rpc_i.cpp).
use ctx_db.Prelude.{
  ◌≤◌, ◌≡◌, ◌∙◌, sym, Bool, true, false, not, ◌||◌, some, arith, if_false, leb, ltb, max, subst,
}
use ctx_db.Raft.Types.{RaftNode, Env, InstallSnapshotRequest, InstallSnapshotResponse}
use ctx_db.Raft.Log.Contiguous.{IsContiguous}
use ctx_db.Raft.Peers.{is_running, is_peer_receive_enabled}
use ctx_db.Raft.Role.{handle_request_routine, valid_seq}
use ctx_db.Raft.Apply.{Callbacks, message_of}
use ctx_db.Raft.Snapshot.{after_snapshot_routine, on_install_snapshot_request}
use ctx_db.Raft.Snapshot.Install.{
  IsInstalled, Reports, install-lem, base_term-installed, snapshot_reply-Reports,
}

module _ {S : Type 0} (cb : Callbacks S) where
  kept-lem :
      (env : Env) (r : InstallSnapshotRequest) (n : RaftNode S)
      → let (ok, m) = handle_request_routine env r.name r.term n in
        (m.logs ≡ n.logs)
        × (m.server ≡ n.server)
        × (m.name ≡ n.name)
        × (m.current_term ≡ max n.current_term r.term)
        × (ok ≡ leb n.current_term r.term)
  unfolding handle_request_routine
  kept-lem env r n = ground arith

  valid_seq-lem :
      (r : InstallSnapshotRequest) (n : RaftNode S)
      → let m = (valid_seq r.seq r.initial n).1 in
        (m.logs ≡ n.logs)
        × (m.server ≡ n.server)
        × (m.name ≡ n.name)
        × (m.current_term ≡ n.current_term)
  unfolding valid_seq
  valid_seq-lem r n = ground arith

  IsInstalled-from :
      (r : InstallSnapshotRequest) (n x m : RaftNode S)
      → x.server ≡ n.server
      → x.name ≡ n.name
      → IsInstalled cb r x m
      → IsInstalled cb r n m
  unfolding message_of
  IsInstalled-from r n x m server name (c, first, base, commit, called) =
      (c, first, base, commit, cc)

  after_routine-lem :
      (env : Env) (r : InstallSnapshotRequest) (n x : RaftNode S) (ok : Bool)
      → (ok ≡ true) × (x.logs ≡ n.logs) × (x.server ≡ n.server) × (x.name ≡ n.name)
      → IsContiguous n.logs
      → 1 ≤ r.last_included_index
      → (valid_seq r.seq r.initial x).0 ≡ true
      → (a : InstallSnapshotResponse) × (m : RaftNode S) × (after_snapshot_routine cb env r (ok, x)
          ≡ some (some a, m))
        × Reports cb r m a
        × IsInstalled cb r n m
        × (m.current_term ≡ x.current_term)
  after_routine-lem env r n x false kept c p fresh = cc
  after_routine-lem env r n x true (t, logs, server, name) c p fresh =
      let (logs', server', name', same) = valid_seq-lem r x in
      let y = (valid_seq r.seq r.initial x).1 in
      let (m, done, at, term) = install-lem cb r y (subst IsContiguous (sym (logs' ∙ logs)) c) p in
      let (a, replied, said) =
        snapshot_reply-Reports cb env r m at.2 (base_term-installed cb r y m p at) in
      (
        a,
        m,
        rw (fresh, done) replied,
        said,
        IsInstalled-from r n y m (server' ∙ server) (name' ∙ name) at,
        term ∙ same,
      )

  -- A leader's snapshot, at any index but -1, that gets past the checks in front, of a term that is not
  -- older and with a sequence number that is new to the node by then: from a log numbered one by one,
  -- the handler succeeds, whatever the log held. The answer reports the index and the term of the
  -- snapshot; the node then has the snapshot as the first entry of a log numbered one by one and as its
  -- last committed entry, its server has been called back with the snapshot once and with nothing else,
  -- and its term is the leader's.
  pub follower_takes_snapshot :
      (env : Env) (r : InstallSnapshotRequest) (n : RaftNode S)
      → IsContiguous n.logs
      → 1 ≤ r.last_included_index
      → is_running n ≡ true
      → is_peer_receive_enabled n r.name ≡ true
      → n.start_timepoint ≤ r.time
      → n.current_term ≤ r.term
      → (valid_seq r.seq r.initial (handle_request_routine env r.name r.term n).1).0 ≡ true
      → (a : InstallSnapshotResponse) × (m : RaftNode S) × (on_install_snapshot_request cb env r n
          ≡ some (some a, m))
        × Reports cb r m a
        × IsInstalled cb r n m
        × (m.current_term ≡ r.term)
  unfolding on_install_snapshot_request
  follower_takes_snapshot env r n c p running enabled timely newer fresh =
      let x = handle_request_routine env r.name r.term n in
      let (logs, server, name, term, ok) = kept-lem env r n in
      let timely' : ltb r.time n.start_timepoint ≡ false = ground (arith, timely) in
      let on : (not (is_running n) || not (is_peer_receive_enabled n r.name)) ≡ false =
        ground (arith, running, enabled) in
      let joined : x.0 ≡ true = ground (arith, ok, newer) in
      let (a, m, done, said, at, same) =
        after_routine-lem env r n x.1 x.0 (joined, logs, server, name) c p fresh in
      (a, m, if_false _ on ∙ if_false _ timely' ∙ done, said, at, omega (arith, same, term, newer))
