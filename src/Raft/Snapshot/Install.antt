-- ===== src/Raft/Snapshot/Install.antt =====
-- How a snapshot is put into the log and applied (`on_install_snapshot_request`, src/node_rpc_i.cpp).
use ctx_db.Prelude.{
  ℕ, ◌+◌, ◌-◌, ◌≤◌, ◌≡◌, refl, ap, ◌∙◌, sym, true, false, List, [], ◌∷◌, some, arith, leb, ◌==◌,
  subst,
}
use ctx_db.Wire.{no_payload}
use ctx_db.Raft.Types.{
  RaftNode, LogEntry, Env, InstallSnapshotRequest, InstallSnapshotResponse, nuft_cmd_snapshot,
  default_index_cursor,
}
use ctx_db.Raft.Log.{base_of, get_base_index, entry_at, gl, find_position}
use ctx_db.Raft.Log.Contiguous.{IsContiguous}
use ctx_db.Raft.Persist.{dump}
use ctx_db.Raft.Apply.{Callbacks, do_apply, apply_loop, apply_entry, message_of}
use ctx_db.Raft.Snapshot.{base_term, snapshot_reply, truncate_log, install, rest_after}
use ctx_db.Raft.Snapshot.Compact.{rest_after-NumberedFrom}

-- The first entry of the log: the snapshot.
abbrev pub installed : InstallSnapshotRequest → LogEntry
installed r = record {
  index = r.last_included_index;
  term = r.last_included_term;
  command = nuft_cmd_snapshot;
  content = r.content;
  cmd = [];
  payload = no_payload;
}

module _ {S : Type 0} where
  gl_first :
      (n : RaftNode S) (e : LogEntry) (es : List LogEntry) → n.logs ≡ e ∷ es → gl n e.index ≡ some e
  unfolding gl entry_at base_of
  gl_first n e es h =
      let start : e.index - e.index ≡ 0 = omega arith in
      let at : leb e.index e.index ≡ true = ground arith in rw (h, at, start) refl

module _ {S : Type 0} (cb : Callbacks S) where
  -- The snapshot is the only entry that is applied.
  do_apply-first :
      (n : RaftNode S) (e : LogEntry) (es : List LogEntry)
      → n.logs ≡ e ∷ es
      → n.last_applied + 1 ≡ e.index
      → n.commit_index ≡ e.index
      → e.command ≡ nuft_cmd_snapshot
      → do_apply cb true n ≡ some (apply_entry cb true e.index e n)
  unfolding do_apply apply_loop
  do_apply-first n e es logs next commit snap =
      let one : n.commit_index - n.last_applied ≡ 1 = omega arith in
      let found = gl_first n e es logs in
      let marked : (e.command == nuft_cmd_snapshot) ≡ true = ground (arith, snap) in
      rw (next, found, marked, one) (rw found refl)

  -- The node has the snapshot as the first entry of a log numbered one by one and as its last
  -- committed entry, and its server has been called back with it.
  abbrev pub IsInstalled : InstallSnapshotRequest → RaftNode S → RaftNode S → Type 0
  IsInstalled r n m =
      IsContiguous m.logs
      × (gl m r.last_included_index ≡ some (installed r))
      × (get_base_index m ≡ r.last_included_index)
      × (m.commit_index ≡ r.last_included_index)
      × (m.server
          ≡ (cb.invoke n.server (message_of cb true r.last_included_index (installed r) n)).0)

  dump-lem :
      (n : RaftNode S)
      → ((dump n).logs ≡ n.logs)
        × ((dump n).commit_index ≡ n.commit_index)
        × ((dump n).server ≡ n.server)
        × ((dump n).current_term ≡ n.current_term)
  unfolding dump
  dump-lem n = ground arith

  apply_entry-lem :
      (i : ℕ) (e : LogEntry) (n : RaftNode S)
      → let m = apply_entry cb true i e n in
        (m.logs ≡ n.logs)
        × (m.commit_index ≡ n.commit_index)
        × (m.server ≡ (cb.invoke n.server (message_of cb true i e n)).0)
        × (m.current_term ≡ n.current_term)
  unfolding apply_entry
  apply_entry-lem i e n = ground arith

  pub install-lem :
      (r : InstallSnapshotRequest) (n : RaftNode S)
      → IsContiguous n.logs
      → 1 ≤ r.last_included_index
      → (m : RaftNode S) × (install cb r n ≡ some m)
        × IsInstalled r n m
        × (m.current_term ≡ n.current_term)
  unfolding install truncate_log get_base_index base_of
  install-lem r n c p =
      let i = r.last_included_index in
      let rest = rest_after (find_position n.logs i r.last_included_term) n.logs in
      let x = record n { logs = installed r ∷ rest; commit_index = i; last_applied = i - 1 } in
      let m = apply_entry cb true i (installed r) x in
      let applied = do_apply-first x (installed r) rest refl (omega arith) refl refl in
      let (l, k, s, t) = apply_entry-lem i (installed r) x in
      let (l', k', s', t') = dump-lem m in
      let logs : (dump m).logs ≡ installed r ∷ rest = l' ∙ l in
      (
        dump m,
        rw applied refl,
        (
          subst IsContiguous (sym logs)
              (p, rest_after-NumberedFrom i r.last_included_term n.logs c),
          gl_first (dump m) (installed r) rest logs,
          ap base_of logs,
          k' ∙ k,
          unfold message_of in s' ∙ s,
        ),
        t' ∙ t,
      )

  pub base_term-installed :
      (r : InstallSnapshotRequest) (n m : RaftNode S)
      → 1 ≤ r.last_included_index
      → IsInstalled r n m
      → base_term m ≡ some r.last_included_term
  base_term-installed r n m p (c, first, base, commit, called) =
      let later : (get_base_index m == default_index_cursor) ≡ false = ground (arith, base, p) in
      rw later (rw (base, first) refl)

  -- What the answer to a leader's snapshot says.
  abbrev pub Reports : InstallSnapshotRequest → RaftNode S → InstallSnapshotResponse → Type 0
  Reports r m a =
      (a.success ≡ true)
      × (a.last_included_index ≡ r.last_included_index)
      × (a.last_included_term ≡ r.last_included_term)
      × (a.term ≡ m.current_term)

  pub snapshot_reply-Reports :
      (env : Env) (r : InstallSnapshotRequest) (m : RaftNode S)
      → get_base_index m ≡ r.last_included_index
      → base_term m ≡ some r.last_included_term
      → (a : InstallSnapshotResponse) × (snapshot_reply env r true m ≡ some (some a, m))
        × Reports r m a
  snapshot_reply-Reports env r m base term =
      let a : InstallSnapshotResponse = record {
        term = m.current_term;
        name = m.name;
        last_included_index = get_base_index m;
        last_included_term = r.last_included_term;
        success = true;
        time = env.now;
        seq = r.seq;
      } in
      (a, rw term refl, (refl, base, refl, refl))
