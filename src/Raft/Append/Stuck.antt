-- ===== src/Raft/Append/Stuck.antt =====
-- A conflict that `on_append_entries_request` (src/node_rpc_a.cpp) does not survive.
use ctx_db.Prelude.{
  not, ◌-◌, ◌≤◌, ◌<◌, ◌≡◌, refl, ◌∙◌, sym, Bool, true, false, ◌&&◌, ◌||◌, none, some, arith, leb,
  ltb, ◌==◌, subst, List,
}
use ctx_db.Raft.Types.{RaftNode, LogEntry, Env, AppendEntriesRequest, default_index_cursor}
use ctx_db.Raft.Log.{
  base_of, last_index_of, get_base_index, last_log_index, entry_at, gl, sizes_agree,
}
use ctx_db.Raft.Log.Contiguous.{IsContiguous, IsContiguous-sizes_agree}
use ctx_db.Raft.Peers.{is_running, is_peer_receive_enabled, has_peer}
use ctx_db.Raft.Role.{handle_request_routine, valid_seq}
use ctx_db.Raft.Apply.{Callbacks}
use ctx_db.Raft.Append.{match_log, on_append_entries_request, after_routine}
use ctx_db.Raft.Append.Request.{routine-keeps}
use ctx_db.Raft.Append.Revoke.{AllOfTerm, revoke-none}

-- The entry at `prev_log_index` is not the leader's, and all entries up to it are of its term, in a
-- log whose start was compacted away.
abbrev pub IsStuckOn : AppendEntriesRequest → LogEntry → List LogEntry → Type 0
IsStuckOn r e l =
    (2 ≤ base_of l)
    × (base_of l < r.prev_log_index)
    × (r.prev_log_index ≤ last_index_of l)
    × (entry_at l r.prev_log_index ≡ some e)
    × ((r.prev_log_term == e.term) ≡ false)
    × AllOfTerm r.prev_log_index e.term l

module _ {S : Type 0} where
  valid_seq-logs :
      (r : AppendEntriesRequest) (n : RaftNode S) → (valid_seq r.seq r.initial n).1.logs ≡ n.logs
  unfolding valid_seq
  valid_seq-logs r n = ground arith

module _ {S : Type 0} (cb : Callbacks S) where
  match_log-none :
      (env : Env) (r : AppendEntriesRequest) (n : RaftNode S) (e : LogEntry)
      → IsContiguous n.logs
      → IsStuckOn r e n.logs
      → match_log cb env r n ≡ none
  unfolding match_log gl get_base_index last_log_index
  match_log-none env r n e c (two, inside, le, found, differ, all) =
      let known : (leb 1 r.prev_log_index && ltb (last_log_index n) r.prev_log_index) ≡ false =
        ground (arith, le) in
      let agree : (not (leb 1 r.prev_log_index) || sizes_agree n) ≡ true =
        ground (arith, IsContiguous-sizes_agree n c) in
      let later : (r.prev_log_index == default_index_cursor) ≡ false = ground (arith, inside) in
      let above : ltb (get_base_index n) r.prev_log_index ≡ true = ground (arith, inside) in
      let stuck =
        revoke-none n e.term (r.prev_log_index - 1) c two (omega arith) (omega arith)
          (λ j f lo hi at. all j f lo (omega arith) at) in
      rw (agree, known, later, above, found, differ, stuck) refl

  after_routine-none :
      (env : Env) (r : AppendEntriesRequest) (n x : RaftNode S) (ok : Bool) (e : LogEntry)
      → x.logs ≡ n.logs
      → ok ≡ true
      → (valid_seq r.seq r.initial x).0 ≡ true
      → IsContiguous n.logs
      → IsStuckOn r e n.logs
      → after_routine cb env r (ok, x) ≡ none
  after_routine-none env r n x false e same ran fresh c stuck = cc
  after_routine-none env r n x true e same ran fresh c stuck =
      let logs = sym (valid_seq-logs r x ∙ same) in
      rw fresh (
        match_log-none env r (valid_seq r.seq r.initial x).1 e (subst IsContiguous logs c)
          (subst (IsStuckOn r e) logs stuck))

  -- A follower's log is numbered one by one and its first index was compacted away. The entry at
  -- `prev_log_index` is there, not the first one, and of another term than the leader's, and all
  -- entries up to it are of its term. Then a request that gets past the checks in front, of a term that
  -- is not older and with a sequence number that is new to the node by then, always ends in a failed assertion: the revocation
  -- goes on behind the first entry.
  pub conflict_behind_snapshot :
      (env : Env) (r : AppendEntriesRequest) (n : RaftNode S) (e : LogEntry)
      → IsContiguous n.logs
      → IsStuckOn r e n.logs
      → is_running n ≡ true
      → is_peer_receive_enabled n r.name ≡ true
      → n.start_timepoint ≤ r.time
      → has_peer n r.name ≡ true
      → n.current_term ≤ r.term
      → (valid_seq r.seq r.initial (handle_request_routine env r.name r.term n).1).0 ≡ true
      → on_append_entries_request cb env r n ≡ none
  unfolding on_append_entries_request
  conflict_behind_snapshot env r n e c stuck running enabled timely there newer fresh =
      let x = handle_request_routine env r.name r.term n in
      let kept = routine-keeps env r.name r.term n in
      let timely' : ltb r.time n.start_timepoint ≡ false = ground (arith, timely) in
      let joined : x.0 ≡ true = ground (arith, kept, newer) in
      rw (running, enabled, timely', there)
        (after_routine-none env r n x.1 x.0 e kept.0 joined fresh c stuck)
