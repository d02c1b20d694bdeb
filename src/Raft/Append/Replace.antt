-- ===== src/Raft/Append/Replace.antt =====
-- What a follower's log is after an answer, and what becomes of its commit index
-- (`on_append_entries_request`, src/node_rpc_a.cpp).
use ctx_db.Prelude.{
  ℕ, ◌+◌, ◌-◌, ◌≤◌, ◌≡◌, inl, inr, true, false, ◌++◌, Option, some, take, arith, min, leb, ltb,
  if◌then◌else◌, Bool-cases, bind_some, asserting-some, leb→le,
}
use ctx_db.Raft.Types.{RaftNode, Env, AppendEntriesRequest, AppendEntriesResponse}
use ctx_db.Raft.Log.{
  sizes_agree, base_of, last_index_of, get_base_index, last_log_index, last_log_term,
}
use ctx_db.Raft.Log.Contiguous.{IsContiguous, NumberedFrom, IsContiguous-take, take-last}
use ctx_db.Raft.Apply.{Callbacks}
use ctx_db.Raft.Append.{
  replace_after, follow_commit, accept_entries, scan_configurations, configuration_committed,
  end_reply,
}
use ctx_db.Raft.Frame.{
  SameCore-trans, dump-SameCore, scan-SameCore, configuration_committed-SameCore, do_apply-SameCore,
}

module _ {S : Type 0} where
  -- The commit index that a node follows the leader to.
  abbrev pub followed : AppendEntriesRequest → RaftNode S → ℕ
  followed r n =
      if ltb n.commit_index r.leader_commit
      then min r.leader_commit (last_log_index n)
      else n.commit_index

  -- The log after the replacement, when the follower still has the entry in front.
  pub logs-replace_after :
      (r : AppendEntriesRequest) (n : RaftNode S)
      → IsContiguous n.logs
      → leb (get_base_index n) r.prev_log_index ≡ true
      → (replace_after r n).logs ≡ take (r.prev_log_index + 1 - base_of n.logs) n.logs ++ r.entries
  unfolding replace_after get_base_index last_log_index
  logs-replace_after r n c reach =
      elim (Bool-cases (leb (r.prev_log_index + 1) (last_index_of n.logs))) [
        | inl cut ↦ rw (reach, cut)
        | inr whole ↦ rw (reach, whole, take-last n.logs r.prev_log_index c (ground arith))
      ]

  term-replace_after :
      (r : AppendEntriesRequest) (n : RaftNode S)
      → (replace_after r n).current_term ≡ n.current_term
  unfolding replace_after
  term-replace_after r n = ground arith

  pub commit_index-replace_after :
      (r : AppendEntriesRequest) (n : RaftNode S)
      → (replace_after r n).commit_index ≡ n.commit_index
  unfolding replace_after
  commit_index-replace_after r n = ground arith

  -- Contiguity through the replacement of the tail.
  pub replace_after-IsContiguous :
      (r : AppendEntriesRequest) (n : RaftNode S)
      → IsContiguous n.logs
      → r.prev_log_index ≤ last_log_index n
      → NumberedFrom (r.prev_log_index + 1) r.entries
      → IsContiguous (replace_after r n).logs
  unfolding replace_after get_base_index last_log_index
  replace_after-IsContiguous r n c le h =
      elim (Bool-cases (leb (get_base_index n) r.prev_log_index)) [
        | inl reach ↦
            rw (logs-replace_after r n c reach)
              (IsContiguous-take n.logs r.entries r.prev_log_index c (leb→le _ _ reach) le h)
        | inr short ↦ rw short c
      ]

module _ {S : Type 0} (cb : Callbacks S) where
  pub follow_commit-lem :
      (r : AppendEntriesRequest) (n m : RaftNode S)
      → follow_commit cb r n ≡ some m
      → (m.logs ≡ n.logs) × (m.commit_index ≡ followed r n) × (m.current_term ≡ n.current_term)
  unfolding follow_commit
  follow_commit-lem r n m h = elim (Bool-cases (ltb n.commit_index r.leader_commit)) [
    | inl more ↦
        let same =
          do_apply-SameCore cb false
            (record n { commit_index = min r.leader_commit (last_log_index n) }) m (rw more at h) in
        ground (arith, more, same)
    | inr less ↦ ground arith
  ]

  -- An accepted request: the answer reports success, the term and the end of the new log.
  pub accept_entries-lem :
      (env : Env) (r : AppendEntriesRequest) (n m : RaftNode S) (o : Option AppendEntriesResponse)
      → accept_entries cb env r n ≡ some (o, m)
      → (m.logs ≡ (replace_after r n).logs)
        × (m.commit_index ≡ followed r (replace_after r n))
        × (m.current_term ≡ n.current_term)
        × (o ≡ (end_reply env r true m).0)
  unfolding accept_entries last_log_index last_log_term
  accept_entries-lem env r n m o h =
      let (_, run) = asserting-some (sizes_agree (replace_after r n)) _ h in
      let (n1, followed1, h1) = bind_some (follow_commit cb r (replace_after r n)) _ run in
      let (n2, scanned, h2) =
        bind_some (scan_configurations r.prev_log_index (last_log_index n1) n1) _ h1 in
      let done = configuration_committed n2 in
      let a = follow_commit-lem r (replace_after r n) n1 followed1 in
      let b =
        SameCore-trans (scan-SameCore r.prev_log_index (last_log_index n1) n1 n2 scanned)
          (SameCore-trans (configuration_committed-SameCore n2) (dump-SameCore done)) in
      ground (arith, a, b, dump-SameCore done, term-replace_after r n)
