-- ===== src/Raft/Append/Safety.antt =====
-- What every request to append leaves true of a follower (`on_append_entries_request`,
-- src/node_rpc_a.cpp).
use ctx_db.Prelude.{
  ℕ, ◌+◌, ◌≤◌, ◌≡◌, refl, sym, ap, ◌⊎◌, List, [], ◌∷◌, Option, some, take, arith, min, max, subst,
}
use ctx_db.Raft.Types.{RaftNode, LogEntry, Env, AppendEntriesRequest, AppendEntriesResponse}
use ctx_db.Raft.Log.{last_index_of, last_log_index}
use ctx_db.Raft.Log.Contiguous.{
  IsContiguous, NumberedFrom, NumberedFrom-take, IsContiguous-NumberedFrom,
}
use ctx_db.Raft.Apply.{Callbacks}
use ctx_db.Raft.Append.{on_append_entries_request}
use ctx_db.Raft.Append.Replace.{replace_after-IsContiguous, commit_index-replace_after}
use ctx_db.Raft.Append.Request.{Outcome, unchanged, cut, replaced, request-Outcome}

IsContiguous-cut : (k : ℕ) (l : List LogEntry) → IsContiguous l → IsContiguous (take k l)
IsContiguous-cut k [] c =
    IsContiguous-NumberedFrom 1 (take k []) (omega arith) (NumberedFrom-take k 1 [] tt)
IsContiguous-cut k (e ∷ es) c =
    IsContiguous-NumberedFrom e.index (take k (e ∷ es)) c.0
      (NumberedFrom-take k e.index (e ∷ es) (refl, c.1))

module _ {S : Type 0} where
  Outcome-IsContiguous :
      (r : AppendEntriesRequest) (n m : RaftNode S)
      → IsContiguous n.logs
      → NumberedFrom (r.prev_log_index + 1) r.entries
      → Outcome r n m
      → IsContiguous m.logs
  unfolding last_log_index
  Outcome-IsContiguous r n m c h (unchanged l _) = subst IsContiguous (sym l) c
  Outcome-IsContiguous r n m c h (cut k l _) =
      subst IsContiguous (sym l) (IsContiguous-cut k n.logs c)
  Outcome-IsContiguous r n m c h (replaced x xl xc le l _) = subst IsContiguous (sym l) (
      replace_after-IsContiguous r x (subst IsContiguous (sym xl) c)
        (subst (λ k. r.prev_log_index ≤ k) (ap last_index_of (sym xl)) le) h)

  Outcome-commit_index :
      (r : AppendEntriesRequest) (n m : RaftNode S)
      → Outcome r n m
      → (min n.commit_index (last_log_index m) ≤ m.commit_index)
        × (m.commit_index ≤ max n.commit_index r.leader_commit)
        × ((m.commit_index ≡ n.commit_index) ⊎ (m.commit_index ≤ last_log_index m))
  unfolding last_log_index
  Outcome-commit_index r n m (unchanged l c) = ground arith
  Outcome-commit_index r n m (cut k l c) = ground arith
  Outcome-commit_index r n m (replaced x xl xc le l c) =
      ground (arith, commit_index-replace_after r x, ap last_index_of l)

module _ {S : Type 0} (cb : Callbacks S) where
  -- Whatever a request does, accepted, rejected, revoked or ignored: if the follower's log was
  -- numbered one by one and the entries sent go on from `prev_log_index`, the log is numbered one by
  -- one afterwards.
  pub request-IsContiguous :
      (env : Env) (r : AppendEntriesRequest) (n m : RaftNode S) (o : Option AppendEntriesResponse)
      → IsContiguous n.logs
      → NumberedFrom (r.prev_log_index + 1) r.entries
      → on_append_entries_request cb env r n ≡ some (o, m)
      → IsContiguous m.logs
  request-IsContiguous env r n m o c h done =
      Outcome-IsContiguous r n m c h (request-Outcome cb env r n m o done).0

  -- A request never takes the term back. It takes the commit index back at most to the last index
  -- of the log that it leaves, never moves it forward past the leader's commit index, and moves it
  -- only to an index that the log then has.
  pub request-monotone :
      (env : Env) (r : AppendEntriesRequest) (n m : RaftNode S) (o : Option AppendEntriesResponse)
      → on_append_entries_request cb env r n ≡ some (o, m)
      → (n.current_term ≤ m.current_term)
        × (min n.commit_index (last_log_index m) ≤ m.commit_index)
        × (m.commit_index ≤ max n.commit_index r.leader_commit)
        × ((m.commit_index ≡ n.commit_index) ⊎ (m.commit_index ≤ last_log_index m))
  request-monotone env r n m o done =
      let (out, term) = request-Outcome cb env r n m o done in
      let (grows, below, inside) = Outcome-commit_index r n m out in (term, grows, below, inside)
