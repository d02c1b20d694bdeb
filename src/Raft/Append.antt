-- ===== src/Raft/Append.antt =====
-- The follower's side of replication: `on_append_entries_request` (src/node_rpc_a.cpp), with
-- USE_MORE_REMOVE defined.
pub mod Replace
pub mod Request
pub mod Safety
pub mod Copied
pub mod Revoke
pub mod Steps
pub mod Answers
pub mod Stuck
use ctx_db.Prelude.{
  ℕ, zero, suc, ◌+◌, ◌-◌, min, max, Bool, true, false, not, ◌&&◌, ◌||◌, List, [], ◌∷◌, ◌++◌, Option,
  none, some, take, ltb, leb, ◌==◌, if◌then◌else◌, ◌>>=◌, asserting,
}
use ctx_db.Raft.Types.{
  RaftNode, LogEntry, Configuration, ConfState, old_joint, joint_new, Env, AppendEntriesRequest,
  AppendEntriesResponse, default_index_cursor, default_term_cursor, nuft_cmd_trans,
  nuft_cmd_trans_new,
}
use ctx_db.Raft.Log.{get_base_index, last_log_index, last_log_term, gl, sizes_agree}
use ctx_db.Raft.Peers.{is_running, is_peer_receive_enabled, has_peer}
use ctx_db.Raft.Persist.{dump}
use ctx_db.Raft.Role.{handle_request_routine, valid_seq}
use ctx_db.Raft.Apply.{Callbacks, do_apply}
use ctx_db.Raft.Change.{
  on_update_configuration_joint, on_update_configuration_new, on_update_configuration_finish,
}

module _ {S : Type 0} where
  -- The loop that revokes the entries of the wrong term: from the index down to -1, the first entry
  -- of another term stays the last one. Gives the revoked log and the index and the term reported.
  unfoldable pub revoke : RaftNode S → ℕ → ℕ → Option (List LogEntry × ℕ × ℕ)
  unfolding gl get_base_index
  revoke n wrong_term zero = some ([], default_index_cursor, default_term_cursor)
  revoke n wrong_term (suc i) = do
    e ← gl n (suc i)
    let further = revoke n wrong_term i
    if e.term == wrong_term
        then further
        else some (take (suc i + 1 - get_base_index n) n.logs, suc i, e.term)

  -- The label NO_CONFLICT: what follows `prev_log_index` is erased and the new entries are
  -- appended, unless that index was compacted away.
  unfoldable pub replace_after : AppendEntriesRequest → RaftNode S → RaftNode S
  unfolding get_base_index last_log_index
  replace_after r n =
      if leb (get_base_index n) r.prev_log_index
      then record n {
        logs =
            (if leb (r.prev_log_index + 1) (last_log_index n)
              then take (r.prev_log_index + 1 - get_base_index n) n.logs
              else n.logs)
            ++ r.entries;
      }
      else n

  -- The loop over the entries from the last one back: an entry for C_{old,new} ends it.
  unfoldable pub scan_configurations : ℕ → ℕ → RaftNode S → Option (RaftNode S)
  unfolding gl get_base_index on_update_configuration_joint on_update_configuration_new
  scan_configurations prev zero n = some n
  scan_configurations prev (suc i) n =
      let found = (do
        e ← gl n (suc i)
        let further =
            scan_configurations prev i
              (if e.command == nuft_cmd_trans_new then on_update_configuration_new e n else n)
        if e.command == nuft_cmd_trans then on_update_configuration_joint e n else further) in
      if leb (max 1 prev) (suc i) && leb (get_base_index n) (suc i) then found else some n

  -- The first case compares where it means to assign, so that it only writes the file.
  abbrev committed_in : Configuration → ConfState → RaftNode S → RaftNode S
  committed_in c old_joint n = if leb c.index n.commit_index then dump n else n
  committed_in c joint_new n =
      if leb c.index2 n.commit_index then on_update_configuration_finish n else n
  committed_in c _ n = n

  unfoldable pub configuration_committed : RaftNode S → RaftNode S
  unfolding dump on_update_configuration_finish
  configuration_committed n = elim n.trans_conf [ none ↦ n | some c ↦ committed_in c c.state n ]

  -- The label `end`: the answer tells the last index and term of the log as it is now.
  abbrev pub end_reply :
      Env → AppendEntriesRequest → Bool → RaftNode S → Option AppendEntriesResponse × RaftNode S
  end_reply env r success n = (
    some (record {
      name = n.name;
      term = n.current_term;
      success = success;
      last_log_index = last_log_index n;
      last_log_term = last_log_term n;
      time = env.now;
      seq = r.seq;
    }),
    dump n,
  )

  -- The label `end2`, after a revocation.
  abbrev pub revoked_reply :
      Env
      → AppendEntriesRequest
      → List LogEntry × ℕ × ℕ
      → RaftNode S
      → Option AppendEntriesResponse × RaftNode S
  revoked_reply env r (logs, index, term) n = (
    some (record {
      name = n.name;
      term = n.current_term;
      success = false;
      last_log_index = index;
      last_log_term = term;
      time = env.now;
      seq = r.seq;
    }),
    dump (record n { logs = logs }),
  )

module _ {S : Type 0} (cb : Callbacks S) where
  -- The commit index follows the leader's, as far as the log goes.
  unfoldable pub follow_commit : AppendEntriesRequest → RaftNode S → Option (RaftNode S)
  unfolding last_log_index do_apply
  follow_commit r n =
      if ltb n.commit_index r.leader_commit
      then do_apply cb false (record n { commit_index = min r.leader_commit (last_log_index n) })
      else some n

  -- From NO_CONFLICT to the answer. The assertion of `last_log_index` is the same at all its calls
  -- here, which have one log.
  unfoldable pub accept_entries :
      Env → AppendEntriesRequest → RaftNode S → Option (Option AppendEntriesResponse × RaftNode S)
  unfolding sizes_agree replace_after follow_commit scan_configurations configuration_committed dump
      last_log_term
  accept_entries env r n = asserting (sizes_agree (replace_after r n)) (do
    n' ← follow_commit r (replace_after r n)
    n'' ← scan_configurations r.prev_log_index (last_log_index n') n'
    some (end_reply env r true (configuration_committed n'')))

  -- The comparison of `prev_log_index` and `prev_log_term` with the log.
  unfoldable pub match_log :
      Env → AppendEntriesRequest → RaftNode S → Option (Option AppendEntriesResponse × RaftNode S)
  unfolding sizes_agree revoke accept_entries
  match_log env r n =
      let accepted = accept_entries env r n in
      asserting (not (leb 1 r.prev_log_index) || sizes_agree n) (
        if leb 1 r.prev_log_index && ltb (last_log_index n) r.prev_log_index
        then some (end_reply env r false n)
        else if r.prev_log_index == default_index_cursor
        then accepted
        else if ltb (get_base_index n) r.prev_log_index
        then (do
          e ← gl n r.prev_log_index
          let revoked = (do
            k ← revoke n e.term (r.prev_log_index - 1)
            some (revoked_reply env r k n))
          if r.prev_log_term == e.term then accepted else revoked)
        else accepted)

  abbrev pub after_routine :
      Env
      → AppendEntriesRequest
      → Bool × RaftNode S
      → Option (Option AppendEntriesResponse × RaftNode S)
  after_routine env r (true, n) =
      let (fresh, n') = valid_seq r.seq r.initial n in
      let matched = match_log env r n' in if fresh then matched else some (none, n')
  after_routine env r (false, n) = asserting (sizes_agree n) (some (end_reply env r false n))

  -- The inner `none` is the result -1: no answer is sent. The outer `none` is a failed assertion or
  -- an access out of bounds.
  unfoldable pub on_append_entries_request :
      Env → AppendEntriesRequest → RaftNode S → Option (Option AppendEntriesResponse × RaftNode S)
  unfolding is_running is_peer_receive_enabled has_peer handle_request_routine valid_seq match_log
  on_append_entries_request env r n =
      if not (is_running n) || not (is_peer_receive_enabled n r.name)
      then some (none, n)
      else if ltb r.time n.start_timepoint
      then some (none, n)
      else if not (has_peer n r.name)
      then some (none, n)
      else after_routine env r (handle_request_routine env r.name r.term n)
