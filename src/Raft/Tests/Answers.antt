-- ===== src/Raft/Tests/Answers.antt =====
-- A request whose entry in front conflicts with a follower's log: in a whole log, and behind a
-- snapshot.
use ctx_db.Prelude.{same, ◌≡◌, refl, inl, true, [], ◌∷◌, none, arith, ◌==◌}
use ctx_db.Raft.Types.{RaftNode, AppendEntriesRequest}
use ctx_db.Raft.Log.{gl, entry_at, base_of, last_index_of}
use ctx_db.Raft.Peers.{is_running, is_peer_receive_enabled, has_peer}
use ctx_db.Raft.Role.{handle_request_routine, valid_seq}
use ctx_db.Raft.Append.{on_append_entries_request}
use ctx_db.Raft.Append.Revoke.{Succeeds}
use ctx_db.Raft.Append.Steps.{gl-All}
use ctx_db.Raft.Append.Answers.{request_answered}
use ctx_db.Raft.Append.Stuck.{conflict_behind_snapshot, IsStuckOn}
use ctx_db.Raft.Log.{get_base_index}
use ctx_db.Raft.Tests.{Recorder, recorder, env, entry, node_a, name_b}

abbrev conflicting : AppendEntriesRequest
conflicting = record {
  name = name_b;
  term = 3;
  prev_log_index = 2;
  prev_log_term = 3;
  leader_commit = 1;
  entries = entry 3 3 ∷ [];
  time = 900;
  seq = 1;
  initial = true;
}

request_answered_example : Succeeds (on_append_entries_request recorder env conflicting node_a)
unfolding get_base_index base_of
request_answered_example =
    request_answered recorder env conflicting node_a (omega arith, (refl, tt)) (refl, tt)
      (refl, (refl, tt)) (refl, tt) (omega arith) (λ e at found differ. inl (omega arith))

abbrev compacted : RaftNode Recorder
compacted = record node_a { logs = entry 5 2 ∷ entry 6 2 ∷ []; commit_index = 5; last_applied = 5 }

abbrev overtaken : AppendEntriesRequest
overtaken = record conflicting { prev_log_index = 6; entries = entry 7 3 ∷ [] }

compacted-IsStuckOn : IsStuckOn overtaken (entry 6 2) compacted.logs
unfolding base_of entry_at gl last_index_of
compacted-IsStuckOn = (
  omega arith,
  omega arith,
  omega arith,
  refl,
  refl,
  λ j e lo hi at. gl-All (λ f. (f.term == 2) ≡ true) compacted j e (refl, (refl, tt)) at,
)

conflict_behind_snapshot_example : on_append_entries_request recorder env overtaken compacted ≡ none
unfolding is_running is_peer_receive_enabled has_peer handle_request_routine valid_seq same
conflict_behind_snapshot_example =
    conflict_behind_snapshot recorder env overtaken compacted (entry 6 2) (omega arith, (refl, tt))
      compacted-IsStuckOn refl refl (omega arith) refl (omega arith) refl
