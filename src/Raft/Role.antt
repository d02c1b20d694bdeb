-- ===== src/Raft/Role.antt =====
-- A node's role, its timeouts and the checks in front of its handlers: src/node_state.cpp, and
-- `reset_election_timeout`, `valid_seq`, `handle_request_routine` and `set_seq_nr` of src/node.cpp
-- and src/node.h. No callback but those of the apply messages is set anywhere in the servers, so a
-- call of another one returns at once.
use ctx_db.Prelude.{
  ℕ, ◌+◌, ◌%◌, Bool, true, false, ◌&&◌, [], map, Text, same, ltb, ◌==◌, if◌then◌else◌,
}
use ctx_db.Raft.Types.{
  RaftNode, NodePeer, NodeState, follower, leader, Env, u64_mod, u64_max, is_follower, is_candidate,
  vote_for_none, default_index_cursor, seq_start,
}

module _ {S : Type 0} where
  unfoldable pub switch_to : NodeState → RaftNode S → RaftNode S
  switch_to s n = record n { state = s }

  unfoldable pub become_follower : ℕ → RaftNode S → RaftNode S
  unfolding switch_to
  become_follower new_term n = record (switch_to follower n) {
    current_term = new_term;
    vote_for = vote_for_none;
    last_seq = 0;
  }

  -- USE_COMMIT_INDEX is defined: replication starts after the commit index.
  unfoldable pub become_leader : RaftNode S → RaftNode S
  unfolding switch_to
  become_leader n = record (switch_to leader n) {
    leader_name = n.name;
    peers =
        map
          (λ (e : Text × NodePeer). (
            e.0,
            record (e.1) {
              match_index = default_index_cursor;
              next_index = n.commit_index + 1;
              seq = seq_start;
            },
          ))
          n.peers;
    last_tick = 0;
  }

  unfoldable pub reset_election_timeout : Env → RaftNode S → RaftNode S
  reset_election_timeout env n = record n {
    elect_timeout_due = (env.now + env.random) % u64_mod;
    election_fail_timeout_due = u64_max;
  }

  -- USE_MORE_REMOVE is defined, so the sequence number is checked.
  unfoldable pub valid_seq : ℕ → Bool → RaftNode S → Bool × RaftNode S
  valid_seq seq initial n =
      if initial
      then (true, record n { last_seq = seq })
      else if ltb n.last_seq seq
      then (true, record n { last_seq = seq })
      else (false, n)

  -- The three cases of `handle_request_routine`, each on the state that the one before left.
  abbrev follow_newer : Text → ℕ → RaftNode S → RaftNode S
  follow_newer from term n =
      if ltb n.current_term term then record (become_follower term n) { leader_name = from } else n

  abbrev learn_leader : Text → ℕ → RaftNode S → RaftNode S
  learn_leader from term n =
      if term == n.current_term && is_follower n.state && same n.leader_name []
      then record n { leader_name = from }
      else n

  abbrev lose_election : Text → ℕ → RaftNode S → RaftNode S
  lose_election from term n =
      if term == n.current_term && is_candidate n.state
      then record (become_follower term n) { leader_name = from }
      else n

  unfoldable pub handle_request_routine : Env → Text → ℕ → RaftNode S → Bool × RaftNode S
  unfolding become_follower reset_election_timeout
  handle_request_routine env from term n = if ltb term n.current_term then (false, n) else (
    true,
    lose_election from term
        (learn_leader from term (follow_newer from term (reset_election_timeout env n))),
  )

-- `set_seq_nr`: the number and the flag of a request, and the peer's next number.
abbrev pub seq_initial : NodePeer → Bool
seq_initial p = p.seq == 1

abbrev pub next_seq : NodePeer → NodePeer
next_seq p = record p { seq = (p.seq + 1) % u64_mod }
