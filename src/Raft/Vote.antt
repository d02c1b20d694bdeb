-- ===== src/Raft/Vote.antt =====
-- Elections (src/node_rpc_r.cpp).
pub mod Safety
pub mod Once
pub mod Saved
pub mod Restarts
pub mod Elected
use ctx_db.Prelude.{
  ℕ, ◌+◌, ◌%◌, Bool, true, false, not, ◌&&◌, ◌||◌, List, [], ◌∷◌, ◌++◌, Option, none, some, Text,
  same, ltb, ◌==◌, if◌then◌else◌, ◌>>=◌,
}
use ctx_db.Raft.Types.{
  RaftNode, NodePeer, candidate, is_candidate, Env, u64_mod, u64_max, Message, request_vote,
  RequestVoteRequest, RequestVoteResponse, vote_for_none, default_election_fail_timeout_interval,
}
use ctx_db.Raft.Log.{last_log_index, last_log_term}
use ctx_db.Raft.Peers.{find_peer, set_peer, is_running, is_peer_receive_enabled, test_election}
use ctx_db.Raft.Persist.{dump}
use ctx_db.Raft.Role.{
  switch_to, become_follower, become_leader, reset_election_timeout, valid_seq, seq_initial,
  next_seq,
}

module _ {S : Type 0} where
  unfoldable pub vote_request_to : Env → RaftNode S → NodePeer → RequestVoteRequest
  unfolding last_log_index last_log_term
  vote_request_to env n p = record {
    name = n.name;
    term = n.current_term;
    last_log_index = last_log_index n;
    last_log_term = last_log_term n;
    time = env.now;
    seq = p.seq;
    initial = seq_initial p;
  }

  -- The loop over the peers: one to which sending is disabled is skipped.
  unfoldable pub ask_votes :
      Env → RaftNode S → List (Text × NodePeer) → List (Text × NodePeer) × List (Text × Message)
  unfolding vote_request_to
  ask_votes env n [] = ([], [])
  ask_votes env n ((k, p) ∷ ps) =
      let (peers, sent) = ask_votes env n ps in
      if p.send_enabled
      then (
        (k, next_seq (record p { voted_for_me = false })) ∷ peers,
        (k, request_vote (vote_request_to env n p)) ∷ sent,
      )
      else ((k, p) ∷ peers, sent)

  -- The assignments up to the loop.
  abbrev pub start_election : Env → RaftNode S → RaftNode S
  start_election env n =
      record (dump (record (switch_to candidate n) {
        current_term = (n.current_term + 1) % u64_mod;
        vote_for = n.name;
      })) {
        election_fail_timeout_due = (env.now + default_election_fail_timeout_interval) % u64_mod;
        leader_name = [];
        elect_timeout_due = u64_max;
      }

  unfoldable pub do_election : Env → RaftNode S → RaftNode S
  unfolding switch_to dump ask_votes
  do_election env n =
      let n' = start_election env n in
      let (peers, sent) = ask_votes env n' n'.peers in
      record n' { peers = peers; outbox = n'.outbox ++ sent }

  -- The label `end`.
  abbrev pub vote_reply :
      Env → RequestVoteRequest → Bool → RaftNode S → Option RequestVoteResponse × RaftNode S
  vote_reply env r granted n = (
    some (record {
      name = n.name;
      term = n.current_term;
      vote_granted = granted;
      time = env.now;
      seq = r.seq;
    }),
    dump n,
  )

  -- The sequence number is checked last; where it is stale there is no answer.
  abbrev pub grant :
      Env → RequestVoteRequest → Bool × RaftNode S → Option RequestVoteResponse × RaftNode S
  grant env r (true, n) = vote_reply env r true (record n { leader_name = []; vote_for = r.name })
  grant env r (false, n) = (none, n)

  -- The tests on the vote already given and on the logs.
  unfoldable pub decide_vote :
      Env → RequestVoteRequest → RaftNode S → Option RequestVoteResponse × RaftNode S
  unfolding last_log_index last_log_term valid_seq dump
  decide_vote env r n =
      if not (same n.vote_for vote_for_none) && not (same n.vote_for r.name)
      then vote_reply env r false n
      else if ltb r.last_log_term (last_log_term n)
      then vote_reply env r false n
      else if r.last_log_term == last_log_term n && ltb r.last_log_index (last_log_index n)
      then vote_reply env r false n
      else grant env r (valid_seq r.seq r.initial n)

  -- `none` is the result -1: no answer is sent.
  unfoldable pub on_vote_request :
      Env → RequestVoteRequest → RaftNode S → Option RequestVoteResponse × RaftNode S
  unfolding is_running is_peer_receive_enabled become_follower reset_election_timeout decide_vote
  on_vote_request env r n =
      if not (is_running n) || not (is_peer_receive_enabled n r.name)
      then (none, n)
      else if ltb r.time n.start_timepoint
      then (none, n)
      else if ltb n.current_term r.term
      then decide_vote env r
          (reset_election_timeout env (record (become_follower r.term n) { leader_name = [] }))
      else if ltb r.term n.current_term
      then vote_reply env r false n
      else decide_vote env r n

  abbrev pub win_if : Bool × RaftNode S → RaftNode S
  win_if (true, n) = become_leader n
  win_if (false, n) = n

  -- The vote is noted once, and the election is tested whatever the answer was.
  abbrev pub count_vote : RequestVoteResponse → NodePeer → RaftNode S → Option (RaftNode S)
  count_vote r p n = do
    won ← test_election (
        if not p.voted_for_me && r.vote_granted
        then record n { peers = set_peer r.name (record p { voted_for_me = true }) n.peers }
        else n)
    some (win_if won)

  -- `none` is a failed assertion of `test_election`.
  unfoldable pub on_vote_response : RequestVoteResponse → RaftNode S → Option (RaftNode S)
  unfolding find_peer set_peer become_follower become_leader dump test_election
  on_vote_response r n =
      if ltb r.time n.start_timepoint
      then some n
      else if not (is_candidate n.state)
      then some n
      else elim (find_peer r.name n.peers) [
        | none ↦ some n
        | some p ↦
            if p.voting_rights
            then (if ltb n.current_term r.term
                then some (dump (become_follower r.term n))
                else count_vote r p n)
            else some n
      ]
