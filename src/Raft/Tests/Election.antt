-- ===== src/Raft/Tests/Election.antt =====
-- The theorems on votes and elections at a small cluster.
use ctx_db.Prelude.{◌<◌, ◌≤◌, ◌≡◌, refl, ◌⊎◌, true, [], Option, none, some, arith}
use ctx_db.Raft.Types.{RaftNode, NodePeer, RequestVoteResponse, is_leader, is_candidate}
use ctx_db.Raft.Peers.{find_peer}
use ctx_db.Raft.Vote.{on_vote_request, on_vote_response}
use ctx_db.Raft.Vote.Safety.{UpToDate, granted_conditions}
use ctx_db.Raft.Vote.Elected.{Wins, noted, leader_needs_majority, stale_vote_counts}
use ctx_db.Raft.Tests.{Recorder, env, name_a, name_b, node_a, candidate_a, vote_request}

abbrev granted : RequestVoteResponse
granted = record { name = name_a; term = 3; vote_granted = true; time = 1000; seq = 1 }

abbrev voted : RaftNode Recorder
voted = (on_vote_request env (vote_request name_b) node_a).1

grants : on_vote_request env (vote_request name_b) node_a ≡ (some granted, voted)
unfolding on_vote_request
grants = refl

granted_conditions_example :
    (granted.term ≡ 3)
    × (voted.current_term ≡ 3)
    × (node_a.current_term ≤ 3)
    × (voted.vote_for ≡ name_b)
    × UpToDate (vote_request name_b) node_a
    × ((node_a.current_term < 3) ⊎ (node_a.vote_for ≡ []) ⊎ (node_a.vote_for ≡ name_b))
granted_conditions_example =
    granted_conditions env (vote_request name_b) node_a voted granted grants refl

abbrev vote_of_b : RequestVoteResponse
vote_of_b = record { name = name_b; term = 2; vote_granted = true; time = 1000; seq = 1 }

abbrev count_of : Option (RaftNode Recorder) → RaftNode Recorder
count_of none = candidate_a
count_of (some n) = n

abbrev elected : RaftNode Recorder
elected = count_of (on_vote_response vote_of_b candidate_a)

wins : on_vote_response vote_of_b candidate_a ≡ some elected
unfolding on_vote_response
wins = refl

leads : is_leader elected.state ≡ true
unfolding on_vote_response
leads = refl

leader_needs_majority_example :
    (is_candidate candidate_a.state ≡ true)
    × (elected.current_term ≡ 2)
    × (2 ≤ 2)
    × ((p : NodePeer) × (find_peer name_b candidate_a.peers ≡ some p)
        × (p.voting_rights ≡ true)
        × Wins (noted vote_of_b p candidate_a))
leader_needs_majority_example =
    leader_needs_majority vote_of_b candidate_a elected refl refl wins leads

abbrev stale_vote : RequestVoteResponse
stale_vote = record vote_of_b { term = 1 }

stale_vote_counts_example :
    on_vote_response stale_vote candidate_a
    ≡ on_vote_response (record stale_vote { term = 2 }) candidate_a
stale_vote_counts_example = stale_vote_counts stale_vote candidate_a (omega arith)
