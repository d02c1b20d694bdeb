-- ===== src/Raft/Tests/Cluster.antt =====
-- An election of a cluster of three: node a asks, node b votes, and node a wins.
use ctx_db.Prelude.{
  ◌≡◌, refl, sym, subst, inl, inr, true, List, [], ◌∷◌, Option, none, some, Text, same, arith,
  if◌then◌else◌,
}
use ctx_db.Raft.Types.{RaftNode, follower, RequestVoteRequest, RequestVoteResponse, NodePeer}
use ctx_db.Raft.Role.{handle_request_routine}
use ctx_db.Raft.Vote.{do_election, on_vote_request}
use ctx_db.Raft.Transport.{complete_vote}
use ctx_db.Raft.Cluster.{
  Cluster, Step, elect, respond, receive, hear, Reach, start, after, In, IsFresh, others, set_node,
}
use ctx_db.Raft.Cluster.Quorum.{AreMembers}
use ctx_db.Raft.Cluster.Reached.{IsInitial}
use ctx_db.Raft.Cluster.Safety.{one_leader_ever}
use ctx_db.Raft.Tests.{Recorder, env, name_a, name_b, name_c, peer, leader_of}

abbrev members : List Text
members = name_a ∷ name_b ∷ name_c ∷ []

members-AreMembers : AreMembers members
members-AreMembers = (
  λ e. ground (arith, e),
  λ i. ground (arith, i),
  (λ e. ground (arith, e), λ i. ground (arith, i), (λ e. ground (arith, e), λ i. i, tt)),
)

abbrev peer_of : Text → Text × NodePeer
peer_of k = (k, peer k 1)

abbrev fresh : Text → List (Text × NodePeer) → RaftNode Recorder
fresh k peers = record (leader_of []) {
  name = k;
  state = follower;
  current_term = 0;
  vote_for = [];
  peers = peers;
}

abbrev first_nodes : Text → RaftNode Recorder
first_nodes k =
    if same k name_a
    then fresh name_a (peer_of name_b ∷ peer_of name_c ∷ [])
    else if same k name_b
    then fresh name_b (peer_of name_a ∷ peer_of name_c ∷ [])
    else fresh name_c (peer_of name_a ∷ peer_of name_b ∷ [])

abbrev pub begins : Cluster Recorder
begins = record { nodes = first_nodes; responses = [] }

abbrev FreshAt : Text → Type 0
FreshAt k = IsFresh members k (first_nodes k)

a-IsFresh : FreshAt name_a
unfolding same others
a-IsFresh = record {
  name = refl;
  state = refl;
  steady = refl;
  peers = refl;
  active = ((refl, refl), ((refl, refl), tt));
  outbox = refl;
}

b-IsFresh : FreshAt name_b
unfolding same others
b-IsFresh = record {
  name = refl;
  state = refl;
  steady = refl;
  peers = refl;
  active = ((refl, refl), ((refl, refl), tt));
  outbox = refl;
}

c-IsFresh : FreshAt name_c
unfolding same others
c-IsFresh = record {
  name = refl;
  state = refl;
  steady = refl;
  peers = refl;
  active = ((refl, refl), ((refl, refl), tt));
  outbox = refl;
}

members-IsFresh : (k : Text) → In k members → FreshAt k
members-IsFresh k (inl e) = subst FreshAt (sym e) a-IsFresh
members-IsFresh k (inr (inl e)) = subst FreshAt (sym e) b-IsFresh
members-IsFresh k (inr (inr (inl e))) = subst FreshAt (sym e) c-IsFresh
members-IsFresh k (inr (inr (inr x))) = elim x [ ]

begins-IsInitial : IsInitial members begins
begins-IsInitial = record { nodes = members-IsFresh; responses = refl }

abbrev asking : Cluster Recorder
asking = record begins {
  nodes = set_node name_a (do_election env (begins.nodes name_a)) begins.nodes;
}

abbrev pub asked : RequestVoteRequest
asked = record {
  name = name_a;
  term = 1;
  last_log_index = 0;
  last_log_term = 0;
  time = 1000;
  seq = 1;
  initial = true;
}

abbrev vote : RequestVoteResponse
vote = record { name = name_b; term = 1; vote_granted = true; time = 1000; seq = 1 }

abbrev voted : Cluster Recorder
voted = record {
  nodes = set_node name_b (on_vote_request env asked (asking.nodes name_b)).1 asking.nodes;
  responses = (name_a, vote) ∷ [];
}

abbrev or_node : RaftNode Recorder → Option (RaftNode Recorder) → RaftNode Recorder
or_node n none = n
or_node n (some m) = m

abbrev winner : RaftNode Recorder
winner = or_node (voted.nodes name_a) (complete_vote name_b (some vote) (voted.nodes name_a))

abbrev led : Cluster Recorder
led = record voted { nodes = set_node name_a winner voted.nodes }

elects : Step members begins asking
unfolding same
elects = elect env name_a (inl refl) (omega arith)

votes : Step members asking voted
unfolding same do_election on_vote_request
votes = respond env name_a name_b asked vote _ (inl refl) (inr (inl refl)) (inl refl) refl

wins : Step members voted led
unfolding same do_election on_vote_request complete_vote
wins = receive name_a vote winner (inl refl) (inl refl) (omega arith) refl

run-Reach : Reach members begins led
run-Reach = after voted led (after asking voted (after begins asking start elects) votes) wins

-- Afterwards node b hears from the leader.
abbrev followed : Cluster Recorder
followed = record led {
  nodes = set_node name_b (handle_request_routine env name_a 1 (led.nodes name_b)).1 led.nodes;
}

one_leader_ever_example : name_a ≡ name_a
unfolding same do_election on_vote_request complete_vote handle_request_routine
one_leader_ever_example =
    one_leader_ever members begins led followed name_a name_a members-AreMembers begins-IsInitial
      run-Reach (after led followed start (hear env name_b name_a 1 (inr (inl refl)))) (inl refl)
      (inl refl) refl refl refl
