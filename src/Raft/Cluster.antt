-- ===== src/Raft/Cluster.antt =====
-- A cluster of nodes that elect a leader: the handlers of src/node_rpc_r.cpp, the check that the
-- handlers for a leader's messages begin with (`handle_request_routine`, src/node.h), and the end of a
-- call (src/client_async.cpp), as steps of the whole.
-- The members are fixed, and no configuration is being changed. Messages may be lost, delayed, taken
-- over in any order and delivered twice. A response is delivered only to a node whose term is not
-- newer. A leader's message may come from anywhere, in any term. Nodes do not restart.
pub mod Quorum
pub mod Handled
pub mod Counted
pub mod Invariant
pub mod Update
pub mod Kept
pub mod Heard
pub mod Reached
pub mod History
pub mod Safety
use ctx_db.Prelude.{
  ℕ, ◌+◌, ◌≤◌, ◌<◌, ◌≡◌, ◌⊎◌, Bool, true, false, List, [], ◌∷◌, none, some, Text, same, All,
  if◌then◌else◌,
}
use ctx_db.Raft.Types.{
  RaftNode, NodePeer, follower, Env, u64_mod, Message, request_vote, RequestVoteRequest,
  RequestVoteResponse,
}
use ctx_db.Raft.Vote.{do_election, on_vote_request}
use ctx_db.Raft.Role.{handle_request_routine}
use ctx_db.Raft.Transport.{complete_vote}

-- A value stands in a list.
abbrev pub In : {A : Type 0} → A → List A → Type 0
In x [] = ⊥
In x (y ∷ ys) = (x ≡ y) ⊎ In x ys

-- The names in a list other than a given one.
unfoldable pub others : Text → List Text → List Text
unfolding same
others a [] = []
others a (x ∷ xs) = let rest = others a xs in if same x a then rest else x ∷ rest

abbrev pub names_of : List (Text × NodePeer) → List Text
names_of [] = []
names_of ((k, p) ∷ ps) = k ∷ names_of ps

-- Every peer is voted with and sent to.
abbrev pub AreActive : List (Text × NodePeer) → Type 0
AreActive = All (λ (e : Text × NodePeer). (e.1.voting_rights ≡ true) × (e.1.send_enabled ≡ true))

-- The nodes by their names, and the responses sent to each.
pub record Cluster (S : Type 0) : Type 0 where
  pub nodes : Text → RaftNode S
  pub responses : List (Text × RequestVoteResponse)

module _ {S : Type 0} where
  abbrev pub set_node : Text → RaftNode S → (Text → RaftNode S) → Text → RaftNode S
  set_node k n nodes j = if same k j then n else nodes j

  -- A member starts an election; a member answers a request that another one has sent, or does not;
  -- a member hears from any node as from a leader, and may step down; and a candidate takes in a
  -- response.
  pub data Step (members : List Text) (c : Cluster S) : Cluster S → Type 0 where
    elect :
        (env : Env) (k : Text)
        → In k members
        → (c.nodes k).current_term + 1 < u64_mod
        → Step members c (record c { nodes = set_node k (do_election env (c.nodes k)) c.nodes })
    respond :
        (env : Env) (k j : Text) (r : RequestVoteRequest) (a : RequestVoteResponse) (m : RaftNode S)
        → In k members
        → In j members
        → In (j, request_vote r) (c.nodes k).outbox
        → on_vote_request env r (c.nodes j) ≡ (some a, m)
        → Step members c (record { nodes = set_node j m c.nodes; responses = (k, a) ∷ c.responses })
    ignore :
        (env : Env) (k j : Text) (r : RequestVoteRequest) (m : RaftNode S)
        → In k members
        → In j members
        → In (j, request_vote r) (c.nodes k).outbox
        → on_vote_request env r (c.nodes j) ≡ (none, m)
        → Step members c (record c { nodes = set_node j m c.nodes })
    hear :
        (env : Env) (j from : Text) (term : ℕ)
        → In j members
        → Step members c (record c {
          nodes = set_node j (handle_request_routine env from term (c.nodes j)).1 c.nodes;
        })
    receive :
        (k : Text) (r : RequestVoteResponse) (m : RaftNode S)
        → In k members
        → In (k, r) c.responses
        → (c.nodes k).current_term ≤ r.term
        → complete_vote r.name (some r) (c.nodes k) ≡ some m
        → Step members c (record c { nodes = set_node k m c.nodes })

  -- Any number of steps.
  pub data Reach (members : List Text) (c : Cluster S) : Cluster S → Type 0 where
    start : Reach members c c
    after : (d e : Cluster S) → Reach members c d → Step members d e → Reach members c e

  -- A node as it starts: a follower with all the other members as its peers, and nothing sent.
  pub record IsFresh (members : List Text) (k : Text) (n : RaftNode S) : Type 0 where
    pub name : n.name ≡ k
    pub state : n.state ≡ follower
    pub steady : n.trans_conf ≡ none
    pub peers : names_of n.peers ≡ others k members
    pub active : AreActive n.peers
    pub outbox : n.outbox ≡ []
