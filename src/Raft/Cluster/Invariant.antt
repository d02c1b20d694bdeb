-- ===== src/Raft/Cluster/Invariant.antt =====
-- What holds of the nodes and the responses of a cluster at all times (src/node_rpc_r.cpp).
use ctx_db.Prelude.{
  ℕ, ◌≤◌, ◌≡◌, ◌≢◌, sym, ◌∙◌, ◌⊎◌, inl, inr, true, false, List, [], ◌∷◌, none, Text,
}
use ctx_db.Raft.Types.{
  RaftNode, is_leader, is_candidate, request_vote, RequestVoteRequest, RequestVoteResponse,
}
use ctx_db.Raft.Vote.Elected.{Wins}
use ctx_db.Raft.Cluster.{Cluster, In, others, names_of, AreActive}
use ctx_db.Raft.Cluster.Quorum.{has_noted, AreMembers}

abbrev pub Responses : Type 0
Responses = List (Text × RequestVoteResponse)

-- A response by which v votes for k in term t was sent.
abbrev pub Voted : Responses → Text → ℕ → Text → Type 0
Voted rs v t k =
    (a : RequestVoteResponse) × In (k, a) rs × (a.vote_granted ≡ true) × (a.name ≡ v) × (a.term ≡ t)

pub member-nonempty : (k : Text) (l : List Text) → AreMembers l → In k l → k ≢ []
member-nonempty k [] d i = elim i [ ]
member-nonempty k (x ∷ xs) d (inl e) = λ h. d.0 (sym e ∙ h)
member-nonempty k (x ∷ xs) d (inr i) = member-nonempty k xs d.2 i

module _ {S : Type 0} where
  abbrev pub Runs : RaftNode S → Type 0
  Runs n = (is_candidate n.state ≡ true) ⊎ (is_leader n.state ≡ true)

  -- A node: a candidate or leader has its own vote, and every vote noted was sent; a leader has a
  -- majority of votes noted.
  pub record NodeHolds (l : List Text) (rs : Responses) (k : Text) (n : RaftNode S) : Type 0 where
    pub name : n.name ≡ k
    pub steady : n.trans_conf ≡ none
    pub peers : names_of n.peers ≡ others k l
    pub active : AreActive n.peers
    pub sent :
        (j : Text) (r : RequestVoteRequest)
        → In (j, request_vote r) n.outbox
        → (r.name ≡ k) × (j ≢ k)
    pub own : Runs n → n.vote_for ≡ k
    pub votes : Runs n → (v : Text) → has_noted v n.peers ≡ true → Voted rs v n.current_term k
    pub wins : is_leader n.state ≡ true → Wins n.peers

  -- What a vote that was sent says of the voter now: in the same term it stands, and the voter is no
  -- candidate.
  abbrev pub Bound : ℕ → Text → RaftNode S → Type 0
  Bound t k n =
      (t ≤ n.current_term)
      × (t ≡ n.current_term → (n.vote_for ≡ k) × (is_candidate n.state ≡ false))

  pub record Holds (members : List Text) (c : Cluster S) : Type 0 where
    pub each : (k : Text) → In k members → NodeHolds members c.responses k (c.nodes k)
    pub bound :
        (k : Text) (a : RequestVoteResponse)
        → In (k, a) c.responses
        → a.vote_granted ≡ true
        → In k members × Bound a.term k (c.nodes a.name)
    pub unique :
        (k k' : Text) (a a' : RequestVoteResponse)
        → In (k, a) c.responses
        → In (k', a') c.responses
        → a.vote_granted ≡ true
        → a'.vote_granted ≡ true
        → a.name ≡ a'.name
        → a.term ≡ a'.term
        → k ≡ k'
