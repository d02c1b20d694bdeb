-- ===== src/Raft/Cluster/Kept.antt =====
-- What a step leaves of one node of a cluster (src/node_rpc_r.cpp).
use ctx_db.Prelude.{
  ◌⊎◌, false, Bool-cases, ◌+◌, ◌≤◌, ◌<◌, ◌≡◌, ◌≢◌, sym, ap, ◌∙◌, inl, inr, Option, List, [], none,
  some, Text, arith, subst,
}
use ctx_db.Raft.Types.{
  is_candidate, RaftNode, is_leader, Env, u64_mod, request_vote, RequestVoteRequest,
  RequestVoteResponse,
}
use ctx_db.Raft.Vote.{do_election, on_vote_request}
use ctx_db.Raft.Vote.Elected.{Wins, election_starts}
use ctx_db.Raft.Vote.Safety.{answered-lem, joined-lem, ignored-lem}
use ctx_db.Raft.Cluster.{In, names_of, AreActive}
use ctx_db.Raft.Cluster.Quorum.{others-ne, has_noted}
use ctx_db.Raft.Cluster.Handled.{Asked, do_election-lem}
use ctx_db.Raft.Cluster.Counted.{Counted}
use ctx_db.Raft.Cluster.Invariant.{Runs, Responses, Voted, NodeHolds}
use ctx_db.Raft.Cluster.Update.{Keeps}

module _ {S : Type 0} where
  -- A node that an election leaves.
  pub elected-NodeHolds :
      (members : List Text) (rs : Responses) (k : Text) (env : Env) (n : RaftNode S)
      → n.current_term + 1 < u64_mod
      → NodeHolds members rs k n
      → NodeHolds members rs k (do_election env n)
  elected-NodeHolds members rs k env n small h =
      let (name, steady, term, vote, names, active, fresh, sent) =
        do_election-lem env n h.active small in
      let is_candidate' = (election_starts env n).0 in
      record {
        name = name ∙ h.name;
        steady = steady ∙ h.steady;
        peers = names ∙ h.peers;
        active = active;
        sent = λ j r i. elim (sent j r i) [
          | inl before ↦ h.sent j r before
          | inr (mine, to) ↦ (mine ∙ h.name, others-ne k j members (subst (λ l. In j l) h.peers to))
        ];
        own = λ _. vote ∙ h.name;
        votes = λ _ v e. ground (arith, e, fresh v);
        wins = λ leads. ground (arith, is_candidate', leads);
      }

  -- In a term, a vote that was given is kept.
  abbrev pub KeepsVote : RaftNode S → RaftNode S → Type 0
  KeepsVote n m =
      (n.current_term ≤ m.current_term)
      × (n.current_term ≡ m.current_term → (m.vote_for ≡ n.vote_for) ⊎ (n.vote_for ≡ []))

  pub Asked-Keeps : (n m : RaftNode S) → KeepsVote n m → Asked n m → Keeps n m
  Asked-Keeps n m (le, kept) (_, _, _, _, role) = (
    le,
    λ e. (
      elim (kept e) [ inl same_vote ↦ inl same_vote | inr no_vote ↦ inr (inl no_vote) ],
      λ runs. elim role [
        | inl (_, same_state) ↦ ap is_candidate (sym same_state) ∙ runs
        | inr (newer, follows) ↦ ground (arith, runs, follows)
      ],
    ),
  )

  -- In a term, a node that gets a vote request keeps the vote that it has given.
  pub request-KeepsVote :
      (env : Env) (r : RequestVoteRequest) (n m : RaftNode S) (o : Option RequestVoteResponse)
      → on_vote_request env r n ≡ (o, m)
      → KeepsVote n m
  request-KeepsVote env r n m none h = ground (arith, ignored-lem env r n m h)
  request-KeepsVote env r n m (some a) h = elim (answered-lem env r n m a h) [
    | inl (le, (term, kept, out), _) ↦ (
      omega (arith, kept),
      λ _. elim out [
        | inl (_, same_vote) ↦ inl same_vote
        | inr (_, _, inl no_vote) ↦ inr no_vote
        | inr (to_it, _, inr again) ↦ inl (to_it ∙ sym again)
      ],
    )
    | inr (lt, (term, kept, out)) ↦
        let now = kept ∙ (joined-lem env r n).0 in
        (omega (arith, now, lt), λ e. absurd (omega (arith, now, lt, e)))
  ]

  -- A node that a vote request leaves.
  pub Asked-NodeHolds :
      (members : List Text) (rs : Responses) (k : Text) (n m : RaftNode S)
      → k ≢ []
      → KeepsVote n m
      → Asked n m
      → NodeHolds members rs k n
      → NodeHolds members rs k m
  Asked-NodeHolds members rs k n m real kept (name, steady, peers, outbox, role) h = record {
    name = name ∙ h.name;
    steady = steady ∙ h.steady;
    peers = ap names_of peers ∙ h.peers;
    active = subst AreActive (sym peers) h.active;
    sent =
        subst
          (λ l.
            (j : Text) (r : RequestVoteRequest) → In (j, request_vote r) l → (r.name ≡ k) × (j ≢ k))
          (sym outbox) h.sent;
    own = λ runs. elim role [
      | inl (same_term, same_state) ↦
          let mine = h.own (ground (arith, runs, same_state)) in
          elim (kept.1 (sym same_term)) [
            | inl same_vote ↦ same_vote ∙ mine
            | inr no_vote ↦ absurd (real (sym mine ∙ no_vote))
          ]
      | inr (newer, follows) ↦ ground (arith, runs, follows)
    ];
    votes = λ runs v e. elim role [
      | inl (same_term, same_state) ↦
          subst (λ t. Voted rs v t k) (sym same_term)
            (h.votes (ground (arith, runs, same_state)) v (ap (has_noted v) (sym peers) ∙ e))
      | inr (newer, follows) ↦ ground (arith, runs, follows)
    ];
    wins = λ leads. elim role [
      | inl (same_term, same_state) ↦
          subst Wins (sym peers) (h.wins (ap is_leader (sym same_state) ∙ leads))
      | inr (newer, follows) ↦ ground (arith, leads, follows)
    ];
  }

  -- A node that a response leaves: what was noted by it was sent to the node in its term.
  pub Counted-NodeHolds :
      (members : List Text) (rs : Responses) (k : Text) (r : RequestVoteResponse) (n m : RaftNode S)
      → In (k, r) rs
      → n.current_term ≤ r.term
      → Counted r n m
      → NodeHolds members rs k n
      → NodeHolds members rs k m
  Counted-NodeHolds members rs k r n m sent le (inl same_node) h =
      subst (NodeHolds members rs k) (sym same_node) h
  Counted-NodeHolds members rs k r n m sent le
        (inr (inl (name, steady, outbox, peers, newer, follows))) h =
      record {
        name = name ∙ h.name;
        steady = steady ∙ h.steady;
        peers = ap names_of peers ∙ h.peers;
        active = subst AreActive (sym peers) h.active;
        sent =
            subst
              (λ l.
                (j : Text) (q : RequestVoteRequest)
                → In (j, request_vote q) l
                → (q.name ≡ k) × (j ≢ k))
              (sym outbox) h.sent;
        own = λ runs. ground (arith, runs, follows);
        votes = λ runs v e. ground (arith, runs, follows);
        wins = λ leads. ground (arith, leads, follows);
      }
  Counted-NodeHolds members rs k r n m sent le
        (inr (inr (name, steady, outbox, term, vote, runs, old, (names, active, only), out))) h =
      record {
        name = name ∙ h.name;
        steady = steady ∙ h.steady;
        peers = names ∙ h.peers;
        active = active;
        sent =
            subst
              (λ l.
                (j : Text) (q : RequestVoteRequest)
                → In (j, request_vote q) l
                → (q.name ≡ k) × (j ≢ k))
              (sym outbox) h.sent;
        own = λ _. vote ∙ h.own (inl runs);
        votes = λ _ v e.
            subst (λ t. Voted rs v t k) (sym term)
              (elim (only v e) [
                | inl before ↦ h.votes (inl runs) v before
                | inr (is_v, granted) ↦ (r, sent, granted, sym is_v, omega (arith, le, old))
              ]);
        wins = λ leads. elim out [
          | inl same_state ↦ ground (arith, leads, same_state, runs)
          | inr wins ↦ wins
        ];
      }

  pub Counted-Keeps : (r : RequestVoteResponse) (n m : RaftNode S) → Counted r n m → Keeps n m
  Counted-Keeps r n m (inl same_node) = ground (arith, same_node)
  Counted-Keeps r n m (inr (inl (_, _, _, _, newer, _))) = ground (arith, newer)
  Counted-Keeps r n m (inr (inr (_, _, _, term, vote, runs, _, _, _))) =
      (omega (arith, term), λ _. (inl vote, λ _. runs))

  -- A node that votes for another one is no candidate.
  pub voter-no_candidate :
      (n m : RaftNode S) (r : RequestVoteRequest) (k j : Text)
      → j ≢ []
      → j ≢ k
      → r.name ≡ k
      → m.current_term ≡ r.term
      → (n.current_term < r.term) ⊎ (n.vote_for ≡ []) ⊎ (n.vote_for ≡ r.name)
      → Asked n m
      → (Runs n → n.vote_for ≡ j)
      → is_candidate m.state ≡ false
  voter-no_candidate n m r k j real other from_k now free (_, _, _, _, role) own = elim role [
    | inr (newer, follows) ↦ ground (arith, follows)
    | inl (same_term, same_state) ↦ elim (Bool-cases (is_candidate n.state)) [
      | inr idle ↦ ap is_candidate same_state ∙ idle
      | inl runs ↦ elim free [
        | inl newer ↦ absurd (omega (arith, newer, now, same_term))
        | inr (inl no_vote) ↦ absurd (real (sym (own (inl runs)) ∙ no_vote))
        | inr (inr to_it) ↦ absurd (other (sym (own (inl runs)) ∙ to_it ∙ from_k))
      ]
    ]
  ]
