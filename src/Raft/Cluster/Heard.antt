-- ===== src/Raft/Cluster/Heard.antt =====
-- What a leader's message leaves of one node of a cluster (src/node.h, handle_request_routine).
use ctx_db.Prelude.{◌≡◌, ◌≢◌, sym, ap, ◌∙◌, inl, inr, List, Text, arith, subst}
use ctx_db.Raft.Types.{is_candidate, RaftNode, is_leader, request_vote, RequestVoteRequest}
use ctx_db.Raft.Vote.Elected.{Wins}
use ctx_db.Raft.Cluster.{In, names_of, AreActive}
use ctx_db.Raft.Cluster.Quorum.{has_noted}
use ctx_db.Raft.Cluster.Handled.{Heard}
use ctx_db.Raft.Cluster.Invariant.{Responses, Voted, NodeHolds}
use ctx_db.Raft.Cluster.Update.{Keeps}

module _ {S : Type 0} where
  -- A node that has heard from a leader.
  pub Heard-NodeHolds :
      (members : List Text) (rs : Responses) (k : Text) (n m : RaftNode S)
      → Heard n m
      → NodeHolds members rs k n
      → NodeHolds members rs k m
  Heard-NodeHolds members rs k n m (name, steady, peers, outbox, le, role, vote) h = record {
    name = name ∙ h.name;
    steady = steady ∙ h.steady;
    peers = ap names_of peers ∙ h.peers;
    active = subst AreActive (sym peers) h.active;
    sent =
        subst
          (λ l.
            (j : Text) (q : RequestVoteRequest) → In (j, request_vote q) l → (q.name ≡ k) × (j ≢ k))
          (sym outbox) h.sent;
    own = λ runs. elim role [
      | inl follows ↦ ground (arith, runs, follows)
      | inr (same_state, _, same_vote) ↦ same_vote ∙ h.own (ground (arith, runs, same_state))
    ];
    votes = λ runs v e. elim role [
      | inl follows ↦ ground (arith, runs, follows)
      | inr (same_state, same_term, _) ↦
          subst (λ t. Voted rs v t k) (sym same_term)
            (h.votes (ground (arith, runs, same_state)) v (ap (has_noted v) (sym peers) ∙ e))
    ];
    wins = λ leads. elim role [
      | inl follows ↦ ground (arith, leads, follows)
      | inr (same_state, _, _) ↦
          subst Wins (sym peers) (h.wins (ap is_leader (sym same_state) ∙ leads))
    ];
  }

  pub Heard-Keeps : (n m : RaftNode S) → Heard n m → Keeps n m
  Heard-Keeps n m (_, _, _, _, le, role, vote) = (
    le,
    λ e. (
      elim (vote e) [ inl same_vote ↦ inl same_vote | inr runs ↦ inr (inr runs) ],
      λ runs. elim role [
        | inl follows ↦ ground (arith, runs, follows)
        | inr (same_state, _, _) ↦ ap is_candidate (sym same_state) ∙ runs
      ],
    ),
  )
