-- ===== src/Raft/Cluster/Counted.antt =====
-- What a response to a vote request (`on_vote_response`, src/node_rpc_r.cpp) does to a candidate, with
-- all its peers active and no change of the configuration.
use ctx_db.Prelude.{
  ◌≤◌, ◌<◌, ◌≡◌, refl, sym, ◌∙◌, ◌⊎◌, inl, inr, true, not, ◌&&◌, ◌>>=◌, List, none, some, Text,
  arith, ltb, Bool-cases, Option-cases, if_true, if_false, subst,
}
use ctx_db.Raft.Types.{RaftNode, NodePeer, RequestVoteResponse, follower, is_candidate}
use ctx_db.Raft.Peers.{
  find_peer, votes_of, voters_of, is_majority, test_election, normal_test_vote, enough_votes,
  compute_votes_thres,
}
use ctx_db.Raft.Persist.{dump}
use ctx_db.Raft.Role.{become_follower, become_leader, switch_to}
use ctx_db.Raft.Vote.{on_vote_response, count_vote, win_if}
use ctx_db.Raft.Transport.{is_expected, complete_vote}
use ctx_db.Raft.Vote.Elected.{Wins, noted, count_vote-lem, test_election_steady}
use ctx_db.Raft.Cluster.{names_of, AreActive}
use ctx_db.Raft.Cluster.Quorum.{has_noted}
use ctx_db.Raft.Cluster.Handled.{set_peer-lem, become_leader-lem}

module _ {S : Type 0} where
  -- Peers with no more votes noted than those of a node and that of the responder.
  abbrev pub Grows : RequestVoteResponse → RaftNode S → List (Text × NodePeer) → Type 0
  Grows r n qs =
      (names_of qs ≡ names_of n.peers)
      × AreActive qs
      × ((v : Text)
          → has_noted v qs ≡ true
          → (has_noted v n.peers ≡ true) ⊎ ((v ≡ r.name) × (r.vote_granted ≡ true)))

  abbrev pub Counted : RequestVoteResponse → RaftNode S → RaftNode S → Type 0
  Counted r n m =
      (m ≡ n)
      ⊎ ((m.name ≡ n.name)
          × (m.trans_conf ≡ n.trans_conf)
          × (m.outbox ≡ n.outbox)
          × (m.peers ≡ n.peers)
          × (n.current_term < m.current_term)
          × (m.state ≡ follower))
      ⊎ ((m.name ≡ n.name)
          × (m.trans_conf ≡ n.trans_conf)
          × (m.outbox ≡ n.outbox)
          × (m.current_term ≡ n.current_term)
          × (m.vote_for ≡ n.vote_for)
          × (is_candidate n.state ≡ true)
          × (r.term ≤ n.current_term)
          × Grows r n m.peers
          × ((m.state ≡ n.state) ⊎ Wins m.peers))

  noted-Grows :
      (r : RequestVoteResponse) (p : NodePeer) (n : RaftNode S)
      → AreActive n.peers
      → find_peer r.name n.peers ≡ some p
      → Grows r n (noted r p n)
  noted-Grows r p n active found = elim (Bool-cases (not p.voted_for_me && r.vote_granted)) [
    | inr old ↦ rw old (refl, active, λ v e. inl e)
    | inl new ↦
        let (names, active', only) = set_peer-lem r.name p n.peers active found in
        rw new (names, active', λ v e. ground (arith, new, only v e))
  ]

  -- The test of the election on the peers with the vote noted.
  tested-Counted :
      (r : RequestVoteResponse) (n m : RaftNode S) (qs : List (Text × NodePeer))
      → n.trans_conf ≡ none
      → is_candidate n.state ≡ true
      → r.term ≤ n.current_term
      → Grows r n qs
      → (do won ← test_election (record n { peers = qs }); some (win_if won)) ≡ some m
      → Counted r n m
  unfolding normal_test_vote enough_votes compute_votes_thres become_leader switch_to
  tested-Counted r n m qs steady runs old grows h =
      let h' : some (win_if (normal_test_vote (record n { peers = qs }))) ≡ some m =
        rw (test_election_steady (record n { peers = qs }) steady) at h in
      let (names, active, only) = grows in
      elim (Bool-cases (is_majority (votes_of (λ q. q.voted_for_me) qs) (voters_of qs))) [
        | inr less ↦
            let is_m : record n { peers = qs; vote_got = votes_of (λ q. q.voted_for_me) qs } ≡ m =
              ground (arith, less, h') in
            subst (Counted r n) is_m
              (inr (inr (refl, refl, refl, refl, refl, runs, old, grows, inl refl)))
        | inl more ↦
            let voted = record n { peers = qs; vote_got = votes_of (λ q. q.voted_for_me) qs } in
            let is_m : become_leader voted ≡ m = ground (arith, more, h') in
            let (names', active', votes, voters, notes) = become_leader-lem voted qs active in
            let wins : Wins (become_leader voted).peers = ground (arith, more, votes, voters) in
            subst (Counted r n) is_m (
              inr (
                inr (
                  refl,
                  refl,
                  refl,
                  refl,
                  refl,
                  runs,
                  old,
                  (names' ∙ names, active', λ v e. only v (sym (notes v) ∙ e)),
                  inr wins,
                )))
      ]

  on_vote_response-Counted :
      (r : RequestVoteResponse) (n m : RaftNode S)
      → n.trans_conf ≡ none
      → AreActive n.peers
      → on_vote_response r n ≡ some m
      → Counted r n m
  unfolding on_vote_response become_follower switch_to dump
  on_vote_response-Counted r n m steady active h =
      elim (Bool-cases (ltb r.time n.start_timepoint)) [
        | inl late ↦ inl (ground arith)
        | inr timely ↦ elim (Bool-cases (is_candidate n.state)) [
          | inr other ↦ inl (ground arith)
          | inl runs ↦ elim (Option-cases (find_peer r.name n.peers)) [
            | inl gone ↦ inl (ground arith)
            | inr (p, found) ↦ elim (Bool-cases p.voting_rights) [
              | inr none_of_it ↦ inl (ground arith)
              | inl votes ↦ elim (Bool-cases (ltb n.current_term r.term)) [
                | inl newer ↦ inr (
                    inl (
                      ground arith,
                      ground arith,
                      ground arith,
                      ground arith,
                      ground arith,
                      ground arith,
                    ))
                | inr known ↦
                    let h' : count_vote r p n ≡ some m =
                      sym (if_false _ known)
                      ∙ sym (if_true _ votes)
                      ∙ rw (timely, runs, found) at h in
                    tested-Counted r n m (noted r p n) steady runs (ground arith)
                      (noted-Grows r p n active found) (sym (count_vote-lem r p n) ∙ h')
              ]
            ]
          ]
        ]
      ]

  pub complete_vote-Counted :
      (r : RequestVoteResponse) (n m : RaftNode S)
      → n.trans_conf ≡ none
      → AreActive n.peers
      → complete_vote r.name (some r) n ≡ some m
      → Counted r n m
  unfolding complete_vote
  complete_vote-Counted r n m steady active h = elim (Bool-cases (is_expected r.name r.time n)) [
    | inl expected ↦ on_vote_response-Counted r n m steady active (rw expected at h)
    | inr dropped ↦ inl (ground (arith, dropped, h))
  ]
