-- ===== src/Raft/Vote/Elected.antt =====
-- What makes a candidate the leader (src/node_rpc_r.cpp).
use ctx_db.Prelude.{
  ℕ, ◌+◌, ◌/◌, ◌≤◌, ◌<◌, ◌≡◌, refl, sym, ap, ◌++◌, ◌%◌, ◌⊎◌, inl, inr, true, false, not, ◌&&◌, List,
  [], ◌∷◌, none, some, Text, arith, ltb, if◌then◌else◌, Bool-cases, Option-cases, ◌>>=◌, ◌∙◌,
  if_true, if_false, map,
}
use ctx_db.Raft.Types.{
  RaftNode, NodePeer, Env, RequestVoteResponse, vote_for_none, candidate, follower, is_leader,
  is_candidate, u64_mod, Message,
}
use ctx_db.Raft.Peers.{
  find_peer, set_peer, votes_of, voters_of, is_majority, test_election, normal_test_vote,
  enough_votes, compute_votes_thres,
}
use ctx_db.Raft.Persist.{dump}
use ctx_db.Raft.Role.{
  become_follower, become_leader, handle_request_routine, reset_election_timeout, switch_to,
}
use ctx_db.Raft.Vote.{
  on_vote_response, do_election, vote_request_to, ask_votes, count_vote, win_if, start_election,
}

-- A majority of the voters are noted as voting for the node.
abbrev pub Wins : List (Text × NodePeer) → Type 0
Wins peers = voters_of peers / 2 < votes_of (λ q. q.voted_for_me) peers

-- Who a vote is asked from.
abbrev pub asked : List (Text × NodePeer) → List Text
asked [] = []
asked ((k, p) ∷ ps) = if p.send_enabled then k ∷ asked ps else asked ps

-- Whose note of a vote may be left from before: that of a peer to which nothing is sent.
abbrev pub left_over : List (Text × NodePeer) → ℕ
left_over [] = 0
left_over ((k, p) ∷ ps) =
    if not p.send_enabled && p.voted_for_me then left_over ps + 1 else left_over ps

module _ {S : Type 0} where
  -- The state in which the votes are counted: an answer that grants the vote is noted at its peer.
  abbrev pub noted : RequestVoteResponse → NodePeer → RaftNode S → List (Text × NodePeer)
  noted r p n =
      if not p.voted_for_me && r.vote_granted
      then set_peer r.name (record p { voted_for_me = true }) n.peers
      else n.peers

  pub test_election_steady :
      (n : RaftNode S) → n.trans_conf ≡ none → test_election n ≡ some (normal_test_vote n)
  unfolding test_election
  test_election_steady n steady = ground (arith, steady)

  -- The candidate wins with a majority, or stays as it is.
  pub tested-lem :
      (n m : RaftNode S)
      → n.trans_conf ≡ none
      → (do won ← test_election n; some (win_if won)) ≡ some m
      → (m.current_term ≡ n.current_term)
        × ((is_leader m.state ≡ true) × Wins n.peers
            ⊎ (m.state ≡ n.state)
              × (votes_of (λ q. q.voted_for_me) n.peers ≤ voters_of n.peers / 2))
  unfolding test_election normal_test_vote enough_votes compute_votes_thres become_leader switch_to
  tested-lem n m steady h =
      let h' : some (win_if (normal_test_vote n)) ≡ some m =
        rw (test_election_steady n steady) at h in
      elim (Bool-cases (is_majority (votes_of (λ q. q.voted_for_me) n.peers) (voters_of n.peers))) [
        | inl more ↦ ground (arith, more, h')
        | inr less ↦ ground (arith, less, h')
      ]

  -- What `count_vote` tests.
  pub count_vote-lem :
      (r : RequestVoteResponse) (p : NodePeer) (n : RaftNode S)
      → count_vote r p n
        ≡ (do won ← test_election (record n { peers = noted r p n }); some (win_if won))
  count_vote-lem r p n = elim (Bool-cases (not p.voted_for_me && r.vote_granted)) [
    | inl new_vote ↦ rw new_vote
    | inr old_vote ↦ rw old_vote
  ]

  -- Outside a change of the configuration, an answer makes a node that does not lead the leader
  -- only if it was a candidate, in the same term, the answer's term is not newer, it is from a
  -- peer with voting rights, and with it a majority of the voters are noted as voting for the
  -- node.
  pub leader_needs_majority :
      (r : RequestVoteResponse) (n m : RaftNode S)
      → n.trans_conf ≡ none
      → is_leader n.state ≡ false
      → on_vote_response r n ≡ some m
      → is_leader m.state ≡ true
      → (is_candidate n.state ≡ true)
        × (m.current_term ≡ n.current_term)
        × (r.term ≤ n.current_term)
        × ((p : NodePeer) × (find_peer r.name n.peers ≡ some p)
            × (p.voting_rights ≡ true)
            × Wins (noted r p n))
  unfolding on_vote_response become_follower dump
  leader_needs_majority r n m steady before h won =
      elim (Bool-cases (ltb r.time n.start_timepoint)) [
        | inl late ↦ ground arith
        | inr timely ↦ elim (Bool-cases (is_candidate n.state)) [
          | inr other ↦ ground arith
          | inl runs ↦ elim (Option-cases (find_peer r.name n.peers)) [
            | inl gone ↦ ground arith
            | inr (p, found) ↦ elim (Bool-cases p.voting_rights) [
              | inr none_of_it ↦ ground arith
              | inl votes ↦ elim (Bool-cases (ltb n.current_term r.term)) [
                | inl newer ↦ ground arith
                | inr known ↦
                    let h' : count_vote r p n ≡ some m =
                      sym (if_false _ known)
                      ∙ sym (if_true _ votes)
                      ∙ rw (timely, runs, found) at h in
                    let (term, out) =
                      tested-lem (record n { peers = noted r p n }) m steady
                        (sym (count_vote-lem r p n) ∙ h') in
                    (runs, term, ground arith, (p, found, votes, ground (arith, out)))
              ]
            ]
          ]
        ]
      ]

  -- A vote given in an older term counts like one of the candidate's term: the handler does not look
  -- at the term of an answer that is not newer than its own.
  pub stale_vote_counts :
      (r : RequestVoteResponse) (n : RaftNode S)
      → r.term ≤ n.current_term
      → on_vote_response r n ≡ on_vote_response (record r { term = n.current_term }) n
  unfolding on_vote_response
  stale_vote_counts r n old = ground arith

  -- A candidate that hears from a leader of its own term becomes its follower and forgets, within
  -- that term, that it voted for itself.
  candidate_forgets_vote :
      (env : Env) (from : Text) (n : RaftNode S)
      → is_candidate n.state ≡ true
      → let (ok, m) = handle_request_routine env from n.current_term n in
        (ok ≡ true)
        × (m.current_term ≡ n.current_term)
        × (m.state ≡ follower)
        × (m.leader_name ≡ from)
        × (m.vote_for ≡ vote_for_none)
  unfolding handle_request_routine become_follower reset_election_timeout switch_to
  candidate_forgets_vote env from n runs = ground arith

  ask_votes-lem :
      (env : Env) (n : RaftNode S) (ps : List (Text × NodePeer))
      → let (peers, sent) = ask_votes env n ps in
        (map (λ (e : Text × Message). e.0) sent ≡ asked ps)
        × (votes_of (λ q. q.voted_for_me) peers ≡ left_over ps + 1)
  unfolding ask_votes vote_request_to votes_of
  ask_votes-lem env n [] = (refl, omega arith)
  ask_votes-lem env n ((k, p) ∷ ps) = ground (arith, ask_votes-lem env n ps)

  -- An election starts the next term as a candidate with the node's vote for itself and the same log, and asks
  -- every peer to which sending is enabled, in order; the votes noted before the first answer are its
  -- own and those left over at the peers that are not asked.
  pub election_starts :
      (env : Env) (n : RaftNode S)
      → let m = do_election env n in
        (m.state ≡ candidate)
        × (m.current_term ≡ (n.current_term + 1) % u64_mod)
        × (m.vote_for ≡ n.name)
        × (m.logs ≡ n.logs)
        × ((sent : List (Text × Message)) × (m.outbox ≡ n.outbox ++ sent)
            × (map (λ (e : Text × Message). e.0) sent ≡ asked n.peers))
        × (votes_of (λ q. q.voted_for_me) m.peers ≡ left_over n.peers + 1)
  unfolding do_election dump switch_to
  election_starts env n =
      let begun = start_election env n in
      let at : begun.peers ≡ n.peers = ground arith in
      let asks = ask_votes-lem env begun begun.peers in
      (
        ground arith,
        ground arith,
        ground arith,
        ground arith,
        ((ask_votes env begun begun.peers).1, ground arith, asks.0 ∙ ap asked at),
        asks.1 ∙ ap (λ ps. left_over ps + 1) at,
      )
