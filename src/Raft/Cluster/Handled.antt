-- ===== src/Raft/Cluster/Handled.antt =====
-- What the election handlers (src/node_rpc_r.cpp) do to the parts of a node that an election of the
-- whole cluster depends on.
use ctx_db.Prelude.{
  ℕ, ◌≤◌, ◌+◌, ◌<◌, ◌≡◌, refl, sym, ap, ◌∙◌, ◌⊎◌, inl, inr, true, false, List, [], ◌∷◌, ◌++◌, some,
  Text, same, same→eq, arith, Bool-cases, subst,
}
use ctx_db.Raft.Types.{
  is_candidate, RaftNode, NodePeer, follower, Env, u64_mod, Message, request_vote,
  RequestVoteRequest, RequestVoteResponse,
}
use ctx_db.Raft.Peers.{find_peer, set_peer, votes_of, voters_of}
use ctx_db.Raft.Persist.{dump}
use ctx_db.Raft.Role.{
  handle_request_routine, become_follower, become_leader, reset_election_timeout, valid_seq,
  switch_to,
}
use ctx_db.Raft.Vote.{
  on_vote_request, decide_vote, do_election, ask_votes, vote_request_to, start_election,
}
use ctx_db.Raft.Vote.Safety.{joined}
use ctx_db.Raft.Cluster.{In, names_of, AreActive}
use ctx_db.Raft.Cluster.Quorum.{has_noted}

In-append : (x : Text × Message) (l l' : List (Text × Message)) → In x (l ++ l') → In x l ⊎ In x l'
In-append x [] l' i = inr i
In-append x (y ∷ ys) l' (inl e) = inl (inl e)
In-append x (y ∷ ys) l' (inr i) = elim (In-append x ys l' i) [ inl a ↦ inl (inr a) | inr b ↦ inr b ]

-- What a vote noted at a peer changes.
pub set_peer-lem :
    (k : Text) (p : NodePeer) (ps : List (Text × NodePeer))
    → AreActive ps
    → find_peer k ps ≡ some p
    → let qs = set_peer k (record p { voted_for_me = true }) ps in
      (names_of qs ≡ names_of ps)
      × AreActive qs
      × ((v : Text) → has_noted v qs ≡ true → (has_noted v ps ≡ true) ⊎ (v ≡ k))
unfolding set_peer find_peer has_noted
set_peer-lem k p [] h found = cc
set_peer-lem k p ((j, q) ∷ ps) h found = elim (Bool-cases (same j k)) [
  | inl here ↦
      let is_p : q ≡ p = ground (arith, here, found) in
      rw here (
        refl,
        (
          subst (λ (x : NodePeer). (x.voting_rights ≡ true) × (x.send_enabled ≡ true)) is_p h.0,
          h.1,
        ),
        λ v e. ground (arith, e, same→eq j k here, same→eq j v),
      )
  | inr later ↦
      let (names, active, only) = set_peer-lem k p ps h.1 (rw later at found) in
      rw later (ap (◌∷◌ j) names, (h.0, active), λ v e. ground (arith, e, only v))
]

module _ {S : Type 0} where
  -- A vote request leaves the name, the peers and what was sent. In the same term it leaves the role
  -- too; a newer term makes a follower.
  abbrev pub Asked : RaftNode S → RaftNode S → Type 0
  Asked n m =
      (m.name ≡ n.name)
      × (m.trans_conf ≡ n.trans_conf)
      × (m.peers ≡ n.peers)
      × (m.outbox ≡ n.outbox)
      × (((m.current_term ≡ n.current_term) × (m.state ≡ n.state))
          ⊎ ((n.current_term < m.current_term) × (m.state ≡ follower)))

  decide_vote-lem :
      (env : Env) (r : RequestVoteRequest) (n : RaftNode S)
      → let m = (decide_vote env r n).1 in
        (m.name ≡ n.name)
        × (m.trans_conf ≡ n.trans_conf)
        × (m.peers ≡ n.peers)
        × (m.outbox ≡ n.outbox)
        × (m.current_term ≡ n.current_term)
        × (m.state ≡ n.state)
  unfolding decide_vote valid_seq dump
  decide_vote-lem env r n = ground arith

  pub on_vote_request-Asked :
      (env : Env) (r : RequestVoteRequest) (n : RaftNode S) → Asked n (on_vote_request env r n).1
  unfolding on_vote_request become_follower reset_election_timeout switch_to dump
  on_vote_request-Asked env r n =
      ground (arith, decide_vote-lem env r n, decide_vote-lem env r (joined env r n))

  pub on_vote_request-name :
      (env : Env) (r : RequestVoteRequest) (n m : RaftNode S) (a : RequestVoteResponse)
      → on_vote_request env r n ≡ (some a, m)
      → a.name ≡ n.name
  unfolding on_vote_request decide_vote become_follower reset_election_timeout switch_to valid_seq
      dump
  on_vote_request-name env r n m a h = ground arith

  -- The loop over the peers, with all of them active.
  ask_votes-lem :
      (env : Env) (n : RaftNode S) (ps : List (Text × NodePeer))
      → AreActive ps
      → let (peers, sent) = ask_votes env n ps in
        (names_of peers ≡ names_of ps)
        × AreActive peers
        × ((v : Text) → has_noted v peers ≡ false)
        × ((j : Text) (r : RequestVoteRequest)
            → In (j, request_vote r) sent
            → (r.name ≡ n.name) × In j (names_of ps))
  unfolding ask_votes has_noted vote_request_to
  ask_votes-lem env n [] h = (refl, tt, λ v. refl, λ j r i. elim i [ ])
  ask_votes-lem env n ((k, p) ∷ ps) h =
      let (names, active, fresh, mine) = ask_votes-lem env n ps h.1 in
      rw h.0.1 (
        ap (◌∷◌ k) names,
        ((h.0.0, refl), active),
        λ v. ground (arith, fresh v),
        λ j r i. elim i [
          | inl e ↦ (ground (arith, e), inl (ground (arith, e)))
          | inr later ↦ let (from, to) = mine j r later in (from, inr to)
        ],
      )

  -- An election of a node whose peers are all active forgets the votes noted before.
  pub do_election-lem :
      (env : Env) (n : RaftNode S)
      → AreActive n.peers
      → n.current_term + 1 < u64_mod
      → let m = do_election env n in
        (m.name ≡ n.name)
        × (m.trans_conf ≡ n.trans_conf)
        × (m.current_term ≡ n.current_term + 1)
        × (m.vote_for ≡ n.name)
        × (names_of m.peers ≡ names_of n.peers)
        × AreActive m.peers
        × ((v : Text) → has_noted v m.peers ≡ false)
        × ((j : Text) (r : RequestVoteRequest)
            → In (j, request_vote r) m.outbox
            → (In (j, request_vote r) n.outbox) ⊎ ((r.name ≡ n.name) × In j (names_of n.peers)))
  unfolding do_election dump switch_to
  do_election-lem env n h small =
      let begun = start_election env n in
      let at : begun.peers ≡ n.peers = ground arith in
      let sent_before : begun.outbox ≡ n.outbox = ground arith in
      let same_name : begun.name ≡ n.name = ground arith in
      let (names, active, fresh, mine) =
        ask_votes-lem env begun begun.peers (subst AreActive (sym at) h) in
      (
        ground arith,
        ground arith,
        ground (arith, small),
        ground arith,
        names ∙ ap names_of at,
        active,
        fresh,
        λ j r i.
            elim (In-append (j, request_vote r) begun.outbox (ask_votes env begun begun.peers).1
              i) [
                | inl before ↦ inl (subst (λ l. In (j, request_vote r) l) sent_before before)
                | inr now ↦
                    let (from, to) = mine j r now in
                    inr (from ∙ same_name, subst (λ l. In j (names_of l)) at to)
              ],
      )

  -- What the check in front of the handlers for a leader's messages does: at most it makes a follower.
  abbrev pub Heard : RaftNode S → RaftNode S → Type 0
  Heard n m =
      (m.name ≡ n.name)
      × (m.trans_conf ≡ n.trans_conf)
      × (m.peers ≡ n.peers)
      × (m.outbox ≡ n.outbox)
      × (n.current_term ≤ m.current_term)
      × ((m.state ≡ follower)
          ⊎ (m.state ≡ n.state) × (m.current_term ≡ n.current_term) × (m.vote_for ≡ n.vote_for))
      × (n.current_term ≡ m.current_term
          → (m.vote_for ≡ n.vote_for) ⊎ (is_candidate n.state ≡ true))

  pub handle_request_routine-Heard :
      (env : Env) (from : Text) (term : ℕ) (n : RaftNode S)
      → Heard n (handle_request_routine env from term n).1
  unfolding handle_request_routine become_follower reset_election_timeout switch_to
  handle_request_routine-Heard env from term n = ground arith

  -- What becoming the leader leaves of the peers.
  abbrev pub led : RaftNode S → List (Text × NodePeer) → List (Text × NodePeer)
  led n ps = (become_leader (record n { peers = ps })).peers

  pub become_leader-lem :
      (n : RaftNode S) (ps : List (Text × NodePeer))
      → AreActive ps
      → (names_of (led n ps) ≡ names_of ps)
        × AreActive (led n ps)
        × (votes_of (λ q. q.voted_for_me) (led n ps) ≡ votes_of (λ q. q.voted_for_me) ps)
        × (voters_of (led n ps) ≡ voters_of ps)
        × ((v : Text) → has_noted v (led n ps) ≡ has_noted v ps)
  unfolding become_leader switch_to votes_of voters_of has_noted
  become_leader-lem n [] h = (refl, tt, refl, refl, λ v. refl)
  become_leader-lem n ((k, p) ∷ ps) h =
      let (names, active, votes, voters, same_notes) = become_leader-lem n ps h.1 in
      (
        ap (◌∷◌ k) names,
        (h.0, active),
        ground (arith, votes),
        ground (arith, voters),
        λ v. ground (arith, same_notes v),
      )
