-- ===== src/Raft/Cluster/Update.antt =====
-- What holds of a cluster after one of its nodes has changed.
use ctx_db.Prelude.{
  ℕ, ◌≤◌, ◌≡◌, ◌≢◌, sym, ap, ◌∙◌, ◌⊎◌, inl, inr, true, false, List, [], ◌∷◌, Text, same, same→eq,
  same_refl, arith, Bool-cases, subst, if_true, if_false,
}
use ctx_db.Raft.Types.{RaftNode, is_candidate, RequestVoteResponse}
use ctx_db.Raft.Cluster.{Cluster, In, set_node}
use ctx_db.Raft.Cluster.Quorum.{AreMembers}
use ctx_db.Raft.Cluster.Invariant.{Responses, NodeHolds, Holds, Bound, member-nonempty}

module _ {S : Type 0} where
  -- In a term, a vote that was given is kept, but for that of a candidate for itself, and no candidate
  -- is made.
  abbrev pub Keeps : RaftNode S → RaftNode S → Type 0
  Keeps n m =
      (n.current_term ≤ m.current_term)
      × (n.current_term ≡ m.current_term
          → ((m.vote_for ≡ n.vote_for) ⊎ (n.vote_for ≡ []) ⊎ (is_candidate n.state ≡ true))
            × (is_candidate m.state ≡ true → is_candidate n.state ≡ true))

  Bound-Keeps :
      (t : ℕ) (k : Text) (n m : RaftNode S) → k ≢ [] → Keeps n m → Bound t k n → Bound t k m
  Bound-Keeps t k n m real (le, kept) (low, to_k) = (
    omega (arith, le, low),
    λ e.
        let now : t ≡ n.current_term = omega (arith, le, low, e) in
        let (vote, no_candidate) = to_k now in
        let (kept_vote, same_role) = kept (sym now ∙ e) in
        let still : is_candidate m.state ≡ false = ground (arith, same_role, no_candidate) in
        elim kept_vote [
          | inl same_vote ↦ (same_vote ∙ vote, still)
          | inr (inl no_vote) ↦ absurd (real (sym vote ∙ no_vote))
          | inr (inr runs) ↦ ground (arith, runs, no_candidate)
        ],
  )

  set_node-at : (j : Text) (m : RaftNode S) (nodes : Text → RaftNode S) → set_node j m nodes j ≡ m
  set_node-at j m nodes = if_true (nodes j) (same_refl j)

  -- A predicate on the nodes after one of them has changed.
  pub set_node-all :
      (P : Text → RaftNode S → Type 0) (j : Text) (m : RaftNode S) (nodes : Text → RaftNode S)
      (k : Text)
      → (j ≡ k → P k m)
      → P k (nodes k)
      → P k (set_node j m nodes k)
  set_node-all P j m nodes k changed kept = elim (Bool-cases (same j k)) [
    | inl here ↦ subst (P k) (sym (if_true (nodes k) here)) (changed (same→eq j k here))
    | inr other ↦ subst (P k) (sym (if_false m other)) kept
  ]

  more_responses :
      (members : List Text) (rs : Responses) (k : Text) (n : RaftNode S)
      (x : Text × RequestVoteResponse)
      → NodeHolds members rs k n
      → NodeHolds members (x ∷ rs) k n
  more_responses members rs k n x h = record {
    name = h.name;
    steady = h.steady;
    peers = h.peers;
    active = h.active;
    sent = h.sent;
    own = h.own;
    votes = λ runs v e.
        let (a, sent, granted, from, term) = h.votes runs v e in (a, inr sent, granted, from, term);
    wins = h.wins;
  }

  -- A step that changes one node and sends nothing.
  pub change_one :
      (members : List Text) (c : Cluster S) (j : Text) (m : RaftNode S)
      → AreMembers members
      → Holds members c
      → Keeps (c.nodes j) m
      → NodeHolds members c.responses j m
      → Holds members (record c { nodes = set_node j m c.nodes })
  change_one members c j m names h kept now = record {
    each = λ k i.
        set_node-all (NodeHolds members c.responses) j m c.nodes k
          (λ e. subst (λ x. NodeHolds members c.responses x m) e now) (h.each k i);
    bound = λ k a i granted.
        let (member, old) = h.bound k a i granted in
        (
          member,
          set_node-all (λ _ n. Bound a.term k n) j m c.nodes a.name
              (λ e.
                Bound-Keeps a.term k (c.nodes j) m (member-nonempty k members names member) kept
                  (subst (λ x. Bound a.term k (c.nodes x)) (sym e) old))
              old,
        );
    unique = h.unique;
  }

  -- Two votes of one voter in its present term go to the same candidate.
  same_target :
      (nodes : Text → RaftNode S) (k k' : Text) (a a' : RequestVoteResponse)
      → Bound a.term k (nodes a.name)
      → Bound a'.term k' (nodes a'.name)
      → a.name ≡ a'.name
      → a.term ≡ a'.term
      → a.term ≡ (nodes a.name).current_term
      → k ≡ k'
  same_target nodes k k' a a' b b' same_voter same_term now =
      sym (b.1 now).0
      ∙ ap (λ x. (nodes x).vote_for) same_voter
      ∙ (b'.1 (sym same_term ∙ now ∙ ap (λ x. (nodes x).current_term) same_voter)).0

  -- A step that changes one node, which sends a response.
  pub change_and_send :
      (members : List Text) (c : Cluster S) (j k : Text) (a : RequestVoteResponse) (m : RaftNode S)
      → AreMembers members
      → In k members
      → Holds members c
      → Keeps (c.nodes j) m
      → NodeHolds members c.responses j m
      → a.name ≡ j
      → (a.vote_granted ≡ true
          → (a.term ≡ m.current_term) × (m.vote_for ≡ k) × (is_candidate m.state ≡ false))
      → Holds members (record { nodes = set_node j m c.nodes; responses = (k, a) ∷ c.responses })
  change_and_send members c j k a m names member h kept now from given =
      let changed = change_one members c j m names h kept now in
      let nodes' = set_node j m c.nodes in
      let at : nodes' a.name ≡ m = ap nodes' from ∙ set_node-at j m c.nodes in
      let is_new : a.vote_granted ≡ true
          → (Bound a.term k (nodes' a.name)) × (a.term ≡ (nodes' a.name).current_term) =
        λ g.
          let (term, to_k, no_candidate) = given g in
          subst (λ n. Bound a.term k n × (a.term ≡ n.current_term)) (sym at)
            ((omega (arith, term), λ _. (to_k, no_candidate)), term) in
      let bound' : (k' : Text) (a' : RequestVoteResponse)
          → In (k', a') ((k, a) ∷ c.responses)
          → a'.vote_granted ≡ true
          → In k' members × Bound a'.term k' (nodes' a'.name) =
        λ k' a' i. elim i [
          | inl e ↦
              subst
                (λ (x : Text × RequestVoteResponse).
                  x.1.vote_granted ≡ true → In x.0 members × Bound x.1.term x.0 (nodes' x.1.name))
                (sym e) (λ g. (member, (is_new g).0))
          | inr before ↦ changed.bound k' a' before
        ] in
      let present : (k' : Text) (a' : RequestVoteResponse)
          → (k', a') ≡ (k, a)
          → a'.vote_granted ≡ true
          → a'.term ≡ (nodes' a'.name).current_term =
        λ k' a' e.
          subst
            (λ (x : Text × RequestVoteResponse).
              x.1.vote_granted ≡ true → x.1.term ≡ (nodes' x.1.name).current_term)
            (sym e) (λ g. (is_new g).1) in
      record {
        each = λ i x. more_responses members c.responses i _ (k, a) (changed.each i x);
        bound = bound';
        unique = λ k1 k2 a1 a2 i1 i2 g1 g2 same_voter same_term.
            let b1 = (bound' k1 a1 i1 g1).1 in
            let b2 = (bound' k2 a2 i2 g2).1 in
            elim i1 [
              | inl e ↦
                  same_target nodes' k1 k2 a1 a2 b1 b2 same_voter same_term (present k1 a1 e g1)
              | inr before1 ↦ elim i2 [
                | inl e ↦ sym (
                    same_target nodes' k2 k1 a2 a1 b2 b1 (sym same_voter) (sym same_term)
                      (present k2 a2 e g2))
                | inr before2 ↦ h.unique k1 k2 a1 a2 before1 before2 g1 g2 same_voter same_term
              ]
            ];
      }
