-- ===== src/Raft/Cluster/History.antt =====
-- What stays of a leader while the cluster goes on: it leads, or its term is over, and in its term it
-- votes for nobody else (src/node_rpc_r.cpp, src/node.h).
use ctx_db.Prelude.{ℕ, ◌<◌, ◌≡◌, sym, ap, ◌∙◌, ◌⊎◌, inl, inr, true, List, some, Text, arith, subst}
use ctx_db.Raft.Types.{RaftNode, Env, is_leader, RequestVoteRequest, RequestVoteResponse}
use ctx_db.Raft.Vote.{do_election, on_vote_request}
use ctx_db.Raft.Vote.Safety.{granted_conditions}
use ctx_db.Raft.Role.{handle_request_routine, become_follower, reset_election_timeout, switch_to}
use ctx_db.Raft.Cluster.{
  Cluster, Step, elect, respond, ignore, hear, receive, Reach, start, after, In, set_node,
}
use ctx_db.Raft.Cluster.Quorum.{AreMembers}
use ctx_db.Raft.Cluster.Handled.{
  Asked, on_vote_request-Asked, on_vote_request-name, do_election-lem,
}
use ctx_db.Raft.Cluster.Counted.{Counted, complete_vote-Counted}
use ctx_db.Raft.Cluster.Invariant.{Responses, Holds, member-nonempty}
use ctx_db.Raft.Cluster.Update.{set_node-all}
use ctx_db.Raft.Cluster.Reached.{Step-Holds}

module _ {S : Type 0} where
  -- The term grows, or it stays and a leader goes on leading.
  abbrev Advances : RaftNode S → RaftNode S → Type 0
  Advances n m =
      (n.current_term < m.current_term)
      ⊎ ((m.current_term ≡ n.current_term) × (is_leader n.state ≡ true → is_leader m.state ≡ true))

  -- The node leads in term t, or is past that term.
  abbrev LedIn : ℕ → RaftNode S → Type 0
  LedIn t n = (t < n.current_term) ⊎ ((n.current_term ≡ t) × (is_leader n.state ≡ true))

  LedIn-Advances : (t : ℕ) (n m : RaftNode S) → Advances n m → LedIn t n → LedIn t m
  LedIn-Advances t n m (inl up) (inl past) = inl (omega (arith, up, past))
  LedIn-Advances t n m (inl up) (inr (now, leads)) = inl (omega (arith, up, now))
  LedIn-Advances t n m (inr (same_term, goes_on)) (inl past) = inl (omega (arith, same_term, past))
  LedIn-Advances t n m (inr (same_term, goes_on)) (inr (now, leads)) =
      inr (same_term ∙ now, goes_on leads)

  Asked-Advances : (n m : RaftNode S) → Asked n m → Advances n m
  Asked-Advances n m (_, _, _, _, inl (same_term, same_state)) =
      inr (same_term, λ leads. ap is_leader same_state ∙ leads)
  Asked-Advances n m (_, _, _, _, inr (up, _)) = inl up

  heard-Advances :
      (env : Env) (from : Text) (term : ℕ) (n : RaftNode S)
      → Advances n (handle_request_routine env from term n).1
  unfolding handle_request_routine become_follower reset_election_timeout switch_to
  heard-Advances env from term n = ground arith

  Counted-Advances : (r : RequestVoteResponse) (n m : RaftNode S) → Counted r n m → Advances n m
  Counted-Advances r n m (inl same_node) =
      inr (
        ap (λ (x : RaftNode S). x.current_term) same_node,
        λ leads. ground (arith, leads, same_node),
      )
  Counted-Advances r n m (inr (inl (_, _, _, _, up, _))) = inl up
  Counted-Advances r n m (inr (inr (_, _, _, same_term, _, runs, _, _, _))) =
      inr (same_term, λ leads. ground (arith, leads, runs))

  -- Since member a led in term t, with the responses that there were then.
  pub record Since (t : ℕ) (a : Text) (before : Responses) (c : Cluster S) : Type 0 where
    pub led : LedIn t (c.nodes a)
    pub kept : (k : Text) (r : RequestVoteResponse) → In (k, r) before → In (k, r) c.responses
    pub later :
        (k : Text) (r : RequestVoteResponse)
        → In (k, r) c.responses
        → r.vote_granted ≡ true
        → r.name ≡ a
        → r.term ≡ t
        → In (k, r) before ⊎ (k ≡ a)

  -- A step that changes one node and sends nothing.
  Since-node :
      (t : ℕ) (a j : Text) (before : Responses) (c : Cluster S) (m : RaftNode S)
      → Advances (c.nodes j) m
      → Since t a before c
      → Since t a before (record c { nodes = set_node j m c.nodes })
  Since-node t a j before c m up h = record {
    led =
        set_node-all (λ _ n. LedIn t n) j m c.nodes a
          (λ e. LedIn-Advances t (c.nodes j) m up (subst (λ x. LedIn t (c.nodes x)) (sym e) h.led))
          h.led;
    kept = h.kept;
    later = h.later;
  }

  -- A vote that a gives in term t, once it has led, is for itself.
  led-votes :
      (members : List Text) (t : ℕ) (a k : Text) (c : Cluster S) (env : Env)
      (r : RequestVoteRequest) (v : RequestVoteResponse) (m : RaftNode S)
      → AreMembers members
      → Holds members c
      → In a members
      → LedIn t (c.nodes a)
      → r.name ≡ k
      → on_vote_request env r (c.nodes a) ≡ (some v, m)
      → v.vote_granted ≡ true
      → v.term ≡ t
      → k ≡ a
  led-votes members t a k c env r v m names h member led from_k run granted term =
      let (same_term, _, not_below, _, _, free) =
        granted_conditions env r (c.nodes a) m v run granted in
      elim led [
        | inl past ↦ absurd (omega (arith, past, same_term, not_below, term))
        | inr (now, leads) ↦
            let mine = (h.each a member).own (inr leads) in
            elim free [
              | inl lower ↦ absurd (omega (arith, lower, now, same_term, term))
              | inr (inl no_vote) ↦
                  absurd (member-nonempty a members names member (sym mine ∙ no_vote))
              | inr (inr for_it) ↦ sym from_k ∙ sym for_it ∙ mine
            ]
      ]

  Step-Since :
      (members : List Text) (t : ℕ) (a : Text) (before : Responses) (c d : Cluster S)
      → AreMembers members
      → In a members
      → Holds members c
      → Step members c d
      → Since t a before c
      → Since t a before d
  Step-Since members t a before c _ names member h (elect env k i small) since =
      let term = (do_election-lem env (c.nodes k) (h.each k i).active small).2 in
      Since-node t a k before c (do_election env (c.nodes k)) (inl (omega (arith, term))) since
  Step-Since members t a before c _ names member h (ignore env k j r m i i' asked run) since =
      Since-node t a j before c m
        (Asked-Advances (c.nodes j) m
          (subst (Asked (c.nodes j)) (ap (λ x. x.1) run) (on_vote_request-Asked env r (c.nodes j))))
        since
  Step-Since members t a before c _ names member h (hear env j from term i) since =
      Since-node t a j before c (handle_request_routine env from term (c.nodes j)).1
        (heard-Advances env from term (c.nodes j)) since
  Step-Since members t a before c _ names member h (receive k r m i sent le run) since =
      let holds = h.each k i in
      Since-node t a k before c m
        (Counted-Advances r (c.nodes k) m
          (complete_vote-Counted r (c.nodes k) m holds.steady holds.active run))
        since
  Step-Since members t a before c _ names member h (respond env k j r v m i i' asked run) since =
      let changed =
        Since-node t a j before c m
          (Asked-Advances (c.nodes j) m (
            subst (Asked (c.nodes j)) (ap (λ x. x.1) run)
              (on_vote_request-Asked env r (c.nodes j))))
          since in
      let (from_k, _) = (h.each k i).sent j r asked in
      let voter : v.name ≡ j =
        on_vote_request-name env r (c.nodes j) m v run ∙ (h.each j i').name in
      let new_vote : v.vote_granted ≡ true → v.name ≡ a → v.term ≡ t → k ≡ a = λ granted by_a term.
        let is_a : j ≡ a = sym voter ∙ by_a in
        led-votes members t a k c env r v m names h member since.led from_k
          (subst (λ x. on_vote_request env r (c.nodes x) ≡ (some v, m)) is_a run) granted term in
      record {
        led = changed.led;
        kept = λ k' r' x. inr (since.kept k' r' x);
        later = λ k' r' x. elim x [
          | inr old ↦ since.later k' r' old
          | inl e ↦ λ granted by_a term. inr (
              subst
                (λ (y : Text × RequestVoteResponse).
                  y.1.vote_granted ≡ true → y.1.name ≡ a → y.1.term ≡ t → y.0 ≡ a)
                (sym e) new_vote granted by_a term)
        ];
      }

  -- A cluster at which the invariant holds, with a leader, however it goes on.
  pub Reach-Since :
      (members : List Text) (t : ℕ) (a : Text) (d e : Cluster S)
      → AreMembers members
      → In a members
      → Holds members d
      → (d.nodes a).current_term ≡ t
      → is_leader (d.nodes a).state ≡ true
      → Reach members d e
      → Holds members e × Since t a d.responses e
  Reach-Since members t a d _ names member h now leads start = (
    h,
    record { led = inr (now, leads); kept = λ k r x. x; later = λ k r x granted by_a term. inl x },
  )
  Reach-Since members t a d e names member h now leads (after b _ before step) =
      let (hb, since) = Reach-Since members t a d b names member h now leads before in
      (
        Step-Holds members b e names step hb,
        Step-Since members t a d.responses b e names member hb step since,
      )
