-- ===== src/Raft/Cluster/Safety.antt =====
-- Elections of a cluster are safe (src/node_rpc_r.cpp).
use ctx_db.Prelude.{
  ℕ, ◌≡◌, refl, sym, ap, ◌∙◌, inl, inr, true, false, List, Text, same, same→eq, arith, Bool-cases,
  subst,
}
use ctx_db.Raft.Types.{is_leader}
use ctx_db.Raft.Cluster.{Cluster, Reach, start, In}
use ctx_db.Raft.Cluster.Quorum.{AreMembers, backs, majority-backs, in_common}
use ctx_db.Raft.Cluster.Invariant.{Holds, Voted}
use ctx_db.Raft.Cluster.History.{Since, Reach-Since}
use ctx_db.Raft.Cluster.Reached.{IsInitial, Reach-Holds}

module _ {S : Type 0} where
  -- A leader that another candidate of its term has as a voter is that candidate.
  voter-leader :
      (members : List Text) (c : Cluster S) (a b : Text) (t : ℕ)
      → Holds members c
      → In a members
      → is_leader (c.nodes a).state ≡ true
      → (c.nodes a).current_term ≡ t
      → Voted c.responses a t b
      → a ≡ b
  voter-leader members c a b t h i leads now (r, sent, granted, from, term) =
      let (_, bound) = h.bound b r sent granted in
      let at : r.term ≡ (c.nodes r.name).current_term =
        term ∙ sym now ∙ ap (λ x. (c.nodes x).current_term) (sym from) in
      sym ((h.each a i).own (inr leads))
      ∙ ap (λ x. (c.nodes x).vote_for) (sym from)
      ∙ (bound.1 at).0

  -- A member that led before, and is the voter of a later leader of its term, is that leader.
  voter-past :
      (members : List Text) (d e : Cluster S) (a b : Text) (t : ℕ)
      → Holds members d
      → In a members
      → is_leader (d.nodes a).state ≡ true
      → (d.nodes a).current_term ≡ t
      → Since t a d.responses e
      → Voted e.responses a t b
      → a ≡ b
  voter-past members d e a b t h i leads now since (r, sent, granted, from, term) =
      elim (since.later b r sent granted from term) [
        | inl before ↦ voter-leader members d a b t h i leads now (r, before, granted, from, term)
        | inr is_a ↦ sym is_a
      ]

  -- However the members of a cluster elect, and however they hear from leaders, from a start at which
  -- each is a follower with all the others as its peers and no response was sent, with names that
  -- are not empty and not twice: a member that leads in a term, at whatever time, and a member that
  -- leads in the same term then or at whatever time afterwards are the same, so that a term has one
  -- leader at most in the whole run. A response is only taken in by a node whose term is not newer,
  -- and no election starts where the next term would reach the end of its 64 bits.
  pub one_leader_ever :
      (members : List Text) (c d e : Cluster S) (a b : Text)
      → AreMembers members
      → IsInitial members c
      → Reach members c d
      → Reach members d e
      → In a members
      → In b members
      → is_leader (d.nodes a).state ≡ true
      → is_leader (e.nodes b).state ≡ true
      → (d.nodes a).current_term ≡ (e.nodes b).current_term
      → a ≡ b
  one_leader_ever members c d e a b names begins reach goes_on ia ib leads_a leads_b same_term =
      let t = (e.nodes b).current_term in
      let h = Reach-Holds members c d names begins reach in
      let (h', since) = Reach-Since members t a d e names ia h same_term leads_a goes_on in
      let na = h.each a ia in
      let nb = h'.each b ib in
      let pa = (d.nodes a).peers in
      let pb = (e.nodes b).peers in
      let many_a = majority-backs a pa members names ia na.active na.peers (na.wins leads_a) in
      let many_b = majority-backs b pb members names ib nb.active nb.peers (nb.wins leads_b) in
      let (v, for_a, for_b) =
        in_common (backs a pa) (backs b pb) members (omega (arith, many_a, many_b)) in
      let voted_a : same v a ≡ false → Voted e.responses v t a = λ not_a.
        let (r, sent, granted, from, term) =
          na.votes (inr leads_a) v (ground (arith, not_a, for_a)) in
        (r, since.kept a r sent, granted, from, term ∙ same_term) in
      let voted_b : same v b ≡ false → Voted e.responses v t b =
        λ not_b. nb.votes (inr leads_b) v (ground (arith, not_b, for_b)) in
      elim (Bool-cases (same v a)) [
        | inl is_a ↦ elim (Bool-cases (same v b)) [
          | inl is_b ↦ sym (same→eq v a is_a) ∙ same→eq v b is_b
          | inr not_b ↦
              voter-past members d e a b t h ia leads_a same_term since
                (subst (λ x. Voted e.responses x t b) (same→eq v a is_a) (voted_b not_b))
        ]
        | inr not_a ↦ elim (Bool-cases (same v b)) [
          | inl is_b ↦ sym (
              voter-leader members e b a t h' ib leads_b refl
                (subst (λ x. Voted e.responses x t a) (same→eq v b is_b) (voted_a not_a)))
          | inr not_b ↦
              let (r, sent, granted, from, term) = voted_a not_a in
              let (r', sent', granted', from', term') = voted_b not_b in
              h'.unique a b r r' sent sent' granted granted' (from ∙ sym from') (term ∙ sym term')
        ]
      ]

  -- In particular two members that lead in the same term at the same time are the same.
  one_leader_per_term :
      (members : List Text) (c d : Cluster S) (a b : Text)
      → AreMembers members
      → IsInitial members c
      → Reach members c d
      → In a members
      → In b members
      → is_leader (d.nodes a).state ≡ true
      → is_leader (d.nodes b).state ≡ true
      → (d.nodes a).current_term ≡ (d.nodes b).current_term
      → a ≡ b
  one_leader_per_term members c d a b names begins reach =
      one_leader_ever members c d d a b names begins reach start
