-- ===== src/Raft/Cluster/Reached.antt =====
-- Every step of a cluster keeps what holds of it (src/node_rpc_r.cpp).
use ctx_db.Prelude.{◌≡◌, sym, ap, ◌∙◌, List, [], none, some, Text, arith, subst}
use ctx_db.Raft.Types.{request_vote}
use ctx_db.Raft.Vote.{do_election}
use ctx_db.Raft.Vote.Safety.{granted_conditions}
use ctx_db.Raft.Cluster.{
  Cluster, Step, elect, respond, ignore, hear, receive, Reach, start, after, In, IsFresh,
}
use ctx_db.Raft.Cluster.Quorum.{AreMembers}
use ctx_db.Raft.Role.{handle_request_routine}
use ctx_db.Raft.Cluster.Handled.{
  handle_request_routine-Heard, Asked, on_vote_request-Asked, on_vote_request-name, do_election-lem,
}
use ctx_db.Raft.Cluster.Counted.{complete_vote-Counted}
use ctx_db.Raft.Cluster.Invariant.{Holds, member-nonempty}
use ctx_db.Raft.Cluster.Update.{change_one, change_and_send}
use ctx_db.Raft.Cluster.Heard.{Heard-NodeHolds, Heard-Keeps}
use ctx_db.Raft.Cluster.Kept.{
  elected-NodeHolds, Asked-Keeps, request-KeepsVote, Asked-NodeHolds, Counted-NodeHolds,
  Counted-Keeps, voter-no_candidate,
}

module _ {S : Type 0} where
  pub Step-Holds :
      (members : List Text) (c d : Cluster S)
      → AreMembers members
      → Step members c d
      → Holds members c
      → Holds members d
  Step-Holds members c _ names (elect env k member small) h =
      let n = c.nodes k in
      let term = (do_election-lem env n (h.each k member).active small).2 in
      change_one members c k (do_election env n) names h
        (omega (arith, term), λ e. absurd (omega (arith, term, e)))
        (elected-NodeHolds members c.responses k env n small (h.each k member))
  Step-Holds members c _ names (ignore env k j r m member member' asked run) h =
      let n = c.nodes j in
      let kept = request-KeepsVote env r n m none run in
      let is_asked = subst (Asked n) (ap (λ x. x.1) run) (on_vote_request-Asked env r n) in
      change_one members c j m names h (Asked-Keeps n m kept is_asked) (
        Asked-NodeHolds members c.responses j n m (member-nonempty j members names member') kept
          is_asked (h.each j member'))
  Step-Holds members c _ names (respond env k j r a m member member' asked run) h =
      let n = c.nodes j in
      let kept = request-KeepsVote env r n m (some a) run in
      let is_asked = subst (Asked n) (ap (λ x. x.1) run) (on_vote_request-Asked env r n) in
      let (from_k, other) = (h.each k member).sent j r asked in
      let holds = h.each j member' in
      change_and_send members c j k a m names member h (Asked-Keeps n m kept is_asked)
        (Asked-NodeHolds members c.responses j n m (member-nonempty j members names member') kept
          is_asked (h.each j member'))
        (on_vote_request-name env r n m a run ∙ (h.each j member').name)
        (λ granted.
          let (term, now, _, to_it, _, free) = granted_conditions env r n m a run granted in
          (
            term ∙ sym now,
            to_it ∙ from_k,
            voter-no_candidate n m r k j (member-nonempty j members names member') other from_k now
                free is_asked holds.own,
          ))
  Step-Holds members c _ names (hear env j from term member) h =
      let n = c.nodes j in
      let m = (handle_request_routine env from term n).1 in
      let heard = handle_request_routine-Heard env from term n in
      change_one members c j m names h (Heard-Keeps n m heard)
        (Heard-NodeHolds members c.responses j n m heard (h.each j member))
  Step-Holds members c _ names (receive k r m member sent le run) h =
      let n = c.nodes k in
      let holds = h.each k member in
      let counted = complete_vote-Counted r n m holds.steady holds.active run in
      change_one members c k m names h (Counted-Keeps r n m counted)
        (Counted-NodeHolds members c.responses k r n m sent le counted holds)

  -- A cluster as it starts: all members are fresh and no response was sent.
  pub record IsInitial (members : List Text) (c : Cluster S) : Type 0 where
    pub nodes : (k : Text) → In k members → IsFresh members k (c.nodes k)
    pub responses : c.responses ≡ []

  initial-Holds : (members : List Text) (c : Cluster S) → IsInitial members c → Holds members c
  initial-Holds members c h = record {
    each = λ k i.
        let fresh = h.nodes k i in
        record {
          name = fresh.name;
          steady = fresh.steady;
          peers = fresh.peers;
          active = fresh.active;
          sent = λ j r x. absurd (subst (λ l. In (j, request_vote r) l) fresh.outbox x);
          own = λ runs. ground (arith, runs, fresh.state);
          votes = λ runs v e. ground (arith, runs, fresh.state);
          wins = λ leads. ground (arith, leads, fresh.state);
        };
    bound = λ k a i g. absurd (subst (λ l. In (k, a) l) h.responses i);
    unique = λ k k' a a' i i' g g' e e'. absurd (subst (λ l. In (k, a) l) h.responses i);
  }

  pub Reach-Holds :
      (members : List Text) (c d : Cluster S)
      → AreMembers members
      → IsInitial members c
      → Reach members c d
      → Holds members d
  Reach-Holds members c _ names h start = initial-Holds members c h
  Reach-Holds members c d names h (after b _ before step) =
      Step-Holds members b d names step (Reach-Holds members c b names h before)
