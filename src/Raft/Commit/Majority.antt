-- ===== src/Raft/Commit/Majority.antt =====
-- When the leader advances its commit index (`on_append_entries_response`, src/node_rpc_a.cpp).
use ctx_db.Prelude.{
  ℕ, ◌/◌, ◌<◌, ◌≡◌, refl, sym, ◌∙◌, ◌⊎◌, inl, inr, Bool, false, ◌&&◌, List, Option, none, some,
  Text, arith, leb, ◌==◌, Bool-cases, bind_some, if_false,
}
use ctx_db.Raft.Types.{RaftNode, NodePeer, LogEntry}
use ctx_db.Raft.Log.{gl}
use ctx_db.Raft.Peers.{votes_of, voters_of, enough_votes, compute_votes_thres, is_majority}
use ctx_db.Raft.Apply.{Callbacks}
use ctx_db.Raft.Frame.{do_apply-SameCore}
use ctx_db.Raft.Commit.{Flags, normal_test_commit, try_commit}

-- More than half of the voters have the entry at index i: the leader itself and the peers with
-- voting rights whose `match_index` has reached it.
abbrev pub Replicated : ℕ → List (Text × NodePeer) → Type 0
Replicated i peers =
    voters_of peers / 2 < votes_of (λ p. p.voting_rights && leb i p.match_index) peers

elim_none {ℓ κ} :
    {A : Type ℓ} {B : Type κ} (o : Option A) (x : B) (f : A → B)
    → o ≡ none
    → elim o [ none ↦ x | some a ↦ f a ] ≡ x
elim_none none x f h = refl
elim_none (some a) x f h = cc

module _ {S : Type 0} where
  -- The entry at index i is of the present term.
  abbrev pub OfTerm : ℕ → RaftNode S → Type 0
  OfTerm i n = (e : LogEntry) × (gl n i ≡ some e) × (e.term ≡ n.current_term)

module _ {S : Type 0} (cb : Callbacks S) where
  normal_test_commit-lem :
      (i : ℕ) (n m : RaftNode S)
      → normal_test_commit cb i n ≡ some m
      → (m.logs ≡ n.logs)
        × (m.current_term ≡ n.current_term)
        × ((m.commit_index ≡ n.commit_index) ⊎ (m.commit_index ≡ i) × Replicated i n.peers)
  unfolding normal_test_commit enough_votes compute_votes_thres
  normal_test_commit-lem i n m h =
      elim (Bool-cases (
        is_majority (votes_of (λ p. p.voting_rights && leb i p.match_index) n.peers)
          (voters_of n.peers))) [
            | inr less ↦ ground arith
            | inl more ↦
                let same =
                  do_apply-SameCore cb false (record n { commit_index = i }) m (rw more at h) in
                (same.logs, same.current_term, inr (same.commit_index, ground arith))
          ]

  -- Outside a change of the configuration, the vote on index i leaves the log and the term alone. It
  -- leaves the commit index, or moves it forward to i; then the entry at i is of the present term
  -- and more than half of the voters have it.
  pub commit_needs_majority :
      (i : ℕ) (finish : Bool) (n m : RaftNode S) (f : Flags)
      → n.trans_conf ≡ none
      → try_commit cb i finish n ≡ some (f, m)
      → (m.logs ≡ n.logs)
        × (m.current_term ≡ n.current_term)
        × ((m.commit_index ≡ n.commit_index)
            ⊎ (n.commit_index < i) × (m.commit_index ≡ i) × OfTerm i n × Replicated i n.peers)
  unfolding try_commit
  commit_needs_majority i finish n m f steady h = elim (Bool-cases (leb i n.commit_index)) [
    | inl old ↦ ground arith
    | inr ahead ↦
        let (e, found, h1) = bind_some (gl n i) _ (sym (if_false _ ahead) ∙ h) in
        elim (Bool-cases (n.current_term == e.term)) [
          | inr other ↦ ground arith
          | inl own ↦
              let own' = own in
              let h2 = sym (elim_none n.trans_conf _ _ steady) ∙ rw own at h1 in
              let (x, tested, h3) = bind_some (normal_test_commit cb i n) _ h2 in
              let a = normal_test_commit-lem i n x tested in
              let at : OfTerm i n = (e, found, ground (arith, own')) in ground (arith, a, h3, at)
        ]
  ]
