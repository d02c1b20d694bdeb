-- ===== src/Raft/Vote/Once.antt =====
-- One vote in a term, over any number of requests (`on_vote_request`, src/node_rpc_r.cpp).
use ctx_db.Prelude.{
  ℕ, ◌<◌, ◌≡◌, ◌≢◌, refl, sym, ◌⊎◌, inl, inr, true, List, [], ◌∷◌, Option, none, some, Text, arith,
  ◌∙◌,
}
use ctx_db.Raft.Types.{RaftNode, Env, RequestVoteRequest, RequestVoteResponse}
use ctx_db.Raft.Vote.{on_vote_request}
use ctx_db.Raft.Vote.Safety.{granted_conditions, joined-lem, answered-lem, ignored-lem}

-- A vote that is given in term t goes to c.
abbrev pub GrantedTo : ℕ → Text → RequestVoteRequest → RequestVoteResponse → Type 0
GrantedTo t c r a = a.vote_granted ≡ true → r.term ≡ t → r.name ≡ c

free_or_same : (c x y : Text) → c ≢ [] → x ≡ c → (x ≡ []) ⊎ (x ≡ y) → y ≡ c
free_or_same c x y real e (inl none_yet) = absurd (real (sym e ∙ none_yet))
free_or_same c x y real e (inr again) = sym again ∙ e

abbrev pub AllGrantedTo : ℕ → Text → List (RequestVoteRequest × Option RequestVoteResponse) → Type 0
AllGrantedTo t c [] = Unit
AllGrantedTo t c ((r, none) ∷ os) = AllGrantedTo t c os
AllGrantedTo t c ((r, some a) ∷ os) = GrantedTo t c r a × AllGrantedTo t c os

module _ {S : Type 0} where
  -- The node has voted for c in term t, and has not forgotten it.
  abbrev pub HasVoted : ℕ → Text → RaftNode S → Type 0
  HasVoted t c n = (t < n.current_term) ⊎ ((n.current_term ≡ t) × (n.vote_for ≡ c))

  pub answered-HasVoted :
      (t : ℕ) (c : Text) (env : Env) (r : RequestVoteRequest) (n m : RaftNode S)
      (a : RequestVoteResponse)
      → c ≢ []
      → HasVoted t c n
      → on_vote_request env r n ≡ (some a, m)
      → HasVoted t c m × GrantedTo t c r a
  answered-HasVoted t c env r n m a real v h = elim (answered-lem env r n m a h) [
    | inl (le, (term, kept, inl (refused, vote)), same_term) ↦
        (ground (arith, v, kept, vote), λ g _. cc)
    | inl (le, (term, kept, inr (vote, up, free)), same_term) ↦ elim v [
      | inl past ↦
          (inl (omega (arith, past, kept)), λ g e. absurd (omega (arith, past, same_term g, e)))
      | inr (now, mine) ↦
          let to_c = free_or_same c n.vote_for r.name real mine free in
          (inr (kept ∙ now, vote ∙ to_c), λ _ _. to_c)
    ]
    | inr (lt, (term, kept, out)) ↦
        let at = (joined-lem env r n).0 in
        (ground (arith, v, lt, kept, at), λ g e. absurd (ground (arith, v, lt, e)))
  ]

  pub ignored-HasVoted :
      (t : ℕ) (c : Text) (env : Env) (r : RequestVoteRequest) (n m : RaftNode S)
      → HasVoted t c n
      → on_vote_request env r n ≡ (none, m)
      → HasVoted t c m
  ignored-HasVoted t c env r n m v h = ground (arith, ignored-lem env r n m h)

  -- The node answers one request after another; the answers, in the order of the requests.
  unfoldable pub votes_after :
      List (Env × RequestVoteRequest)
      → RaftNode S
      → List (RequestVoteRequest × Option RequestVoteResponse) × RaftNode S
  unfolding on_vote_request
  votes_after [] n = ([], n)
  votes_after ((env, r) ∷ rs) n =
      let (o, n') = on_vote_request env r n in
      let (answers, m) = votes_after rs n' in ((r, o) ∷ answers, m)

  voted_once :
      (t : ℕ) (c : Text) (rs : List (Env × RequestVoteRequest)) (n : RaftNode S)
      → c ≢ []
      → HasVoted t c n
      → AllGrantedTo t c (votes_after rs n).0
  unfolding votes_after
  voted_once t c [] n real v = tt
  voted_once t c ((env, r) ∷ rs) n real v = go _ (λ m. voted_once t c rs m real) refl
    where
      go :
          (x : Option RequestVoteResponse × RaftNode S)
          → ((m : RaftNode S) → HasVoted t c m → AllGrantedTo t c (votes_after rs m).0)
          → on_vote_request env r n ≡ x
          → AllGrantedTo t c ((r, x.0) ∷ (votes_after rs x.1).0)
      go (none, m) rest e = rest m (ignored-HasVoted t c env r n m v e)
      go (some a, m) rest e =
          let (still, to_c) = answered-HasVoted t c env r n m a real v e in (to_c, rest m still)

  -- Once a node has granted its vote to a candidate, whose name is not empty, all the votes that
  -- it grants in the candidate's term afterwards, over any further requests, go to the same
  -- candidate.
  one_vote_per_term :
      (env : Env) (r : RequestVoteRequest) (n m : RaftNode S) (a : RequestVoteResponse)
      (rs : List (Env × RequestVoteRequest))
      → r.name ≢ []
      → on_vote_request env r n ≡ (some a, m)
      → a.vote_granted ≡ true
      → AllGrantedTo r.term r.name (votes_after rs m).0
  one_vote_per_term env r n m a rs real h g =
      let (_, term, _, vote, _, _) = granted_conditions env r n m a h g in
      voted_once r.term r.name rs m real (inr (term, vote))
