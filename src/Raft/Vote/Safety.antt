-- ===== src/Raft/Vote/Safety.antt =====
-- How a node votes and is elected (src/node_rpc_r.cpp).
use ctx_db.Prelude.{
  ℕ, ◌≤◌, ◌<◌, ◌≡◌, refl, ◌⊎◌, inl, inr, Bool, true, false, not, ◌&&◌, ◌||◌, [], none, some, same,
  same_iff, arith, ltb, ◌==◌, Bool-cases, ◌∙◌, subst, ltb→lt,
}
use ctx_db.Raft.Types.{RaftNode, Env, RequestVoteRequest, RequestVoteResponse, vote_for_none}
use ctx_db.Raft.Log.{last_log_index, last_log_term, last_index_of, last_term_of}
use ctx_db.Raft.Peers.{is_running, is_peer_receive_enabled}
use ctx_db.Raft.Frame.{dump-SameCore}
use ctx_db.Raft.Role.{become_follower, reset_election_timeout, valid_seq}
use ctx_db.Raft.Vote.{vote_reply, grant, decide_vote, on_vote_request}

-- The log of a candidate is at least as complete: a later last term, or the same and no smaller index.
module _ {S : Type 0} where
  abbrev pub UpToDate : RequestVoteRequest → RaftNode S → Type 0
  UpToDate r n =
      (last_log_term n < r.last_log_term)
      ⊎ ((last_log_term n ≡ r.last_log_term) × (last_log_index n ≤ r.last_log_index))

  -- What an answer says of the state before and after it, the term as it is.
  abbrev pub Decided : RequestVoteRequest → RaftNode S → RequestVoteResponse → RaftNode S → Type 0
  Decided r n a m =
      (a.term ≡ n.current_term)
      × (m.current_term ≡ n.current_term)
      × ((a.vote_granted ≡ false) × (m.vote_for ≡ n.vote_for)
          ⊎ (m.vote_for ≡ r.name) × UpToDate r n × ((n.vote_for ≡ []) ⊎ (n.vote_for ≡ r.name)))

  refused-Decided :
      (env : Env) (r : RequestVoteRequest) (n m : RaftNode S) (a : RequestVoteResponse)
      → vote_reply env r false n ≡ (some a, m)
      → Decided r n a m
  refused-Decided env r n m a h =
      let kept = dump-SameCore n in
      let same_term : m.current_term ≡ n.current_term = ground (arith, kept) in
      let same_vote : m.vote_for ≡ n.vote_for = ground (arith, kept) in
      let refused : a.vote_granted ≡ false = ground arith in
      let term : a.term ≡ n.current_term = ground arith in
      (term, same_term, inl (refused, same_vote))

  granted-Decided :
      (env : Env) (r : RequestVoteRequest) (n x m : RaftNode S) (a : RequestVoteResponse)
      → x.current_term ≡ n.current_term
      → UpToDate r n
      → (n.vote_for ≡ []) ⊎ (n.vote_for ≡ r.name)
      → vote_reply env r true (record x { leader_name = []; vote_for = r.name }) ≡ (some a, m)
      → Decided r n a m
  granted-Decided env r n x m a same up free h =
      let kept = dump-SameCore (record x { leader_name = []; vote_for = r.name }) in
      let same_term : m.current_term ≡ n.current_term = ground (arith, kept) in
      let vote : m.vote_for ≡ r.name = ground (arith, kept) in
      let term : a.term ≡ n.current_term = ground arith in (term, same_term, inr (vote, up, free))

  grant-Decided :
      (env : Env) (r : RequestVoteRequest) (n : RaftNode S) (v : Bool × RaftNode S) (m : RaftNode S)
      (a : RequestVoteResponse)
      → v.1.current_term ≡ n.current_term
      → UpToDate r n
      → (n.vote_for ≡ []) ⊎ (n.vote_for ≡ r.name)
      → grant env r v ≡ (some a, m)
      → Decided r n a m
  grant-Decided env r n (true, x) m a same up free h = granted-Decided env r n x m a same up free h
  grant-Decided env r n (false, x) m a same up free h = cc

  term-valid_seq :
      (seq : ℕ) (initial : Bool) (n : RaftNode S)
      → (valid_seq seq initial n).1.current_term ≡ n.current_term
  unfolding valid_seq
  term-valid_seq seq initial n = ground arith

  decide-Decided :
      (env : Env) (r : RequestVoteRequest) (n m : RaftNode S) (a : RequestVoteResponse)
      → decide_vote env r n ≡ (some a, m)
      → Decided r n a m
  unfolding decide_vote
  decide-Decided env r n m a h =
      elim (Bool-cases (not (same n.vote_for vote_for_none) && not (same n.vote_for r.name))) [
        | inl other ↦ refused-Decided env r n m a (rw other at h)
        | inr free ↦ elim (Bool-cases (ltb r.last_log_term (last_log_term n))) [
          | inl older ↦ refused-Decided env r n m a (rw (free, older) at h)
          | inr newer ↦
              elim (Bool-cases
                (r.last_log_term == last_log_term n && ltb r.last_log_index (last_log_index n))) [
                  | inl shorter ↦ refused-Decided env r n m a (rw (free, newer, shorter) at h)
                  | inr longer ↦
                      grant-Decided env r n (valid_seq r.seq r.initial n) m a
                        (term-valid_seq r.seq r.initial n) (ground arith)
                        (ground
                          (arith, same_iff n.vote_for vote_for_none, same_iff n.vote_for r.name))
                        (rw (free, newer, longer) at h)
                ]
        ]
      ]

  -- The node as it meets a candidate of a newer term: a follower of that term without a vote.
  abbrev pub joined : Env → RequestVoteRequest → RaftNode S → RaftNode S
  joined env r n =
      reset_election_timeout env (record (become_follower r.term n) { leader_name = [] })

  pub joined-lem :
      (env : Env) (r : RequestVoteRequest) (n : RaftNode S)
      → ((joined env r n).current_term ≡ r.term)
        × ((joined env r n).vote_for ≡ [])
        × ((joined env r n).logs ≡ n.logs)
  unfolding reset_election_timeout become_follower
  joined-lem env r n = (refl, refl, refl)

  -- The two ways to an answer: the decision in the node's own term, or in the newer one.
  pub answered-lem :
      (env : Env) (r : RequestVoteRequest) (n m : RaftNode S) (a : RequestVoteResponse)
      → on_vote_request env r n ≡ (some a, m)
      → ((r.term ≤ n.current_term)
          × Decided r n a m
          × ((a.vote_granted ≡ true) → r.term ≡ n.current_term))
        ⊎ ((n.current_term < r.term) × Decided r (joined env r n) a m)
  unfolding on_vote_request
  answered-lem env r n m a h =
      elim (Bool-cases (not (is_running n) || not (is_peer_receive_enabled n r.name))) [
        | inl off ↦ ground arith
        | inr on ↦ elim (Bool-cases (ltb r.time n.start_timepoint)) [
          | inl late ↦ ground arith
          | inr timely ↦ elim (Bool-cases (ltb n.current_term r.term)) [
            | inl newer ↦ inr (
              ground arith,
              decide-Decided env r (joined env r n) m a (rw (on, timely, newer) at h),
            )
            | inr same_or_older ↦ elim (Bool-cases (ltb r.term n.current_term)) [
              | inl older ↦
                  let refused =
                    refused-Decided env r n m a (rw (on, timely, same_or_older, older) at h) in
                  inl (ground arith, refused, ground arith)
              | inr equal ↦ inl (
                ground arith,
                decide-Decided env r n m a (rw (on, timely, same_or_older, equal) at h),
                λ _. ground arith,
              )
            ]
          ]
        ]
      ]

  -- A vote is granted only in the candidate's term, which the node then has and which is not below
  -- its own; the candidate's log is at least as complete as the node's; and in that term the node
  -- had voted for nobody else.
  pub granted_conditions :
      (env : Env) (r : RequestVoteRequest) (n m : RaftNode S) (a : RequestVoteResponse)
      → on_vote_request env r n ≡ (some a, m)
      → a.vote_granted ≡ true
      → (a.term ≡ r.term)
        × (m.current_term ≡ r.term)
        × (n.current_term ≤ r.term)
        × (m.vote_for ≡ r.name)
        × UpToDate r n
        × ((n.current_term < r.term) ⊎ (n.vote_for ≡ []) ⊎ (n.vote_for ≡ r.name))
  unfolding last_log_index last_log_term
  granted_conditions env r n m a h g = elim (answered-lem env r n m a h) [
    | inl (le, (term, kept, inl (refused, _)), same_term) ↦ cc
    | inl (le, (term, kept, inr (vote, up, free)), same_term) ↦
        let eq = same_term g in (ground arith, ground arith, ground arith, vote, up, inr free)
    | inr (lt, (term, kept, inl (refused, _))) ↦ cc
    | inr (lt, (term, kept, inr (vote, up, free))) ↦
        let at = joined-lem env r n in
        (
          term ∙ at.0,
          kept ∙ at.0,
          ground arith,
          vote,
          subst
              (λ l.
                (last_term_of l < r.last_log_term)
                ⊎ ((last_term_of l ≡ r.last_log_term) × (last_index_of l ≤ r.last_log_index)))
              at.2 up,
          inl lt,
        )
  ]

  -- What a request that gets no answer leaves.
  ignored-decide :
      (env : Env) (r : RequestVoteRequest) (n m : RaftNode S)
      → decide_vote env r n ≡ (none, m)
      → (m.current_term ≡ n.current_term) × (m.vote_for ≡ n.vote_for)
  unfolding decide_vote valid_seq
  ignored-decide env r n m h = ground arith

  pub ignored-lem :
      (env : Env) (r : RequestVoteRequest) (n m : RaftNode S)
      → on_vote_request env r n ≡ (none, m)
      → ((m.current_term ≡ n.current_term) × (m.vote_for ≡ n.vote_for))
        ⊎ (n.current_term < m.current_term)
  unfolding on_vote_request
  ignored-lem env r n m h =
      elim (Bool-cases (not (is_running n) || not (is_peer_receive_enabled n r.name))) [
        | inl off ↦ inl (ground arith, ground arith)
        | inr on ↦ elim (Bool-cases (ltb r.time n.start_timepoint)) [
          | inl late ↦ inl (ground arith, ground arith)
          | inr timely ↦ elim (Bool-cases (ltb n.current_term r.term)) [
            | inl newer ↦
                let kept = ignored-decide env r (joined env r n) m (rw (on, timely, newer) at h) in
                inr (omega (arith, kept.0, (joined-lem env r n).0, ltb→lt _ _ newer))
            | inr same_or_older ↦ elim (Bool-cases (ltb r.term n.current_term)) [
              | inl older ↦ ground arith
              | inr equal ↦
                  inl (ignored-decide env r n m (rw (on, timely, same_or_older, equal) at h))
            ]
          ]
        ]
      ]
