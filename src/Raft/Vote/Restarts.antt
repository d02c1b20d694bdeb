-- ===== src/Raft/Vote/Restarts.antt =====
-- One vote in a term, over requests and restarts (`on_vote_request`, src/node_rpc_r.cpp, `Dump` and
-- `Load`, src/node_persister.cpp, and `run`, src/node.cpp).
-- The process may end between two requests; a new object then loads the file that the old one left.
use ctx_db.Prelude.{
  ℕ, ◌<◌, ◌≡◌, ◌≢◌, refl, ◌⊎◌, inl, inr, true, false, List, [], ◌∷◌, Option, none, some, Text,
  arith, ◌∙◌, not, Bool-cases, bind_some, ap, subst,
}
use ctx_db.Raft.Types.{
  RaftNode, Env, RequestVoteRequest, RequestVoteResponse, PersistRecord, follower, is_not_running,
}
use ctx_db.Raft.Frame.{dump-SameCore}
use ctx_db.Raft.Persist.{dump, load_from, load}
use ctx_db.Raft.Persist.Saved.{IsSaved, dump-cases, load_from-some}
use ctx_db.Raft.Timer.{run, run_as}
use ctx_db.Raft.Vote.{on_vote_request}
use ctx_db.Raft.Vote.Safety.{granted_conditions}
use ctx_db.Raft.Vote.Saved.{answered-IsSaved, disk-ignored}
use ctx_db.Raft.Vote.Once.{AllGrantedTo, HasVoted, answered-HasVoted, ignored-HasVoted}

-- What happens to a node: a request arrives, or the node ends and a new object runs in its place.
pub data Event (S : Type 0) : Type 0 where
  asked : Env → RequestVoteRequest → Event S
  restarted : Env → RaftNode S → Event S

module _ {S : Type 0} where
  -- The new object has the name and the file of the old one.
  unfoldable pub restart : Env → RaftNode S → RaftNode S → Option (RaftNode S)
  unfolding run_as
  restart env fresh n = run_as env n.name (record fresh { disk = n.disk })

  -- The answers in the order of the requests, until a restart fails.
  unfoldable pub votes_through :
      List (Event S) → RaftNode S → List (RequestVoteRequest × Option RequestVoteResponse)
  unfolding on_vote_request restart
  votes_through [] n = []
  votes_through (asked env r ∷ es) n =
      let (o, n') = on_vote_request env r n in (r, o) ∷ votes_through es n'
  votes_through (restarted env fresh ∷ es) n = elim (restart env fresh n) [
    | none ↦ []
    | some n' ↦ votes_through es n'
  ]

  -- The node and its file have voted for c in term t, or are past that term.
  abbrev Remembers : ℕ → Text → RaftNode S → Type 0
  Remembers t c n =
      HasVoted t c n
      × ((r : PersistRecord) × (n.disk ≡ some r)
          × ((t < r.term) ⊎ ((r.term ≡ t) × (r.vote_for ≡ c))))

  saved-Remembers :
      (t : ℕ) (c : Text) (n : RaftNode S) → HasVoted t c n → IsSaved n → Remembers t c n
  saved-Remembers t c n voted (r, at, term, vote) =
      (voted, (r, at, ground (arith, voted, term, vote)))

  run-lem :
      (env : Env) (n : RaftNode S)
      → ((run env n).current_term ≡ n.current_term)
        × ((run env n).vote_for ≡ n.vote_for)
        × (((run env n).disk ≡ n.disk) ⊎ IsSaved (run env n))
  unfolding run
  run-lem env n = elim (Bool-cases (not (is_not_running n.state))) [
    | inl already ↦ rw already (refl, refl, inl refl)
    | inr off ↦
        let started : RaftNode S = record n {
          start_timepoint = env.now;
          paused = false;
          state = follower;
          last_seq = 0;
        } in
        let kept = dump-SameCore started in
        let file : ((dump started).disk ≡ n.disk) ⊎ IsSaved (dump started) =
          elim (dump-cases started) [
            | inl same_node ↦ inl (ap (λ (x : RaftNode S). x.disk) same_node)
            | inr saved ↦ inr saved
          ] in
        rw off (kept.current_term, kept.vote_for, file)
  ]

  restart-Remembers :
      (t : ℕ) (c : Text) (env : Env) (fresh n m : RaftNode S)
      → Remembers t c n
      → restart env fresh n ≡ some m
      → Remembers t c m
  unfolding restart load
  restart-Remembers t c env fresh n m (voted, (r, at, kept)) h =
      let old : RaftNode S = record fresh { disk = n.disk; name = n.name } in
      let (loaded, from_file, is_run) =
        bind_some (load_from n.disk old) (λ x. some (run env x)) h in
      let (term, vote, disk) = load_from-some n.disk r old loaded at from_file in
      let (term', vote', file) = run-lem env loaded in
      let is_m : run env loaded ≡ m = ground (arith, is_run) in
      let again : HasVoted t c loaded = ground (arith, kept, term, vote) in
      let result : Remembers t c (run env loaded) = elim file [
        | inl same_file ↦ (ground (arith, again, term', vote'), (r, same_file ∙ disk ∙ at, kept))
        | inr saved ↦
            saved-Remembers t c (run env loaded) (ground (arith, again, term', vote')) saved
      ] in
      subst (Remembers t c) is_m result

  voted_once_through :
      (t : ℕ) (c : Text) (es : List (Event S)) (n : RaftNode S)
      → c ≢ []
      → Remembers t c n
      → AllGrantedTo t c (votes_through es n)
  unfolding votes_through
  voted_once_through t c [] n real v = tt
  voted_once_through t c (asked env r ∷ es) n real v =
      asked-go (on_vote_request env r n).0 (on_vote_request env r n).1
        (λ m. voted_once_through t c es m real) refl
    where
      asked-go :
          (o : Option RequestVoteResponse) (m : RaftNode S)
          → ((m : RaftNode S) → Remembers t c m → AllGrantedTo t c (votes_through es m))
          → on_vote_request env r n ≡ (o, m)
          → AllGrantedTo t c ((r, o) ∷ votes_through es m)
      asked-go none m rest e =
          let (file, at, kept) = v.1 in
          rest m (ignored-HasVoted t c env r n m v.0 e, (file, disk-ignored env r n m e ∙ at, kept))
      asked-go (some a) m rest e =
          let (still, to_c) = answered-HasVoted t c env r n m a real v.0 e in
          (to_c, rest m (saved-Remembers t c m still (answered-IsSaved env r n m a e)))
  voted_once_through t c (restarted env fresh ∷ es) n real v =
      restarted-go (restart env fresh n) (λ m. voted_once_through t c es m real) refl
    where
      restarted-go :
          (o : Option (RaftNode S))
          → ((m : RaftNode S) → Remembers t c m → AllGrantedTo t c (votes_through es m))
          → restart env fresh n ≡ o
          → AllGrantedTo t c (elim o [ none ↦ [] | some m ↦ votes_through es m ])
      restarted-go none rest e = tt
      restarted-go (some m) rest e = rest m (restart-Remembers t c env fresh n m v e)

  -- Once a node has granted its vote to a candidate, whose name is not empty, all the votes that
  -- it grants in the candidate's term afterwards go to the same candidate: over any further
  -- requests, and although the node may end after any of them and a new object, whatever its fields
  -- are, load the file and run in its place.
  pub one_vote_through_restarts :
      (env : Env) (r : RequestVoteRequest) (n m : RaftNode S) (a : RequestVoteResponse)
      (es : List (Event S))
      → r.name ≢ []
      → on_vote_request env r n ≡ (some a, m)
      → a.vote_granted ≡ true
      → AllGrantedTo r.term r.name (votes_through es m)
  one_vote_through_restarts env r n m a es real h g =
      let (_, term, _, vote, _, _) = granted_conditions env r n m a h g in
      voted_once_through r.term r.name es m real
        (saved-Remembers r.term r.name m (inr (term, vote)) (answered-IsSaved env r n m a h))
