-- ===== src/Raft/Vote/Saved.antt =====
-- Before a node answers a candidate, it writes its term and its vote into the file
-- (`on_vote_request`, src/node_rpc_r.cpp, and `Dump`, src/node_persister.cpp).
use ctx_db.Prelude.{
  ℕ, ◌≡◌, refl, inl, inr, true, false, [], Option, none, some, arith, ◌∙◌, Bool, not, ◌||◌,
  Bool-cases, ltb, ap, subst, same, ◌&&◌, ◌==◌,
}
use ctx_db.Raft.Types.{RaftNode, Env, RequestVoteRequest, RequestVoteResponse, vote_for_none}
use ctx_db.Raft.Log.{last_log_index, last_log_term}
use ctx_db.Raft.Peers.{is_running, is_peer_receive_enabled}
use ctx_db.Raft.Persist.{persist_record_of, dump}
use ctx_db.Raft.Persist.Saved.{IsSaved, dump-running}
use ctx_db.Raft.Role.{become_follower, reset_election_timeout, valid_seq}
use ctx_db.Raft.Vote.{vote_reply, grant, decide_vote, on_vote_request}
use ctx_db.Raft.Vote.Safety.{joined}

module _ {S : Type 0} where
  dump-IsSaved : (n : RaftNode S) → is_running n ≡ true → IsSaved (dump n)
  unfolding persist_record_of
  dump-IsSaved n running = rw (dump-running n running) (_, refl, refl, refl)

  reply-IsSaved :
      (env : Env) (r : RequestVoteRequest) (g : Bool) (n m : RaftNode S)
      (o : Option RequestVoteResponse)
      → is_running n ≡ true
      → vote_reply env r g n ≡ (o, m)
      → IsSaved m
  reply-IsSaved env r g n m o running h = subst IsSaved (ap (λ x. x.1) h) (dump-IsSaved n running)

  grant-IsSaved :
      (env : Env) (r : RequestVoteRequest) (v : Bool × RaftNode S) (m : RaftNode S)
      (a : RequestVoteResponse)
      → is_running v.1 ≡ true
      → grant env r v ≡ (some a, m)
      → IsSaved m
  unfolding is_running
  grant-IsSaved env r (true, x) m a running h =
      reply-IsSaved env r true (record x { leader_name = []; vote_for = r.name }) m (some a) running
        h
  grant-IsSaved env r (false, x) m a running h = cc

  running-valid_seq :
      (seq : ℕ) (initial : Bool) (n : RaftNode S)
      → is_running (valid_seq seq initial n).1 ≡ is_running n
  unfolding valid_seq is_running
  running-valid_seq seq initial n = ground arith

  decide-IsSaved :
      (env : Env) (r : RequestVoteRequest) (n m : RaftNode S) (a : RequestVoteResponse)
      → is_running n ≡ true
      → decide_vote env r n ≡ (some a, m)
      → IsSaved m
  unfolding decide_vote
  decide-IsSaved env r n m a running h =
      let refused = λ (e : vote_reply env r false n ≡ (some a, m)).
        reply-IsSaved env r false n m (some a) running e in
      elim (Bool-cases (not (same n.vote_for vote_for_none) && not (same n.vote_for r.name))) [
        | inl other ↦ refused (rw other at h)
        | inr free ↦ elim (Bool-cases (ltb r.last_log_term (last_log_term n))) [
          | inl older ↦ refused (rw (free, older) at h)
          | inr newer ↦
              elim (Bool-cases
                (r.last_log_term == last_log_term n && ltb r.last_log_index (last_log_index n))) [
                  | inl shorter ↦ refused (rw (free, newer, shorter) at h)
                  | inr longer ↦
                      grant-IsSaved env r (valid_seq r.seq r.initial n) m a
                        (running-valid_seq r.seq r.initial n ∙ running)
                        (rw (free, newer, longer) at h)
                ]
        ]
      ]

  running-joined :
      (env : Env) (r : RequestVoteRequest) (n : RaftNode S)
      → is_running n ≡ true
      → is_running (joined env r n) ≡ true
  unfolding is_running reset_election_timeout become_follower
  running-joined env r n h = ground arith

  -- A node that answers has written its term and its vote into the file.
  pub answered-IsSaved :
      (env : Env) (r : RequestVoteRequest) (n m : RaftNode S) (a : RequestVoteResponse)
      → on_vote_request env r n ≡ (some a, m)
      → IsSaved m
  unfolding on_vote_request
  answered-IsSaved env r n m a h =
      elim (Bool-cases (not (is_running n) || not (is_peer_receive_enabled n r.name))) [
        | inl off ↦ absurd (ground (arith, off, h))
        | inr on ↦ elim (Bool-cases (ltb r.time n.start_timepoint)) [
          | inl late ↦ absurd (ground (arith, on, late, h))
          | inr timely ↦
              let running : is_running n ≡ true = ground (arith, on) in
              elim (Bool-cases (ltb n.current_term r.term)) [
                | inl newer ↦
                    decide-IsSaved env r (joined env r n) m a (running-joined env r n running)
                      (rw (on, timely, newer) at h)
                | inr same_or_older ↦ elim (Bool-cases (ltb r.term n.current_term)) [
                  | inl older ↦
                      reply-IsSaved env r false n m (some a) running
                        (rw (on, timely, same_or_older, older) at h)
                  | inr equal ↦
                      decide-IsSaved env r n m a running
                        (rw (on, timely, same_or_older, equal) at h)
                ]
              ]
        ]
      ]

  disk-decide :
      (env : Env) (r : RequestVoteRequest) (n m : RaftNode S)
      → decide_vote env r n ≡ (none, m)
      → m.disk ≡ n.disk
  unfolding decide_vote valid_seq
  disk-decide env r n m h = ground arith

  -- A request without an answer leaves the file as it was.
  pub disk-ignored :
      (env : Env) (r : RequestVoteRequest) (n m : RaftNode S)
      → on_vote_request env r n ≡ (none, m)
      → m.disk ≡ n.disk
  unfolding on_vote_request become_follower reset_election_timeout
  disk-ignored env r n m h =
      ground (arith, disk-decide env r n m, disk-decide env r (joined env r n) m)
