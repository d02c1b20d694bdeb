-- ===== src/Raft/Append/Request.antt =====
-- The whole handler `on_append_entries_request` (src/node_rpc_a.cpp): the term, the log and the
-- commit index that it leaves, on every path.
use ctx_db.Prelude.{
  ℕ, zero, suc, ◌+◌, ◌-◌, ◌≤◌, ◌≡◌, refl, ap, ◌∙◌, inl, inr, Bool, true, false, not, ◌||◌, ◌&&◌,
  List, Option, some, Text, take, arith, max, leb, ltb, ◌==◌, Bool-cases, bind_some, asserting-some,
  subst,
}
use ctx_db.Raft.Types.{
  RaftNode, LogEntry, Env, AppendEntriesRequest, AppendEntriesResponse, default_index_cursor,
}
use ctx_db.Raft.Log.{sizes_agree, last_index_of, get_base_index, last_log_index, gl}
use ctx_db.Raft.Peers.{is_running, is_peer_receive_enabled, has_peer}
use ctx_db.Raft.Role.{handle_request_routine, valid_seq}
use ctx_db.Raft.Apply.{Callbacks}
use ctx_db.Raft.Append.{
  replace_after, accept_entries, match_log, revoke, revoked_reply, after_routine,
  on_append_entries_request,
}
use ctx_db.Raft.Append.Replace.{followed, accept_entries-lem}
use ctx_db.Raft.Frame.{dump-SameCore}

module _ {S : Type 0} where
  -- What the routine in front of the handler leaves alone.
  pub routine-keeps :
      (env : Env) (from : Text) (term : ℕ) (n : RaftNode S)
      → let (ok, m) = handle_request_routine env from term n in
        (m.logs ≡ n.logs)
        × (m.commit_index ≡ n.commit_index)
        × (m.current_term ≡ max n.current_term term)
        × (ok ≡ leb n.current_term term)
  unfolding handle_request_routine
  routine-keeps env from term n = ground arith

  valid_seq-keeps :
      (seq : ℕ) (initial : Bool) (n : RaftNode S)
      → let (ok, m) = valid_seq seq initial n in
        (m.logs ≡ n.logs) × (m.commit_index ≡ n.commit_index) × (m.current_term ≡ n.current_term)
  unfolding valid_seq
  valid_seq-keeps seq initial n = ground arith

  -- A revoked log is a beginning of the log, and still numbered one by one.
  pub revoke-take :
      (n : RaftNode S) (wrong i : ℕ) (l : List LogEntry) (index term : ℕ)
      → revoke n wrong i ≡ some (l, index, term)
      → (k : ℕ) × (l ≡ take k n.logs)
  unfolding revoke
  revoke-take n wrong zero l index term h = (0, ground arith)
  revoke-take n wrong (suc i) l index term h =
      let (e, found, h1) = bind_some (gl n (suc i)) _ h in
      elim (Bool-cases (e.term == wrong)) [
        | inl more ↦ revoke-take n wrong i l index term (rw more at h1)
        | inr stop ↦ (suc i + 1 - get_base_index n, ground arith)
      ]

-- The three ways in which the handler leaves the log.
pub data Outcome {S : Type 0} (r : AppendEntriesRequest) (n m : RaftNode S) : Type 0 where
  unchanged : m.logs ≡ n.logs → m.commit_index ≡ n.commit_index → Outcome r n m
  cut : (k : ℕ) → m.logs ≡ take k n.logs → m.commit_index ≡ n.commit_index → Outcome r n m
  replaced :
      (x : RaftNode S)
      → x.logs ≡ n.logs
      → x.commit_index ≡ n.commit_index
      → r.prev_log_index ≤ last_log_index n
      → m.logs ≡ (replace_after r x).logs
      → m.commit_index ≡ followed r (replace_after r x)
      → Outcome r n m

module _ {S : Type 0} (cb : Callbacks S) where
  accepted-Outcome :
      (env : Env) (r : AppendEntriesRequest) (n m : RaftNode S) (o : Option AppendEntriesResponse)
      → r.prev_log_index ≤ last_log_index n
      → accept_entries cb env r n ≡ some (o, m)
      → Outcome r n m × (m.current_term ≡ n.current_term)
  accepted-Outcome env r n m o le h =
      let a = accept_entries-lem cb env r n m o h in (replaced n refl refl le a.0 a.1, a.2)

  revoked-Outcome :
      (env : Env) (r : AppendEntriesRequest) (n m : RaftNode S) (o : Option AppendEntriesResponse)
      (k : List LogEntry × ℕ × ℕ) (c : ℕ)
      → k.0 ≡ take c n.logs
      → some (revoked_reply env r k n) ≡ some (o, m)
      → Outcome r n m × (m.current_term ≡ n.current_term)
  revoked-Outcome env r n m o (l, index, term) c e h =
      let same = dump-SameCore (record n { logs = l }) in
      (cut c (ground (arith, same)) (ground (arith, same)), ground (arith, same))

  match_log-Outcome :
      (env : Env) (r : AppendEntriesRequest) (n m : RaftNode S) (o : Option AppendEntriesResponse)
      → match_log cb env r n ≡ some (o, m)
      → Outcome r n m × (m.current_term ≡ n.current_term)
  unfolding match_log
  match_log-Outcome env r n m o run =
      let (_, h) = asserting-some (not (leb 1 r.prev_log_index) || sizes_agree n) _ run in
      elim (Bool-cases (leb 1 r.prev_log_index && ltb (last_log_index n) r.prev_log_index)) [
        | inl ahead ↦
            let same = dump-SameCore n in
            (unchanged (ground (arith, same)) (ground (arith, same)), ground (arith, same))
        | inr known ↦
            let le : r.prev_log_index ≤ last_log_index n = ground arith in
            elim (Bool-cases (r.prev_log_index == default_index_cursor)) [
              | inl first ↦ accepted-Outcome env r n m o le (rw (known, first) at h)
              | inr later ↦ elim (Bool-cases (ltb (get_base_index n) r.prev_log_index)) [
                | inr at_base ↦ accepted-Outcome env r n m o le (rw (known, later, at_base) at h)
                | inl inside ↦
                    let (e, found, h1) =
                      bind_some (gl n r.prev_log_index) _ (rw (known, later, inside) at h) in
                    elim (Bool-cases (r.prev_log_term == e.term)) [
                      | inl agreed ↦ accepted-Outcome env r n m o le (rw agreed at h1)
                      | inr differ ↦
                          let (k, revoked, h2) =
                            bind_some (revoke n e.term (r.prev_log_index - 1)) _
                              (rw differ at h1) in
                          let (c, kept) =
                            revoke-take n e.term (r.prev_log_index - 1) k.0 k.1 k.2 revoked in
                          revoked-Outcome env r n m o k c kept h2
                    ]
              ]
            ]
      ]

  Outcome-from :
      (r : AppendEntriesRequest) (n x m : RaftNode S)
      → x.logs ≡ n.logs
      → x.commit_index ≡ n.commit_index
      → Outcome r x m
      → Outcome r n m
  unfolding last_log_index
  Outcome-from r n x m same_logs same_commit (unchanged l c) =
      unchanged (l ∙ same_logs) (c ∙ same_commit)
  Outcome-from r n x m same_logs same_commit (cut k l c) =
      cut k (l ∙ ap (take k) same_logs) (c ∙ same_commit)
  Outcome-from r n x m same_logs same_commit (replaced y yl yc le l c) =
      replaced y (yl ∙ same_logs) (yc ∙ same_commit)
        (subst (λ k. r.prev_log_index ≤ k) (ap last_index_of same_logs) le) l c

  after-Outcome :
      (env : Env) (r : AppendEntriesRequest) (n x : RaftNode S) (ok : Bool) (m : RaftNode S)
      (o : Option AppendEntriesResponse)
      → x.logs ≡ n.logs
      → x.commit_index ≡ n.commit_index
      → after_routine cb env r (ok, x) ≡ some (o, m)
      → Outcome r n m × (m.current_term ≡ x.current_term)
  after-Outcome env r n x false m o same_logs same_commit run =
      let (_, h) = asserting-some (sizes_agree x) _ run in
      let same = dump-SameCore x in
      (unchanged (ground (arith, same)) (ground (arith, same)), ground (arith, same))
  after-Outcome env r n x true m o same_logs same_commit h =
      let kept = valid_seq-keeps r.seq r.initial x in
      elim (Bool-cases (valid_seq r.seq r.initial x).0) [
        | inl fresh ↦
            let (out, term) =
              match_log-Outcome env r (valid_seq r.seq r.initial x).1 m o (rw fresh at h) in
            (
              Outcome-from r n (valid_seq r.seq r.initial x).1 m (kept.0 ∙ same_logs)
                  (kept.1 ∙ same_commit) out,
              term ∙ kept.2,
            )
        | inr stale ↦
            (unchanged (ground (arith, kept)) (ground (arith, kept)), ground (arith, kept))
      ]

  -- The whole handler.
  pub request-Outcome :
      (env : Env) (r : AppendEntriesRequest) (n m : RaftNode S) (o : Option AppendEntriesResponse)
      → on_append_entries_request cb env r n ≡ some (o, m)
      → Outcome r n m × (n.current_term ≤ m.current_term)
  unfolding on_append_entries_request
  request-Outcome env r n m o h =
      elim (Bool-cases (not (is_running n) || not (is_peer_receive_enabled n r.name))) [
        | inl off ↦ (unchanged (ground arith) (ground arith), ground arith)
        | inr on ↦ elim (Bool-cases (ltb r.time n.start_timepoint)) [
          | inl late ↦ (unchanged (ground arith) (ground arith), ground arith)
          | inr timely ↦ elim (Bool-cases (not (has_peer n r.name))) [
            | inl gone ↦ (unchanged (ground arith) (ground arith), ground arith)
            | inr there ↦
                let kept = routine-keeps env r.name r.term n in
                let routine = handle_request_routine env r.name r.term n in
                let (out, term) =
                  after-Outcome env r n routine.1 routine.0 m o kept.0 kept.1
                    (rw (on, timely, there) at h) in
                (out, omega (arith, term, kept.2))
          ]
        ]
      ]
