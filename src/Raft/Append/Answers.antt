-- ===== src/Raft/Append/Answers.antt =====
-- When `on_append_entries_request` (src/node_rpc_a.cpp) meets no assertion that fails and no access
-- out of bounds.
use ctx_db.Prelude.{
  ◌+◌, ◌-◌, ◌≤◌, ◌<◌, ◌≡◌, refl, sym, ap, ◌∙◌, inl, inr, Bool, true, false, not, ◌||◌, ◌&&◌, arith,
  leb, ltb, ◌==◌, Bool-cases, subst, All,
}
use ctx_db.Raft.Types.{RaftNode, Env, AppendEntriesRequest, default_index_cursor}
use ctx_db.Raft.Log.{base_of, get_base_index, last_log_index, gl, sizes_agree}
use ctx_db.Raft.Log.Contiguous.{IsContiguous, IsContiguous-sizes_agree, NumberedFrom, gl_found}
use ctx_db.Raft.Peers.{is_running, is_peer_receive_enabled, has_peer}
use ctx_db.Raft.Role.{handle_request_routine, valid_seq}
use ctx_db.Raft.Apply.{Callbacks}
use ctx_db.Raft.Append.{match_log, on_append_entries_request, after_routine}
use ctx_db.Raft.Append.Revoke.{Succeeds, CanRevoke, revoke-some}
use ctx_db.Raft.Append.Steps.{IsPlain, accept_entries-some}

module _ {S : Type 0} where
  routine-lem :
      (env : Env) (r : AppendEntriesRequest) (n : RaftNode S)
      → let m = (handle_request_routine env r.name r.term n).1 in
        (m.logs ≡ n.logs) × (m.last_applied ≡ n.last_applied)
  unfolding handle_request_routine
  routine-lem env r n = ground arith

  valid_seq-lem :
      (r : AppendEntriesRequest) (n : RaftNode S)
      → let m = (valid_seq r.seq r.initial n).1 in
        (m.logs ≡ n.logs) × (m.last_applied ≡ n.last_applied)
  unfolding valid_seq
  valid_seq-lem r n = ground arith

module _ {S : Type 0} (cb : Callbacks S) where
  match_log-some :
      (env : Env) (r : AppendEntriesRequest) (n : RaftNode S)
      → IsContiguous n.logs
      → NumberedFrom (r.prev_log_index + 1) r.entries
      → All IsPlain n.logs
      → All IsPlain r.entries
      → get_base_index n ≤ n.last_applied + 1
      → CanRevoke r n.logs
      → Succeeds (match_log cb env r n)
  unfolding match_log gl get_base_index
  match_log-some env r n c h plain sent lo stops =
      let agree : (not (leb 1 r.prev_log_index) || sizes_agree n) ≡ true =
        ground (arith, IsContiguous-sizes_agree n c) in
      rw agree
        (elim (Bool-cases (leb 1 r.prev_log_index && ltb (last_log_index n) r.prev_log_index)) [
          | inl missing ↦ rw missing (_, refl)
          | inr known ↦
              let le : r.prev_log_index ≤ last_log_index n = ground (arith, known) in
              let accepted = accept_entries-some cb env r n c le h plain sent lo in
              elim (Bool-cases (r.prev_log_index == default_index_cursor)) [
                | inl start ↦ rw (known, start) accepted
                | inr later ↦ elim (Bool-cases (ltb (get_base_index n) r.prev_log_index)) [
                  | inr outside ↦ rw (known, later, outside) accepted
                  | inl inside ↦
                      let lt : get_base_index n < r.prev_log_index = ground (arith, inside) in
                      let (e, found, index) =
                        gl_found n r.prev_log_index c (omega arith) (omega arith) le in
                      elim (Bool-cases (r.prev_log_term == e.term)) [
                        | inl agreed ↦ rw (known, later, inside, found, agreed) accepted
                        | inr differ ↦
                            let (k, revoked) =
                              revoke-some n e.term (r.prev_log_index - 1) c (omega arith)
                                (omega arith) (stops e lt found differ) in
                            rw (known, later, inside, found, differ, revoked) (_, refl)
                      ]
                ]
              ]
        ])

  after_routine-some :
      (env : Env) (r : AppendEntriesRequest) (n x : RaftNode S) (ok : Bool)
      → (x.logs ≡ n.logs) × (x.last_applied ≡ n.last_applied)
      → IsContiguous n.logs
      → NumberedFrom (r.prev_log_index + 1) r.entries
      → All IsPlain n.logs
      → All IsPlain r.entries
      → get_base_index n ≤ n.last_applied + 1
      → CanRevoke r n.logs
      → Succeeds (after_routine cb env r (ok, x))
  unfolding get_base_index
  after_routine-some env r n x false kept c h plain sent lo stops =
      let agree = IsContiguous-sizes_agree x (subst IsContiguous (sym kept.0) c) in
      rw agree (_, refl)
  after_routine-some env r n x true kept c h plain sent lo stops =
      let y = (valid_seq r.seq r.initial x).1 in
      let (logs, applied) = valid_seq-lem r x in
      let same : n.logs ≡ y.logs = sym (logs ∙ kept.0) in
      elim (Bool-cases (valid_seq r.seq r.initial x).0) [
        | inr stale ↦ rw stale (_, refl)
        | inl fresh ↦ rw fresh (
            match_log-some env r y (subst IsContiguous same c) h (subst (All IsPlain) same plain)
              sent (ground (arith, lo, ap base_of same, applied, kept.1))
              (subst (CanRevoke r) same stops))
      ]

  -- A follower's log is numbered one by one and not compacted past the applied entries, the entries
  -- sent go on from `prev_log_index`, and no entry of either begins a change of the configuration.
  -- Where the entry at `prev_log_index` conflicts with the leader's, the log either has its first index
  -- or its first entry is of another term than the conflicting one. Then the handler ends, for all other
  -- contents of the node and the request: no assertion fails, and no access is out of bounds.
  pub request_answered :
      (env : Env) (r : AppendEntriesRequest) (n : RaftNode S)
      → IsContiguous n.logs
      → NumberedFrom (r.prev_log_index + 1) r.entries
      → All IsPlain n.logs
      → All IsPlain r.entries
      → get_base_index n ≤ n.last_applied + 1
      → CanRevoke r n.logs
      → Succeeds (on_append_entries_request cb env r n)
  unfolding on_append_entries_request
  request_answered env r n c h plain sent lo stops =
      elim (Bool-cases (not (is_running n) || not (is_peer_receive_enabled n r.name))) [
        | inl off ↦ rw off (_, refl)
        | inr on ↦ elim (Bool-cases (ltb r.time n.start_timepoint)) [
          | inl late ↦ rw (on, late) (_, refl)
          | inr timely ↦ elim (Bool-cases (not (has_peer n r.name))) [
            | inl gone ↦ rw (on, timely, gone) (_, refl)
            | inr there ↦
                let (ok, x) = handle_request_routine env r.name r.term n in
                rw (on, timely, there)
                  (after_routine-some env r n x ok (routine-lem env r n) c h plain sent lo stops)
          ]
        ]
      ]
