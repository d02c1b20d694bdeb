-- ===== src/Raft/Replicate/Logged.antt =====
-- What a client's entry becomes (`do_log`, src/node_rpc_a.cpp).
use ctx_db.Prelude.{
  ℕ, ◌+◌, ◌≡◌, refl, sym, ap, ◌∙◌, ◌⊎◌, inl, inr, true, false, not, [], ◌∷◌, ◌++◌, some, arith,
  Bool-cases, bind_some, asserting-some, subst, if_false,
}
use ctx_db.Raft.Types.{RaftNode, Env, is_leader}
use ctx_db.Raft.Log.{last_index_of, last_log_index, sizes_agree}
use ctx_db.Raft.Log.Contiguous.{IsContiguous, IsContiguous-append_last, last_index-append}
use ctx_db.Raft.Peers.{is_running}
use ctx_db.Raft.Persist.{dump}
use ctx_db.Raft.Frame.{SameCore, SameCore-trans, dump-SameCore}
use ctx_db.Raft.Replicate.{
  do_append_entries, do_log, Draft, draft_entry, LogResult, as_int, logged, not_leader, fail,
  send_all,
}

module _ {S : Type 0} where
  pub do_append_entries-SameCore :
      (env : Env) (n m : RaftNode S) → do_append_entries env n ≡ some m → SameCore n m
  unfolding do_append_entries
  do_append_entries-SameCore env n m h =
      let ((peers, sent), _, e) = bind_some (send_all env n n.peers) _ h in
      record {
        logs = ground arith;
        commit_index = ground arith;
        current_term = ground arith;
        vote_for = ground arith;
        state = ground arith;
        name = ground arith;
      }

  pub logs_at_end :
      (env : Env) (d : Draft) (command : ℕ) (n m : RaftNode S) (res : LogResult)
      → IsContiguous n.logs
      → do_log env d command n ≡ some (res, m)
      → ((m ≡ n)
          × ((res ≡ not_leader) × (is_leader n.state ≡ false)
              ⊎ (res ≡ fail) × (is_running n ≡ false)))
        ⊎ ((is_leader n.state ≡ true)
            × (res ≡ logged (as_int (last_log_index m)))
            × (last_log_index m ≡ last_log_index n + 1)
            × (m.logs ≡ n.logs ++ draft_entry d command n ∷ [])
            × IsContiguous m.logs
            × SameCore (record n { logs = m.logs }) m)
  unfolding do_log last_log_index
  logs_at_end env d command n m res c h = elim (Bool-cases (is_leader n.state)) [
    | inr other ↦ inl (ground arith, inl (ground arith, other))
    | inl leads ↦ elim (Bool-cases (is_running n)) [
      | inr stopped ↦ inl (ground arith, inr (ground arith, stopped))
      | inl runs ↦
          let grown = record n { logs = n.logs ++ draft_entry d command n ∷ [] } in
          let (x, sent, e) =
            bind_some (do_append_entries env (dump grown)) _
              (asserting-some (sizes_agree n) _
                (sym (if_false _ (ap not runs)) ∙ sym (if_false _ (ap not leads)) ∙ h)).1 in
          let same =
            SameCore-trans (dump-SameCore grown)
              (do_append_entries-SameCore env (dump grown) x sent) in
          let last = last_index-append n.logs (draft_entry d command n) in
          let is_m : x ≡ m = ground arith in
          let reported : res ≡ logged (as_int (last_log_index n + 1)) = ground arith in
          let grows : m.logs ≡ n.logs ++ draft_entry d command n ∷ [] =
            ap (λ k. k.logs) (sym is_m) ∙ same.logs in
          let index : last_log_index m ≡ last_log_index n + 1 = ap last_index_of grows ∙ last in
          inr (
            leads,
            reported ∙ ap (λ i. logged (as_int i)) (sym index),
            index,
            grows,
            subst IsContiguous (sym grows)
                (IsContiguous-append_last n.logs (draft_entry d command n) c refl),
            record {
              logs = refl;
              commit_index = ap (λ k. k.commit_index) (sym is_m) ∙ same.commit_index;
              current_term = ap (λ k. k.current_term) (sym is_m) ∙ same.current_term;
              vote_for = ap (λ k. k.vote_for) (sym is_m) ∙ same.vote_for;
              state = ap (λ k. k.state) (sym is_m) ∙ same.state;
              name = ap (λ k. k.name) (sym is_m) ∙ same.name;
            },
          )
    ]
  ]
