-- ===== src/Service/Logged.antt =====
-- What the first part of a handler does on each role of the node (src/shardmaster_server.cpp,
-- src/shardkv_server.cpp), and what the entry becomes when it is applied.
use ctx_db.Prelude.{
  ℕ, ◌≡◌, refl, sym, ap, ◌∙◌, ◌⊎◌, inl, inr, true, false, not, [], ◌∷◌, ◌++◌, some, Text, arith,
  Bool-cases, bind_some, if_false,
}
use ctx_db.Wire.{Payload, FlagResponse}
use ctx_db.Message.{Command, command_of}
use ctx_db.Raft.Types.{RaftNode, Env, LogEntry, is_leader, nuft_cmd_normal}
use ctx_db.Raft.Log.{last_log_index}
use ctx_db.Raft.Log.Contiguous.{IsContiguous}
use ctx_db.Raft.Peers.{is_running}
use ctx_db.Raft.Replicate.{Draft, as_int, logged, fail, do_log, draft_entry}
use ctx_db.Raft.Replicate.Logged.{logs_at_end}
use ctx_db.Raft.Apply.{Callbacks, message_of}
use ctx_db.Service.{Handled, answer, wait, again, get_leader_name, do_log_request, log_or_redirect}

module _ {S : Type 0} (cb : Callbacks S) where
  -- The three cases of a handler, on a node whose log is numbered one by one. A node that does not
  -- lead stays as it was, and the response says AGAIN with the leader that the node knows of. A
  -- leader that does not run stays as it was too, and the handler waits for nothing. Otherwise the
  -- log has one entry more, of the present term, the handler waits for its index as an `int`, and the entry,
  -- when it is applied, becomes the command that the request's name and payload stand for.
  pub redirect_or_log :
      {R : Type 0} (wrap : FlagResponse → R) (env : Env) (cmd : Text) (p : Payload)
      (n m : RaftNode S) (h : Handled R)
      → IsContiguous n.logs
      → log_or_redirect wrap env cmd p n ≡ some (h, m)
      → ((is_leader n.state ≡ false)
          × (m ≡ n)
          × (h ≡ answer (wrap (record { flag = again; leader_name = n.leader_name }))))
        ⊎ ((is_leader n.state ≡ true) × (is_running n ≡ false) × (m ≡ n) × (h ≡ wait fail))
        ⊎ ((is_leader n.state ≡ true)
            × (h ≡ wait (logged (as_int (last_log_index m))))
            × IsContiguous m.logs
            × ((e : LogEntry) × (m.logs ≡ n.logs ++ e ∷ [])
                × (e.index ≡ last_log_index m)
                × (e.term ≡ n.current_term)
                × ((message_of cb false e.index e m).command ≡ command_of cb.atoi cmd p [])))
  unfolding log_or_redirect do_log_request get_leader_name message_of
  redirect_or_log wrap env cmd p n m h c run = elim (Bool-cases (is_leader n.state)) [
    | inr other ↦ inl (other, ground (arith, other), ground (arith, other))
    | inl leads ↦
        let d : Draft = record { cmd = cmd; content = []; payload = p } in
        let ((res, n'), done, e) =
          bind_some (do_log env d nuft_cmd_normal n) _ (sym (if_false _ (ap not leads)) ∙ run) in
        let is_h : h ≡ wait res = ground arith in
        let is_m : n' ≡ m = ground arith in
        elim (logs_at_end env d nuft_cmd_normal n m res c (done ∙ ap (λ x. some (res, x)) is_m)) [
          | inl (same, inl (_, other)) ↦ ground (arith, leads, other)
          | inl (same, inr (refused, stopped)) ↦
              inr (inl (leads, stopped, same, is_h ∙ ap wait refused))
          | inr (_, reported, index, grown, numbered, _) ↦ inr (
              inr (
                leads,
                is_h ∙ ap wait reported,
                numbered,
                (draft_entry d nuft_cmd_normal n, grown, sym index, refl, refl),
              ))
        ]
  ]

  -- The last entry of a log, whose index as an `int` is i, and the command that it becomes when it is applied.
  abbrev pub EndsWith : ℕ → Command → RaftNode S → RaftNode S → Type 0
  EndsWith i command n m =
      (e : LogEntry) × (m.logs ≡ n.logs ++ e ∷ [])
      × (as_int e.index ≡ i)
      × ((message_of cb false i e m).command ≡ command)

  pub waiting_logged :
      {R : Type 0} (wrap : FlagResponse → R) (env : Env) (cmd : Text) (p : Payload)
      (n m : RaftNode S) (i : ℕ)
      → IsContiguous n.logs
      → log_or_redirect wrap env cmd p n ≡ some (wait (logged i), m)
      → EndsWith i (command_of cb.atoi cmd p []) n m
  unfolding message_of
  waiting_logged wrap env cmd p n m i numbered run =
      elim (redirect_or_log wrap env cmd p n m (wait (logged i)) numbered run) [
        | inl (_, _, other) ↦ cc
        | inr (inl (_, _, _, refused)) ↦ cc
        | inr (inr (_, at, _, (e, grown, index, _, is_command))) ↦ (
          e,
          grown,
          let said : as_int (last_log_index m) ≡ i = ground (arith, at) in ap as_int index ∙ said,
          is_command,
        )
      ]
