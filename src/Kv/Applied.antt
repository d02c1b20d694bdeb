-- ===== src/Kv/Applied.antt =====
-- What becomes of a SET of a client (src/kv_server.cpp).
use ctx_db.Prelude.{
  ℕ, ◌≡◌, refl, sym, ap, ◌∙◌, inl, inr, Bool, not, [], ◌∷◌, ◌++◌, some, Text, arith, bind_some,
  if_false, codes, same, Bool-cases,
}
use ctx_db.Wire.{Payload, no_payload}
use ctx_db.Message.{command_of, plain_apply}
use ctx_db.Raft.Types.{RaftNode, Env, LogEntry, is_leader, nuft_cmd_normal}
use ctx_db.Raft.Log.{last_log_index}
use ctx_db.Raft.Log.Contiguous.{IsContiguous}
use ctx_db.Raft.Replicate.{Draft, draft_entry, logged, as_int, do_log}
use ctx_db.Raft.Replicate.Logged.{logs_at_end}
use ctx_db.Raft.Apply.{Callbacks, message_of}
use ctx_db.Service.{wait}
use ctx_db.Kv.{RocksDb, KvServer, equals_sign, do_log_text, on_handle_client_request}
use ctx_db.Kv.Client.{set_request}

module _ {D : Type 0} (rocks : RocksDb D) where
  plain_command :
      (atoi : Text → ℕ) (p : Payload) (content : Text)
      → command_of atoi (codes "normal") p content ≡ plain_apply content
  unfolding command_of same
  plain_command atoi p content = refl

  abbrev set_draft : Text → Text → Draft
  set_draft key value = record {
    cmd = codes "normal";
    content = key ++ equals_sign ∷ value;
    payload = no_payload;
  }

  set_logs :
      (key value : Text) (i : ℕ) (env : Env) (n m : RaftNode (KvServer D))
      → on_handle_client_request rocks env (set_request key value) n ≡ some (wait (logged i), m)
      → do_log env (set_draft key value) nuft_cmd_normal n ≡ some (logged i, m)
  unfolding on_handle_client_request do_log_text
  set_logs key value i env n m run = elim (Bool-cases (is_leader n.state)) [
    | inr other ↦ absurd (ground (arith, other, run))
    | inl leader ↦
        let ((res, n'), done, e) =
          bind_some (do_log env (set_draft key value) nuft_cmd_normal n) (λ x. some (wait x.0, x.1))
            (sym (if_false _ (ap not leader)) ∙ run) in
        done ∙ ap some (ground (arith, e))
  ]

  -- A leader with a log numbered one by one is asked for a SET, and waits for the index i: its log has
  -- one entry more at the end, under the last index of the log, of which i is the value as an int, and
  -- the apply message of this entry under its index, at whichever node and with whatever callbacks, has
  -- that index and the plain command with the text "key=value".
  pub set_reaches_apply :
      (key value : Text) (cb : Callbacks (KvServer D)) (b : Bool) (i : ℕ) (env : Env)
      (n m q : RaftNode (KvServer D))
      → IsContiguous n.logs
      → on_handle_client_request rocks env (set_request key value) n ≡ some (wait (logged i), m)
      → (e : LogEntry) × (m.logs ≡ n.logs ++ e ∷ [])
        × (e.index ≡ last_log_index m)
        × (as_int e.index ≡ i)
        × ((message_of cb b e.index e q).index ≡ e.index)
        × ((message_of cb b e.index e q).command ≡ plain_apply (key ++ equals_sign ∷ value))
  unfolding message_of
  set_reaches_apply key value cb b i env n m q numbered run =
      elim (logs_at_end env (set_draft key value) nuft_cmd_normal n m (logged i) numbered
        (set_logs key value i env n m run)) [
          | inl (_, inl (refused, _)) ↦ cc
          | inl (_, inr (refused, _)) ↦ cc
          | inr (_, at, index, grown, _, _) ↦
              let e = draft_entry (set_draft key value) nuft_cmd_normal n in
              let last : as_int (last_log_index m) ≡ i = ground (arith, at) in
              (
                e,
                grown,
                sym index,
                ap as_int (sym index) ∙ last,
                refl,
                plain_command cb.atoi no_payload (key ++ equals_sign ∷ value),
              )
        ]
