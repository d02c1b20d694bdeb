-- ===== src/Kv.antt =====
-- The unsharded server: `KvServer` (src/kv_server.h, src/kv_server.cpp), its database
-- (src/kv_database.cpp), and the service in front of it (src/kv_rpc.h). The server itself sets no
-- apply callback.
-- rocksdb is a parameter. `kv_database::get` writes through a pointer to its constant argument, which
-- the flag -fpermissive of the build lets pass.
pub mod Client
pub mod Applied
pub mod Calls
pub mod Tests
use ctx_db.Prelude.{
  ℕ, Bool, true, false, not, List, [], ◌∷◌, ◌++◌, Option, none, some, Text, codes, same,
  if◌then◌else◌, ◌>>=◌,
}
use ctx_db.Wire.{no_payload}
use ctx_db.Raft.Types.{RaftNode, Env, is_leader, nuft_cmd_normal}
use ctx_db.Raft.Replicate.{LogResult, do_log}
use ctx_db.Service.{
  Handled, answer, wait, Wakeup, timeout, notified, success, fail, again, get_leader_name,
}

pub record HandleClientRequest : Type 0 where
  pub request_type : Text
  pub key : Text
  pub value : Text

pub record HandleClientResponse : Type 0 where
  pub flag : ℕ
  pub leader_name : Text
  pub value : Text

-- What is called of rocksdb: `Put`, with whether its status is OK, and `Get`, where `none` is a status
-- that is not.
pub record RocksDb (D : Type 0) : Type 0 where
  pub put : Text → Text → D → Bool × D
  pub get : Text → D → Option Text

-- The fields that the handlers use.
pub record KvServer (D : Type 0) : Type 0 where
  pub db : D

abbrev pub equals_sign : ℕ
equals_sign = b'='

abbrev pub flag_only : ℕ → HandleClientResponse
flag_only flag = record { flag = flag; leader_name = []; value = [] }

-- `do_log(log_string)`.
unfoldable pub do_log_text :
    {S : Type 0} → Env → Text → RaftNode S → Option (LogResult × RaftNode S)
unfolding do_log
do_log_text env log_string n =
    do_log env (record { cmd = codes "normal"; content = log_string; payload = no_payload })
      nuft_cmd_normal n

module _ {D : Type 0} (rocks : RocksDb D) where
  -- `kv_database::set`, and `kv_database::get` with the value after it.
  abbrev pub db_set : Text → Text → D → Bool × D
  db_set = rocks.put

  abbrev pub db_get : Text → Text → D → Bool × Text
  db_get key value d = elim (rocks.get key d) [ none ↦ (false, value) | some found ↦ (true, found) ]

  abbrev pub get_reply : Bool × Text → HandleClientResponse
  get_reply (true, value) = record { flag = success; leader_name = []; value = value }
  get_reply (false, value) = flag_only fail

  -- `on_handle_client_request` up to the wait. A request of another type runs off the end of the
  -- function, with the mutex locked.
  unfoldable pub on_handle_client_request :
      Env
      → HandleClientRequest
      → RaftNode (KvServer D)
      → Option (Handled HandleClientResponse × RaftNode (KvServer D))
  unfolding get_leader_name do_log_text same
  on_handle_client_request env r n =
      let logged = (do
        (res, n') ← do_log_text env (r.key ++ equals_sign ∷ r.value) n
        some (wait res, n')) in
      if not (is_leader n.state)
      then some (answer (record { flag = again; leader_name = get_leader_name n; value = [] }), n)
      else if same r.request_type (codes "GET")
      then some (answer (get_reply (db_get r.key [] n.server.db)), n)
      else if same r.request_type (codes "SET")
      then logged
      else none

  -- The part behind the wait.
  unfoldable pub end_client_request : Wakeup → HandleClientResponse
  end_client_request timeout = flag_only fail
  end_client_request notified = flag_only success
