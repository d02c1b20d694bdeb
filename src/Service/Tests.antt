-- ===== src/Service/Tests.antt =====
-- The theorem on handlers at a leader of the small cluster.
use ctx_db.Prelude.{◌≡◌, refl, ◌⊎◌, false, true, [], ◌∷◌, ◌++◌, Option, none, some, codes, arith}
use ctx_db.Wire.{Payload, FlagResponse, get_payload}
use ctx_db.Message.{command_of}
use ctx_db.Raft.Types.{RaftNode, LogEntry, is_leader}
use ctx_db.Raft.Log.{last_log_index}
use ctx_db.Raft.Log.Contiguous.{IsContiguous}
use ctx_db.Raft.Peers.{is_running}
use ctx_db.Raft.Replicate.{as_int, logged, fail}
use ctx_db.Raft.Apply.{message_of}
use ctx_db.Raft.Tests.{Recorder, recorder, env, leader_a, name_a}
use ctx_db.Service.{Handled, answer, wait, again, log_or_redirect}
use ctx_db.Service.Logged.{redirect_or_log}

abbrev no_wrap : FlagResponse → FlagResponse
no_wrap a = a

abbrev request : Payload
request = get_payload (record { confignum = 3; key = name_a })

abbrev or_leader :
    Option (Handled FlagResponse × RaftNode Recorder) → Handled FlagResponse × RaftNode Recorder
or_leader none = (wait fail, leader_a)
or_leader (some r) = r

abbrev handled : Handled FlagResponse × RaftNode Recorder
handled = or_leader (log_or_redirect no_wrap env (codes "get") request leader_a)

redirect_or_log_example :
    ((is_leader leader_a.state ≡ false)
      × (handled.1 ≡ leader_a)
      × (handled.0
          ≡ answer (no_wrap (record { flag = again; leader_name = leader_a.leader_name }))))
    ⊎ ((is_leader leader_a.state ≡ true)
        × (is_running leader_a ≡ false)
        × (handled.1 ≡ leader_a)
        × (handled.0 ≡ wait fail))
    ⊎ ((is_leader leader_a.state ≡ true)
        × (handled.0 ≡ wait (logged (as_int (last_log_index handled.1))))
        × IsContiguous handled.1.logs
        × ((e : LogEntry) × (handled.1.logs ≡ leader_a.logs ++ e ∷ [])
            × (e.index ≡ last_log_index handled.1)
            × (e.term ≡ leader_a.current_term)
            × ((message_of recorder false e.index e handled.1).command
                ≡ command_of recorder.atoi (codes "get") request [])))
unfolding log_or_redirect
redirect_or_log_example =
    redirect_or_log recorder no_wrap env (codes "get") request leader_a handled.1 handled.0
      (omega arith, (refl, tt)) refl
