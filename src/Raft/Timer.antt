-- ===== src/Raft/Timer.antt =====
-- The timer and the life of a node: `on_timer`, `run`, `safe_leave` (src/node.cpp), `run(name)`,
-- `stop` and `resume` (src/node.h), and the constructor and destructor.
use ctx_db.Prelude.{
  ◌+◌, Bool, true, false, not, [], ◌&&◌, ◌||◌, Option, none, some, Text, leb, if◌then◌else◌, ◌>>=◌,
}
use ctx_db.Raft.Types.{
  RaftNode, Configuration, ConfState, joint, follower, is_leader, is_follower, is_candidate,
  is_not_running, Env, PersistRecord, not_running, vote_for_none, default_index_cursor,
  default_term_cursor, default_heartbeat_interval,
}
use ctx_db.Raft.Peers.{is_running, test_election, reset_peers, clear_removed_peers}
use ctx_db.Raft.Persist.{dump, load}
use ctx_db.Raft.Role.{become_follower, become_leader, reset_election_timeout}
use ctx_db.Raft.Vote.{do_election}
use ctx_db.Raft.Replicate.{send_heartbeat}
use ctx_db.Raft.Change.{update_configuration_new}

module _ {S : Type 0} where
  -- The four tests of `on_timer`, in order, each on the state that the one before left.
  abbrev beat : Env → RaftNode S → Option (RaftNode S)
  beat env n =
      if is_leader n.state && leb (default_heartbeat_interval + n.last_tick) env.now
      then (do n' ← send_heartbeat env n; some (record n' { last_tick = env.now }))
      else some n

  abbrev elect : Env → RaftNode S → RaftNode S
  elect env n =
      if (is_follower n.state || is_candidate n.state) && leb n.elect_timeout_due env.now
      then do_election env n
      else n

  abbrev give_up : Env → Bool × RaftNode S → RaftNode S
  give_up env (true, n) = become_leader n
  give_up env (false, n) = reset_election_timeout env n

  abbrev end_election : Env → RaftNode S → Option (RaftNode S)
  end_election env n =
      if is_candidate n.state && leb n.election_fail_timeout_due env.now
      then (do won ← test_election n; some (give_up env won))
      else some n

  abbrev in_joint : Configuration → ConfState → RaftNode S → Bool
  in_joint c joint n = leb c.index n.commit_index
  in_joint c _ n = false

  abbrev next_configuration : Env → RaftNode S → Option (RaftNode S)
  next_configuration env n = elim n.trans_conf [
    | none ↦ some n
    | some c ↦ if in_joint c c.state n then update_configuration_new env n else some n
  ]

  unfoldable pub on_timer : Env → RaftNode S → Option (RaftNode S)
  unfolding send_heartbeat do_election become_leader reset_election_timeout update_configuration_new
  on_timer env n =
      let ticked = (do
        n1 ← beat env n
        n2 ← end_election env (elect env n1)
        next_configuration env n2) in
      if not (is_running n) then some n else ticked

  -- `run(guard)`: a node that runs already is left alone.
  unfoldable pub run : Env → RaftNode S → RaftNode S
  unfolding dump reset_election_timeout
  run env n =
      if not (is_not_running n.state)
      then n
      else reset_election_timeout env (
          dump (record n {
            start_timepoint = env.now;
            paused = false;
            state = follower;
            last_seq = 0;
          }))

  -- `run(guard, new_name)`: from the file of that name.
  unfoldable pub run_as : Env → Text → RaftNode S → Option (RaftNode S)
  unfolding load run
  run_as env new_name n = do n' ← load (record n { name = new_name }); some (run env n')

  unfoldable pub stop : RaftNode S → RaftNode S
  stop n = record n { paused = true }

  unfoldable pub resume : RaftNode S → RaftNode S
  resume n = record n { paused = false }

  unfoldable pub safe_leave : RaftNode S → RaftNode S
  unfolding become_follower stop
  safe_leave n = stop (become_follower n.current_term n)

  -- The constructor with a server behind the node, and the files that there are. The other one leaves
  -- the server open. The threads that it starts call `on_timer` and the handlers.
  unfoldable pub new_node : Env → Text → S → Option PersistRecord → RaftNode S
  new_node env addr server disk = record {
    current_term = default_term_cursor;
    vote_for = vote_for_none;
    logs = [];
    leader_name = [];
    trans_conf = none;
    commit_index = default_index_cursor;
    last_applied = default_index_cursor;
    name = addr;
    state = not_running;
    paused = false;
    tobe_destructed = false;
    last_tick = 0;
    elect_timeout_due = 0;
    election_fail_timeout_due = 0;
    vote_got = 0;
    new_vote = 0;
    old_vote = 0;
    peers = [];
    tobe_removed_peers = [];
    start_timepoint = env.now;
    last_seq = 0;
    server = server;
    disk = disk;
    outbox = [];
  }

  -- What the destructor does to the node before its threads end.
  unfoldable pub destruct : RaftNode S → RaftNode S
  unfolding reset_peers clear_removed_peers
  destruct n =
      record (clear_removed_peers
        (reset_peers (record n { tobe_destructed = true; paused = true; state = not_running }))) {
          trans_conf = none;
        }
