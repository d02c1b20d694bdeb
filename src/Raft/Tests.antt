-- ===== src/Raft/Tests.antt =====
-- A small cluster, at which the theorems on the Raft node are tried. The server behind a node keeps
-- the apply messages that it gets.
pub mod Election
pub mod Replication
pub mod Server
pub mod Cluster
pub mod Restart
pub mod Answers
pub mod Snapshot
use ctx_db.Prelude.{ℕ, true, false, List, [], ◌∷◌, ◌++◌, Option, none, some, Text}
use ctx_db.Wire.{no_payload}
use ctx_db.Message.{ApplyMessage}
use ctx_db.Raft.Types.{
  RaftNode, NodePeer, LogEntry, Env, follower, candidate, leader, RequestVoteRequest, u64_max,
}
use ctx_db.Raft.Apply.{Callbacks, nuft_ok}

abbrev pub Recorder : Type 0
Recorder = List ApplyMessage

abbrev pub recorder : Callbacks Recorder
recorder = record { atoi = λ t. 0; invoke = λ s m. (s ++ m ∷ [], nuft_ok) }

abbrev pub name_a : Text
name_a = 97 ∷ []

abbrev pub name_b : Text
name_b = 98 ∷ []

abbrev pub name_c : Text
name_c = 99 ∷ []

abbrev pub env : Env
env = record { now = 1000; random = 200 }

abbrev pub entry : ℕ → ℕ → LogEntry
entry i t = record {
  index = i;
  term = t;
  command = 0;
  content = [];
  cmd = [];
  payload = no_payload;
}

abbrev pub peer : Text → ℕ → NodePeer
peer k next = record {
  name = k;
  voted_for_me = false;
  next_index = next;
  match_index = next;
  receive_enabled = true;
  send_enabled = true;
  voting_rights = true;
  seq = 1;
}

-- Node a as a follower in term 2, with a log of two entries, one of them applied.
abbrev pub node_a : RaftNode Recorder
node_a = record {
  current_term = 2;
  vote_for = [];
  logs = entry 1 1 ∷ entry 2 2 ∷ [];
  leader_name = [];
  trans_conf = none;
  commit_index = 2;
  last_applied = 1;
  name = name_a;
  state = follower;
  paused = false;
  tobe_destructed = false;
  last_tick = 0;
  elect_timeout_due = u64_max;
  election_fail_timeout_due = u64_max;
  vote_got = 0;
  new_vote = 0;
  old_vote = 0;
  peers = (name_b, peer name_b 2) ∷ (name_c, peer name_c 2) ∷ [];
  tobe_removed_peers = [];
  start_timepoint = 0;
  last_seq = 0;
  server = [];
  disk = none;
  outbox = [];
}

abbrev pub candidate_a : RaftNode Recorder
candidate_a = record node_a { state = candidate; vote_for = name_a }

abbrev pub leader_a : RaftNode Recorder
leader_a = record node_a { state = leader; vote_for = name_a; commit_index = 1 }

abbrev pub vote_request : Text → RequestVoteRequest
vote_request k = record {
  name = k;
  term = 3;
  last_log_index = 2;
  last_log_term = 2;
  time = 900;
  seq = 1;
  initial = true;
}

-- A leader in term 2 without peers or log, in front of a server.
abbrev pub leader_of : {S : Type 0} → S → RaftNode S
leader_of s = record {
  current_term = 2;
  vote_for = name_a;
  logs = [];
  leader_name = [];
  trans_conf = none;
  commit_index = 0;
  last_applied = 0;
  name = name_a;
  state = leader;
  paused = false;
  tobe_destructed = false;
  last_tick = 0;
  elect_timeout_due = u64_max;
  election_fail_timeout_due = u64_max;
  vote_got = 0;
  new_vote = 0;
  old_vote = 0;
  peers = [];
  tobe_removed_peers = [];
  start_timepoint = 0;
  last_seq = 0;
  server = s;
  disk = none;
  outbox = [];
}
