-- ===== src/Raft/Tests/Replication.antt =====
-- The theorems on the log, on commits and on snapshots at a small cluster.
use ctx_db.Prelude.{
  ◌+◌, ◌-◌, ◌<◌, ◌≤◌, ◌≡◌, refl, ◌⊎◌, inl, min, max, true, false, List, [], ◌∷◌, drop, Option, none,
  some, arith,
}
use ctx_db.Wire.{no_payload}
use ctx_db.Raft.Types.{
  Configuration, old_joint, RaftNode, LogEntry, AppendEntriesRequest, AppendEntriesResponse,
  append_entries, nuft_cmd_snapshot,
}
use ctx_db.Raft.Log.{get_base_index, last_log_index}
use ctx_db.Raft.Log.Contiguous.{IsContiguous, NumberedFrom}
use ctx_db.Raft.Apply.{apply_entry, do_apply}
use ctx_db.Raft.Apply.Exact.{apply_entries, unapplied, do_apply_exact}
use ctx_db.Raft.Replicate.{Draft, LogResult, fail, do_log, message_to}
use ctx_db.Raft.Replicate.Sent.{CanSend, sends_rest_of_log}
use ctx_db.Raft.Append.{accept_entries, on_append_entries_request}
use ctx_db.Raft.Append.Safety.{request-IsContiguous, request-monotone}
use ctx_db.Raft.Append.Copied.{accepted_copies_leader}
use ctx_db.Raft.Commit.{Flags, try_commit}
use ctx_db.Raft.Commit.Majority.{Replicated, OfTerm, commit_needs_majority}
use ctx_db.Raft.Commit.Joint.{
  count_absent, count_present, HasSizes, JointReplicated, joint_commit_needs_both,
}
use ctx_db.Nuke.{contains}
use ctx_db.Raft.Snapshot.{CompactResult, refused, no_value, do_install_snapshot}
use ctx_db.Raft.Snapshot.Compact.{compaction_keeps_tail}
use ctx_db.Raft.Tests.{
  Recorder, recorder, env, entry, peer, name_a, name_b, name_c, node_a, leader_a,
}

abbrev or_else {ℓ} : {A : Type ℓ} → A → Option A → A
or_else d none = d
or_else d (some a) = a

two_entries-IsContiguous : IsContiguous node_a.logs
two_entries-IsContiguous = (omega arith, (refl, tt))

do_apply_exact_example :
    do_apply recorder false node_a
    ≡ some (apply_entries recorder false 2 (unapplied recorder node_a) node_a)
unfolding get_base_index last_log_index
do_apply_exact_example =
    do_apply_exact recorder node_a two_entries-IsContiguous (ground arith) (ground arith)

abbrev draft : Draft
draft = record { cmd = []; content = []; payload = no_payload }

abbrev logged_pair : LogResult × RaftNode Recorder
logged_pair = or_else (fail, leader_a) (do_log env draft 0 leader_a)

peer_b-CanSend : CanSend leader_a (peer name_b 2)
unfolding get_base_index last_log_index
peer_b-CanSend = (two_entries-IsContiguous, omega arith, ground arith, inl (ground arith))

sends_rest_of_log_example :
    (r : AppendEntriesRequest) × (message_to env leader_a (peer name_b 2) ≡ some (append_entries r))
    × (r.entries ≡ drop (2 - get_base_index leader_a) leader_a.logs)
    × (r.prev_log_index + 1 ≡ 2)
    × NumberedFrom (r.prev_log_index + 1) r.entries
    × (r.term ≡ 2)
    × (r.leader_commit ≡ 1)
sends_rest_of_log_example = sends_rest_of_log env leader_a (peer name_b 2) peer_b-CanSend

abbrev request : AppendEntriesRequest
request = record {
  name = name_a;
  term = 2;
  prev_log_index = 1;
  prev_log_term = 1;
  leader_commit = 1;
  entries = entry 2 2 ∷ [];
  time = 1000;
  seq = 1;
  initial = true;
}

-- Node b has an entry of term 1 where the leader has one of term 2.
abbrev node_b : RaftNode Recorder
node_b = record node_a {
  name = name_b;
  logs = entry 1 1 ∷ entry 2 1 ∷ [];
  commit_index = 0;
  last_applied = 0;
  peers = (name_a, peer name_a 2) ∷ [];
}

abbrev answered : Option AppendEntriesResponse × RaftNode Recorder
answered = or_else (none, node_b) (on_append_entries_request recorder env request node_b)

request-answered : on_append_entries_request recorder env request node_b ≡ some answered
unfolding on_append_entries_request apply_entry
request-answered = refl

request-IsContiguous_example : IsContiguous answered.1.logs
request-IsContiguous_example =
    request-IsContiguous recorder env request node_b answered.1 answered.0 (omega arith, (refl, tt))
      (refl, tt) request-answered

request-monotone_example :
    (2 ≤ answered.1.current_term)
    × (min 0 (last_log_index answered.1) ≤ answered.1.commit_index)
    × (answered.1.commit_index ≤ max 0 1)
    × ((answered.1.commit_index ≡ 0) ⊎ (answered.1.commit_index ≤ last_log_index answered.1))
request-monotone_example =
    request-monotone recorder env request node_b answered.1 answered.0 request-answered

abbrev accepted : Option AppendEntriesResponse × RaftNode Recorder
accepted = or_else (none, node_b) (accept_entries recorder env request node_b)

accepted_copies_leader_example : accepted.1.logs ≡ leader_a.logs
unfolding message_to accept_entries get_base_index apply_entry
accepted_copies_leader_example =
    accepted_copies_leader recorder env env leader_a node_b accepted.1 (peer name_b 2) request
      accepted.0 peer_b-CanSend refl (omega arith, (refl, tt)) refl (ground arith) refl refl

abbrev committed : Flags × RaftNode Recorder
committed =
    or_else
      (record { finish_staging = false; committed_joint = false; committed_new = false }, leader_a)
      (try_commit recorder 2 false leader_a)

commit_needs_majority_example :
    (committed.1.logs ≡ leader_a.logs)
    × (committed.1.current_term ≡ 2)
    × ((committed.1.commit_index ≡ 1)
        ⊎ (1 < 2)
          × (committed.1.commit_index ≡ 2)
          × OfTerm 2 leader_a
          × Replicated 2 leader_a.peers)
unfolding try_commit
commit_needs_majority_example =
    commit_needs_majority recorder 2 false leader_a committed.1 committed.0 refl refl

-- Everything is applied, so that the log may be compacted up to its second entry.
abbrev applied_a : RaftNode Recorder
applied_a = record node_a { last_applied = 2 }

abbrev compacted : CompactResult × RaftNode Recorder
compacted = or_else (refused, applied_a) (do_install_snapshot 2 name_c applied_a)

compaction_keeps_tail_example :
    ((compacted.0 ≡ refused) × (compacted.1 ≡ applied_a))
    ⊎ ((compacted.0 ≡ no_value)
        × (last_log_index applied_a ≤ 2)
        × IsContiguous compacted.1.logs
        × (last_log_index compacted.1 ≡ last_log_index applied_a)
        × ((e : LogEntry) × (es : List LogEntry) × (compacted.1.logs ≡ e ∷ es)
            × (e.index ≡ 2)
            × (e.command ≡ nuft_cmd_snapshot)
            × (e.content ≡ name_c)))
unfolding do_install_snapshot
compaction_keeps_tail_example =
    compaction_keeps_tail 2 name_c applied_a compacted.1 compacted.0 two_entries-IsContiguous refl

-- Node c is to leave.
abbrev leaving_c : Configuration
leaving_c = record {
  app = [];
  rem = name_c ∷ [];
  old = name_a ∷ name_b ∷ name_c ∷ [];
  index = 2;
  index2 = 0;
  oldvote_thres = 3;
  newvote_thres = 2;
  state = old_joint;
}

abbrev joint_leader : RaftNode Recorder
joint_leader = record leader_a { trans_conf = some leaving_c }

abbrev joint_committed : Flags × RaftNode Recorder
joint_committed =
    or_else
      (
        record { finish_staging = false; committed_joint = false; committed_new = false },
        joint_leader,
      )
      (try_commit recorder 2 false joint_leader)

leaving_c-HasSizes : HasSizes leaving_c
unfolding contains count_absent count_present
leaving_c-HasSizes = (refl, refl)

joint_commit_needs_both_example :
    (joint_committed.1.commit_index ≡ 1)
    ⊎ ((1 < 2)
        × (joint_committed.1.commit_index ≡ 2)
        × OfTerm 2 joint_leader
        × JointReplicated 2 leaving_c joint_leader)
unfolding try_commit contains
joint_commit_needs_both_example =
    joint_commit_needs_both recorder 2 false leaving_c joint_leader joint_committed.1
      joint_committed.0 refl leaving_c-HasSizes (inl refl) refl
