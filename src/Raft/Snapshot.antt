-- ===== src/Raft/Snapshot.antt =====
-- Snapshots (src/node_rpc_i.cpp).
pub mod Compact
pub mod Install
pub mod Installed
use ctx_db.Prelude.{
  ℕ, ◌+◌, ◌-◌, Bool, true, false, not, ◌||◌, List, [], ◌∷◌, ◌++◌, Option, none, some, Text, length,
  drop, ltb, leb, ◌==◌, if◌then◌else◌, ◌>>=◌, asserting,
}
use ctx_db.Wire.{no_payload}
use ctx_db.Raft.Types.{
  RaftNode, LogEntry, is_leader, Env, InstallSnapshotRequest, InstallSnapshotResponse,
  default_index_cursor, default_term_cursor, nuft_cmd_snapshot,
}
use ctx_db.Raft.Log.{get_base_index, last_log_index, sizes_agree, gl, find_position}
use ctx_db.Raft.Peers.{find_peer, set_peer, is_running, is_peer_receive_enabled}
use ctx_db.Raft.Persist.{dump}
use ctx_db.Raft.Role.{become_follower, handle_request_routine, valid_seq}
use ctx_db.Raft.Apply.{Callbacks, do_apply}

-- What follows the snapshot's entry, if that entry is in the log.
abbrev pub rest_after : Option ℕ → List LogEntry → List LogEntry
rest_after none l = []
rest_after (some i) l = drop (i + 1) l

-- `truncate_log`, on the vector.
unfoldable pub truncate_log : ℕ → ℕ → List LogEntry → List LogEntry
unfolding find_position
truncate_log index term l =
    record {
      index = index;
      term = term;
      command = nuft_cmd_snapshot;
      content = [];
      cmd = [];
      payload = no_payload;
    }
    ∷ rest_after (find_position l index term) l

-- `logs[0].set_command(…)` and `logs[0].set_data(…)`.
abbrev pub mark_snapshot : Text → List LogEntry → List LogEntry
mark_snapshot s [] = []
mark_snapshot s (e ∷ es) = record e { command = nuft_cmd_snapshot; content = s } ∷ es

-- `logs[0].set_index(…)` and `logs[0].set_term(…)`.
abbrev pub head_at : ℕ → ℕ → List LogEntry → List LogEntry
head_at index term [] = []
head_at index term (e ∷ es) = record e { index = index; term = term } ∷ es

-- A response in which no field was set: the fields read as 0, and an index of 0 is kept as 1.
abbrev pub unset_response : InstallSnapshotResponse
unset_response = record {
  term = 0;
  name = [];
  last_included_index = 1;
  last_included_term = 0;
  success = false;
  time = 0;
  seq = 0;
}

-- The results of `do_install_snapshot`: NUFT_FAIL, or the end of the function without a value, which
-- is all that the source has where the log was compacted.
pub data CompactResult : Type 0 where
  refused no_value : CompactResult

module _ {S : Type 0} where
  -- `do_install_snapshot`, of the node's own state. Its second test compares `last_log_index()` with
  -- itself and never holds.
  unfoldable pub do_install_snapshot : ℕ → Text → RaftNode S → Option (CompactResult × RaftNode S)
  unfolding sizes_agree last_log_index get_base_index gl dump
  do_install_snapshot index state n = asserting (sizes_agree n) (
      if leb (last_log_index n) (get_base_index n)
      then some (refused, n)
      else if ltb n.last_applied (last_log_index n)
      then some (refused, n)
      else (do
        e ← gl n index
        some (
          no_value,
          dump (record n {
            logs =
                mark_snapshot state (head_at index e.term (drop (index - get_base_index n) n.logs));
          }),
        )))

  abbrev base_term : RaftNode S → Option ℕ
  base_term n =
      if get_base_index n == default_index_cursor
      then some default_term_cursor
      else (do e ← gl n (get_base_index n); some e.term)

  -- The label `end`.
  abbrev snapshot_reply :
      Env
      → InstallSnapshotRequest
      → Bool
      → RaftNode S
      → Option (Option InstallSnapshotResponse × RaftNode S)
  snapshot_reply env r success n = do
    t ← base_term n
    some (
      some (record {
        term = n.current_term;
        name = n.name;
        last_included_index = get_base_index n;
        last_included_term = t;
        success = success;
        time = env.now;
        seq = r.seq;
      }),
      n,
    )

  unfoldable pub on_install_snapshot_response : InstallSnapshotResponse → RaftNode S → RaftNode S
  unfolding become_follower find_peer set_peer
  on_install_snapshot_response r n =
      if ltb r.time n.start_timepoint
      then n
      else if not (is_leader n.state)
      then n
      else if not r.success
      then n
      else if ltb n.current_term r.term
      then become_follower r.term n
      else elim (find_peer r.name n.peers) [
        | none ↦ n
        | some p ↦ record n {
          peers =
              set_peer r.name
                (record p {
                  next_index = r.last_included_index + 1;
                  match_index = r.last_included_index;
                })
                n.peers;
        }
      ]

module _ {S : Type 0} (cb : Callbacks S) where
  -- The snapshot becomes the first entry and is applied again, whatever was applied before.
  -- Its index is not -1, so that `last_applied` is one below it.
  unfoldable pub install : InstallSnapshotRequest → RaftNode S → Option (RaftNode S)
  unfolding truncate_log do_apply dump
  install r n = do
    n' ← do_apply cb true (record n {
      logs =
          mark_snapshot r.content (truncate_log r.last_included_index r.last_included_term n.logs);
      commit_index = r.last_included_index;
      last_applied = r.last_included_index - 1;
    })
    some (dump n')

  abbrev after_snapshot_routine :
      Env
      → InstallSnapshotRequest
      → Bool × RaftNode S
      → Option (Option InstallSnapshotResponse × RaftNode S)
  after_snapshot_routine env r (true, n) =
      let (fresh, n') = valid_seq r.seq r.initial n in
      let installed = (do n'' ← install r n'; snapshot_reply env r true n'') in
      if fresh then installed else some (none, n')
  after_snapshot_routine env r (false, n) = snapshot_reply env r false n

  -- A request from before the node's start is answered with 0, and with a response that is not set.
  unfoldable pub on_install_snapshot_request :
      Env
      → InstallSnapshotRequest
      → RaftNode S
      → Option (Option InstallSnapshotResponse × RaftNode S)
  unfolding is_running is_peer_receive_enabled handle_request_routine valid_seq install
      get_base_index gl
  on_install_snapshot_request env r n =
      if not (is_running n) || not (is_peer_receive_enabled n r.name)
      then some (none, n)
      else if ltb r.time n.start_timepoint
      then some (some unset_response, n)
      else after_snapshot_routine env r (handle_request_routine env r.name r.term n)
