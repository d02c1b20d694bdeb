-- ===== src/Raft/Commit.antt =====
-- The leader's side of an answer: `on_append_entries_response` (src/node_rpc_a.cpp), where the commit
-- index is advanced by counting replicas.
pub mod Majority
pub mod Joint
use ctx_db.Prelude.{
  ℕ, ◌+◌, Bool, true, false, not, ◌&&◌, ◌||◌, List, [], ◌∷◌, Option, none, some, Text, ltb, leb,
  ◌==◌, if◌then◌else◌, is_some, ◌>>=◌,
}
use ctx_db.Raft.Types.{
  RaftNode, NodePeer, Configuration, ConfState, old_joint, joint, joint_new, new, is_leader, Env,
  AppendEntriesResponse,
}
use ctx_db.Raft.Log.{last_log_index, gl}
use ctx_db.Raft.Peers.{
  find_peer, set_peer, votes_of, enough_votes, enough_votes_trans_conf, Answer, enough, not_enough,
  no_transition,
}
use ctx_db.Raft.Persist.{dump}
use ctx_db.Raft.Role.{become_follower}
use ctx_db.Raft.Apply.{Callbacks, do_apply}
use ctx_db.Raft.Change.{
  update_configuration_joint, on_update_configuration_joint_committed, update_configuration_finish,
}

-- No peer is without voting rights: the search for a staging node fails.
unfoldable pub none_staging : List (Text × NodePeer) → Bool
none_staging [] = true
none_staging ((k, p) ∷ ps) = p.voting_rights && none_staging ps

-- `finish_staging_flag`, `committed_joint_flag` and `committed_new_flag`.
pub record Flags : Type 0 where
  pub finish_staging : Bool
  pub committed_joint : Bool
  pub committed_new : Bool

-- The peer's cursors after an answer that tells its last index.
abbrev pub at_index : ℕ → NodePeer → NodePeer
at_index i p = record p { next_index = i + 1; match_index = i }

module _ {S : Type 0} where
  abbrev pub put_peer : Text → NodePeer → RaftNode S → RaftNode S
  put_peer k p n = record n { peers = set_peer k p n.peers }

  -- A staging peer that has caught up is given its vote.
  abbrev pub grant_rights : AppendEntriesResponse → NodePeer → RaftNode S → NodePeer
  grant_rights r p n =
      if not p.voting_rights && (r.last_log_index == last_log_index n)
      then record p { voting_rights = true }
      else p

  -- The label CANT_COMMIT: what the flags call for.
  unfoldable pub settle : Env → Flags → RaftNode S → Option (RaftNode S)
  unfolding update_configuration_joint on_update_configuration_joint_committed
      update_configuration_finish
  settle env f n = do
    n1 ← if f.finish_staging then update_configuration_joint env n else some n
    n2 ←
        if is_some n1.trans_conf && f.committed_joint
        then on_update_configuration_joint_committed n1
        else some n1
    if is_some n1.trans_conf && f.committed_new then update_configuration_finish n2 else some n2

  -- The commit under a change of the configuration, once the votes suffice.
  abbrev commit_in : Configuration → ConfState → ℕ → Bool → RaftNode S → Flags × RaftNode S
  commit_in c joint_new i finish n =
      if leb c.index2 i
      then (
        record { finish_staging = finish; committed_joint = false; committed_new = true },
        record n { commit_index = i; trans_conf = some (record c { state = new }) },
      )
      else (
        record { finish_staging = finish; committed_joint = false; committed_new = false },
        record n { commit_index = i },
      )
  commit_in c old_joint i finish n =
      if leb c.index i
      then (
        record { finish_staging = finish; committed_joint = true; committed_new = false },
        record n { commit_index = i; trans_conf = some (record c { state = joint }) },
      )
      else (
        record { finish_staging = finish; committed_joint = false; committed_new = false },
        record n { commit_index = i },
      )
  commit_in c _ i finish n = (
    record { finish_staging = finish; committed_joint = false; committed_new = false },
    record n { commit_index = i },
  )

module _ {S : Type 0} (cb : Callbacks S) where
  -- The label NORMAL_TEST_COMMIT.
  unfoldable pub normal_test_commit : ℕ → RaftNode S → Option (RaftNode S)
  unfolding votes_of enough_votes do_apply
  normal_test_commit i n =
      if enough_votes n (votes_of (λ p. p.voting_rights && leb i p.match_index) n.peers)
      then do_apply cb false (record n { commit_index = i })
      else some n

  abbrev no_flags : Bool → Flags
  no_flags finish = record {
    finish_staging = finish;
    committed_joint = false;
    committed_new = false;
  }

  abbrev pub commit_by :
      Answer → Configuration → ℕ → Bool → RaftNode S → Option (Flags × RaftNode S)
  commit_by enough c i finish n = some (commit_in c c.state i finish n)
  commit_by not_enough c i finish n = some (no_flags finish, n)
  commit_by no_transition c i finish n = do n' ← normal_test_commit i n; some (no_flags finish, n')

  -- The vote on `new_commit`, from the tests on it to the label CANT_COMMIT.
  unfoldable pub try_commit : ℕ → Bool → RaftNode S → Option (Flags × RaftNode S)
  unfolding gl enough_votes_trans_conf normal_test_commit
  try_commit i finish n =
      let voted = (do
        e ← gl n i
        if not (n.current_term == e.term) then some (no_flags finish, n) else elim n.trans_conf [
          | none ↦ (do n' ← normal_test_commit i n; some (no_flags finish, n'))
          | some c ↦ (do
            (a, n') ← enough_votes_trans_conf (λ p. leb i p.match_index) n
            commit_by a c i finish n')
        ]) in
      if leb i n.commit_index then some (no_flags finish, n) else voted

  -- A successful answer of a known peer.
  unfoldable pub on_success :
      Env → AppendEntriesResponse → NodePeer → RaftNode S → Option (RaftNode S)
  unfolding set_peer none_staging last_log_index try_commit settle
  on_success env r p n =
      let p' = grant_rights r p n in
      let n' = put_peer r.name p' n in
      let finish = not p.voting_rights && none_staging n'.peers in
      if ltb (last_log_index n) r.last_log_index
      then settle env (no_flags finish) (put_peer r.name (at_index (last_log_index n) p') n')
      else (do
        (flags, n'') ←
            try_commit r.last_log_index finish (put_peer r.name (at_index r.last_log_index p') n')
        settle env flags n'')

  -- A failed answer only moves the peer's cursors.
  unfoldable pub on_peer_response : Env → AppendEntriesResponse → RaftNode S → Option (RaftNode S)
  unfolding find_peer set_peer on_success
  on_peer_response env r n = elim (find_peer r.name n.peers) [
    | none ↦ some n
    | some p ↦
        if not r.success
        then some (put_peer r.name (at_index r.last_log_index p) n)
        else on_success env r p n
  ]

  -- A newer term makes the node a follower, and the rest of the handler still runs.
  unfoldable pub on_append_entries_response :
      Env → AppendEntriesResponse → RaftNode S → Option (RaftNode S)
  unfolding become_follower dump on_peer_response
  on_append_entries_response env r n =
      if ltb r.time n.start_timepoint
      then some n
      else if not (is_leader n.state)
      then some n
      else if ltb n.current_term r.term
      then on_peer_response env r (dump (record (become_follower r.term n) { leader_name = [] }))
      else if not (r.term == n.current_term)
      then some n
      else on_peer_response env r n
