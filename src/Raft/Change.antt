-- ===== src/Raft/Change.antt =====
-- The change of the cluster's members (src/node_conf.cpp). A null `trans_conf` fails where it is
-- dereferenced.
use ctx_db.Prelude.{
  ◌+◌, false, not, ◌||◌, List, [], ◌∷◌, ◌++◌, map, Option, none, some, Text, same, if◌then◌else◌,
  ◌>>=◌,
}
use ctx_db.Nuke.{contains}
use ctx_db.Wire.{no_payload}
use ctx_db.Raft.Types.{
  RaftNode, NodePeer, LogEntry, Configuration, ConfState, staging, old_joint, joint, joint_new,
  is_leader, Env, nuft_cmd_trans, nuft_cmd_trans_new,
}
use ctx_db.Raft.Conf.{make_configuration, to_string, from_string}
use ctx_db.Raft.Log.{last_log_index}
use ctx_db.Raft.Peers.{find_peer, set_peer, add_peer, remove_peer, remove_peers}
use ctx_db.Raft.Persist.{dump, add_peers}
use ctx_db.Raft.Replicate.{do_log, Draft}

-- The results of `update_configuration`.
pub data ChangeResult : Type 0 where
  started refused_not_leader refused_busy : ChangeResult

abbrev draft_of : Text → Draft
draft_of s = record { cmd = []; content = s; payload = no_payload }

module _ {S : Type 0} where
  -- `update_configuration_joint`: the entry for C_{old,new} is logged.
  unfoldable pub update_configuration_joint : Env → RaftNode S → Option (RaftNode S)
  unfolding do_log dump to_string last_log_index
  update_configuration_joint env n = do
    c ← n.trans_conf
    let c' = record c { index = last_log_index n + 1; state = old_joint }
    (_, n') ←
        do_log env (draft_of (to_string c')) nuft_cmd_trans (record n { trans_conf = some c' })
    some (dump n')

  -- The loop that adds the new peers, without voting rights.
  unfoldable pub add_staging : List Text → RaftNode S → Option (RaftNode S)
  unfolding add_peer find_peer set_peer
  add_staging [] n = some n
  add_staging (k ∷ ks) n = if same k n.name then add_staging ks n else (do
    n' ← add_peer k n
    p ← find_peer k n'.peers
    add_staging ks (record n' { peers = set_peer k (record p { voting_rights = false }) n'.peers }))

  abbrev stage_or_log : Env → List Text → RaftNode S → Option (RaftNode S)
  stage_or_log env [] n = update_configuration_joint env n
  stage_or_log env (k ∷ ks) n = some n

  unfoldable pub update_configuration :
      Env → List Text → List Text → RaftNode S → Option (ChangeResult × RaftNode S)
  unfolding add_staging update_configuration_joint dump make_configuration
  update_configuration env app rem n =
      if not (is_leader n.state) || n.paused
      then some (refused_not_leader, n)
      else elim n.trans_conf [
        | some c ↦ some (refused_busy, n)
        | none ↦ (do
          let c =
              make_configuration app rem (map (λ (e : Text × NodePeer). e.0) n.peers ++ n.name ∷ [])
          n' ← add_staging app (record n { trans_conf = some (record c { state = staging }) })
          n'' ← stage_or_log env app n'
          some (started, dump n''))
      ]

  -- A follower meets the entry for C_{old,new}.
  unfoldable pub on_update_configuration_joint : LogEntry → RaftNode S → Option (RaftNode S)
  unfolding from_string add_peers dump
  on_update_configuration_joint e n = elim n.trans_conf [
    | some c ↦ some n
    | none ↦ (do
      c ← from_string e.content
      let c' = record c { state = old_joint; index = e.index }
      n' ← add_peers (λ k. not (same k n.name)) c'.app (record n { trans_conf = some c' })
      some (dump n'))
  ]

  unfoldable pub on_update_configuration_joint_committed : RaftNode S → Option (RaftNode S)
  unfolding dump
  on_update_configuration_joint_committed n = do
    c ← n.trans_conf
    some (dump (record n { trans_conf = some (record c { state = joint }) }))

  -- `update_configuration_new`: the entry for C_new is logged.
  unfoldable pub update_configuration_new : Env → RaftNode S → Option (RaftNode S)
  unfolding do_log dump last_log_index
  update_configuration_new env n = do
    c ← n.trans_conf
    (_, n') ←
        do_log env (draft_of []) nuft_cmd_trans_new
          (record n { trans_conf = some (record c { index2 = last_log_index n + 1 }) })
    c' ← n'.trans_conf
    some (dump (record n' { trans_conf = some (record c' { state = joint_new }) }))

  -- The loop over the peers that leave; the leader stays for now.
  unfoldable pub remove_others : List Text → RaftNode S → RaftNode S
  unfolding remove_peer same
  remove_others [] n = n
  remove_others (k ∷ ks) n = remove_others ks (if same k n.leader_name then n else remove_peer k n)

  abbrev pub meet_new : LogEntry → Configuration → ConfState → RaftNode S → RaftNode S
  meet_new e c old_joint n = dump (
      remove_others c.rem
        (record n { trans_conf = some (record c { state = joint_new; index2 = e.index }) }))
  meet_new e c _ n = n

  -- A follower meets the entry for C_new.
  unfoldable pub on_update_configuration_new : LogEntry → RaftNode S → RaftNode S
  unfolding remove_others dump
  on_update_configuration_new e n = elim n.trans_conf [ none ↦ n | some c ↦ meet_new e c c.state n ]

  -- The leader is done: the peers that leave are removed.
  unfoldable pub update_configuration_finish : RaftNode S → Option (RaftNode S)
  unfolding remove_peers dump
  update_configuration_finish n = do
    c ← n.trans_conf
    some (dump (record (remove_peers c.rem n) { trans_conf = none }))

  abbrev finish_in : Configuration → ConfState → RaftNode S → RaftNode S
  finish_in c joint_new n =
      dump (record (if contains c.rem n.leader_name then remove_peer n.leader_name n else n) {
        trans_conf = none;
      })
  finish_in c _ n = n

  unfoldable pub on_update_configuration_finish : RaftNode S → RaftNode S
  unfolding remove_peer dump contains
  on_update_configuration_finish n = elim n.trans_conf [ none ↦ n | some c ↦ finish_in c c.state n ]
