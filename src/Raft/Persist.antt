-- ===== src/Raft/Persist.antt =====
-- `Persister::Dump` and `Persister::Load` (src/node_persister.cpp), and `apply_conf`
-- (src/node_conf.cpp). The file is the field `disk`; protobuf gives back what was written.
pub mod Saved
pub mod Ordered
pub mod RoundTrip
pub mod Change
use ctx_db.Prelude.{
  Bool, true, false, not, ◌&&◌, ◌||◌, List, [], ◌∷◌, ◌++◌, map, Option, none, some, Text, same, leb,
  if◌then◌else◌, ◌>>=◌,
}
use ctx_db.Nuke.{contains}
use ctx_db.Raft.Types.{
  RaftNode, NodePeer, Configuration, ConfState, ConfRecord, PersistRecord, blank, old_joint,
  joint_new, conf_rank, default_index_cursor,
}
use ctx_db.Raft.Conf.{make_configuration, to_string, from_string}
use ctx_db.Raft.Peers.{is_running, add_peer, reset_peers}

abbrev pub is_blank : ConfState → Bool
is_blank blank = true
is_blank _ = false

-- The tests of the two loops of `apply_conf`, on an old peer and on a peer to add.
abbrev pub keeps_old : Configuration → Text → Text → Bool
keeps_old c me k =
    not (same k me) && not (leb (conf_rank joint_new) (conf_rank c.state) && contains c.rem k)

abbrev pub takes_new : Configuration → Text → Text → Bool
takes_new c me k =
    (not (same k me) && leb (conf_rank old_joint) (conf_rank c.state)) || is_blank c.state

module _ {S : Type 0} where
  -- The record of a configuration change under way, or of the present peers.
  unfoldable pub conf_record_of : RaftNode S → ConfRecord
  unfolding to_string make_configuration
  conf_record_of n = elim n.trans_conf [
    | some c ↦ record { peers = to_string c; index = c.index; index2 = c.index2; state = c.state }
    | none ↦ record {
      peers =
          to_string
            (make_configuration [] [] (map (λ (e : Text × NodePeer). e.0) n.peers ++ n.name ∷ []));
      index = default_index_cursor;
      index2 = default_index_cursor;
      state = blank;
    }
  ]

  unfoldable pub persist_record_of : RaftNode S → PersistRecord
  unfolding conf_record_of
  persist_record_of n = record {
    term = n.current_term;
    name = n.name;
    vote_for = n.vote_for;
    entries = n.logs;
    conf_record = conf_record_of n;
    last_seq = n.last_seq;
  }

  unfoldable pub dump : RaftNode S → RaftNode S
  unfolding persist_record_of is_running
  dump n = if is_running n then record n { disk = some (persist_record_of n) } else n

  -- `add_peer` for each name that passes the test.
  unfoldable pub add_peers : (Text → Bool) → List Text → RaftNode S → Option (RaftNode S)
  unfolding add_peer
  add_peers wanted [] n = some n
  add_peers wanted (k ∷ ks) n =
      if wanted k then add_peer k n >>= add_peers wanted ks else add_peers wanted ks n

  unfoldable pub apply_conf : Configuration → RaftNode S → Option (RaftNode S)
  unfolding add_peers contains
  apply_conf c n = do
    n' ← add_peers (keeps_old c n.name) c.old n
    add_peers (takes_new c n.name) c.app n'

  -- A record of no configuration change restores the peers; any other restores the change too.
  unfoldable pub restore_conf : ConfRecord → RaftNode S → Option (RaftNode S)
  unfolding from_string reset_peers apply_conf
  restore_conf r n = do
    c ← from_string r.peers
    let conf = record c { state = r.state; index = r.index; index2 = r.index2 }
    if is_blank r.state
        then add_peers (λ k. not (same k n.name)) c.old (reset_peers n)
        else apply_conf conf (reset_peers (record n { trans_conf = some conf }))

  -- A file that is missing reads as a record with no field set.
  abbrev pub load_from : Option PersistRecord → RaftNode S → Option (RaftNode S)
  load_from none n = some (record n { current_term = 0; name = []; vote_for = []; logs = [] })
  load_from (some r) n =
      restore_conf r.conf_record
        (record n { current_term = r.term; name = r.name; vote_for = r.vote_for; logs = r.entries })

  unfoldable pub load : RaftNode S → Option (RaftNode S)
  unfolding restore_conf
  load n = load_from n.disk n
