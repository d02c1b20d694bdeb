-- ===== src/Raft/Persist/RoundTrip.antt =====
-- What a node loads from the file that another object has dumped (src/node_persister.cpp).
use ctx_db.Prelude.{
  ◌≡◌, ◌≢◌, refl, sym, ap, ◌∙◌, map, Bool, true, false, not, same, same_refl, List, [], ◌∷◌, ◌++◌,
  Option, none, some, Text, All, arith,
}
use mathlib.Core.List.{append-nil, append_assoc}
use ctx_db.Raft.Types.{RaftNode, ConfRecord, PersistRecord, NodePeer, blank, default_index_cursor}
use ctx_db.Raft.Conf.{to_string, make_configuration}
use ctx_db.Raft.Conf.RoundTrip.{IsPeerName, from_string-to_string}
use ctx_db.Raft.Frame.{SameCore, remove_peers-SameCore}
use ctx_db.Raft.Peers.{
  is_running, find_peer, has_peer, erase_peer, add_peer, new_peer, remove_peer, remove_peers,
  reset_peers,
}
use ctx_db.Raft.Persist.{
  conf_record_of, persist_record_of, dump, add_peers, restore_conf, load_from, load,
}
use ctx_db.Raft.Persist.Saved.{dump-running}
use ctx_db.Raft.Persist.Ordered.{
  peer_names, fresh_entry, Distinct, IsOrdered, Follows, insert_peer_last, Follows-append,
  Follows-empty,
}

-- The name of a peer of the node `me`, as a configuration and a node can hold it.
abbrev pub IsPeerOf : Text → Text → Type 0
IsPeerOf me k = IsPeerName k × (same k me ≡ false)

All-peers :
    (ks : List Text) (me last : Text)
    → All (IsPeerOf me) ks
    → IsPeerName last
    → All IsPeerName (ks ++ last ∷ [])
All-peers [] me last h name = (name, tt)
All-peers (k ∷ ks) me last h name = (h.0.0, All-peers ks me last h.1 name)

pub not_empty : (k : Text) → k ≢ [] → same k [] ≡ false
unfolding same
not_empty [] h = absurd (h refl)
not_empty (c ∷ k) h = refl

last_unwanted : (last me : Text) → me ≡ last → not (same last me) ≡ false
last_unwanted last me h = rw (h, same_refl last) refl

All-wanted :
    (ks : List Text) (me me' me'' : Text)
    → All (IsPeerOf me) ks
    → me' ≡ me
    → me'' ≡ me
    → All (λ k. (not (same k me') ≡ true) × (same k [] ≡ false) × (same k me'' ≡ false)) ks
All-wanted [] me me' me'' h e e' = tt
All-wanted (k ∷ ks) me me' me'' h e e' =
    ((rw (e, h.0.1) refl, not_empty k h.0.0.0.0, rw e' h.0.1), All-wanted ks me me' me'' h.1 e e')

module _ {S : Type 0} where
  peers-remove_first :
      (k : Text) (p : NodePeer) (ps : List (Text × NodePeer)) (n : RaftNode S)
      → n.peers ≡ (k, p) ∷ ps
      → (remove_peer k n).peers ≡ ps
  unfolding remove_peer find_peer erase_peer
  peers-remove_first k p ps n h = ground (arith, same_refl k)

  -- `reset_peers` takes out the first peer each time, until none is left.
  remove_names :
      (ps : List (Text × NodePeer)) (n : RaftNode S)
      → n.peers ≡ ps
      → (remove_peers (peer_names ps) n).peers ≡ []
  unfolding remove_peers
  remove_names [] n h = h
  remove_names ((k, p) ∷ ps) n h = remove_names ps (remove_peer k n) (peers-remove_first k p ps n h)

  peers-reset_peers : (n : RaftNode S) → (reset_peers n).peers ≡ []
  unfolding reset_peers
  peers-reset_peers n = remove_names n.peers n refl

  pub reset_peers-SameCore : (n : RaftNode S) → SameCore n (reset_peers n)
  unfolding reset_peers
  reset_peers-SameCore n = remove_peers-SameCore (peer_names n.peers) n

  add_new :
      (k : Text) (n : RaftNode S)
      → same k [] ≡ false
      → same k n.name ≡ false
      → Follows k n.peers
      → add_peer k n ≡ some (record n { peers = n.peers ++ fresh_entry k ∷ [] })
  unfolding add_peer has_peer
  add_new k n named other follows =
      rw (named, other, follows.0)
        (ap (λ ps. some (record n { peers = ps }))
          (insert_peer_last k (new_peer k) n.peers follows.1))

  -- `add_peer` of each name in turn, where all are new, and the last one is not wanted.
  add_each :
      (wanted : Text → Bool) (ks : List Text) (last : Text) (n : RaftNode S)
      → wanted last ≡ false
      → All (λ k. (wanted k ≡ true) × (same k [] ≡ false) × (same k n.name ≡ false)) ks
      → Distinct ks
      → IsOrdered ks
      → All (λ k. Follows k n.peers) ks
      → add_peers wanted (ks ++ last ∷ []) n
        ≡ some (record n { peers = n.peers ++ map fresh_entry ks })
  unfolding add_peers
  add_each wanted [] last n skip h d o absent =
      rw skip (ap (λ ps. some (record n { peers = ps })) (sym (append-nil n.peers)))
  add_each wanted (k ∷ ks) last n skip h d o absent =
      let n' : RaftNode S = record n { peers = n.peers ++ fresh_entry k ∷ [] } in
      let rest =
        add_each wanted ks last n' skip h.1 d.1 o.1
          (Follows-append ks k n.peers absent.1 d.0 o.0) in
      rw (h.0.0, add_new k n h.0.1 h.0.2 absent.0)
        (rest
          ∙ ap (λ ps. some (record n { peers = ps }))
              (append_assoc n.peers (fresh_entry k ∷ []) (map fresh_entry ks)))

  -- The record of a node that is not in a change of its configuration.
  steady_record : RaftNode S → ConfRecord
  steady_record n = record {
    peers = to_string (make_configuration [] [] (peer_names n.peers ++ n.name ∷ []));
    index = default_index_cursor;
    index2 = default_index_cursor;
    state = blank;
  }

  conf_record_steady : (n : RaftNode S) → n.trans_conf ≡ none → conf_record_of n ≡ steady_record n
  unfolding conf_record_of steady_record
  conf_record_steady n steady = rw steady refl

  restore_steady :
      (n k : RaftNode S)
      → All (IsPeerOf n.name) (peer_names n.peers)
      → Distinct (peer_names n.peers)
      → IsOrdered (peer_names n.peers)
      → IsPeerName n.name
      → k.name ≡ n.name
      → restore_conf (steady_record n) k
        ≡ some (record (reset_peers k) { peers = map fresh_entry (peer_names n.peers) })
  unfolding restore_conf steady_record
  restore_steady n k peers distinct ordered name same_name =
      let ks : List Text = peer_names n.peers in
      let read =
        from_string-to_string (make_configuration [] [] (ks ++ n.name ∷ [])) tt tt
          (All-peers ks n.name n.name peers name) in
      let empty = peers-reset_peers k in
      let added =
        add_each (λ j. not (same j k.name)) ks n.name (reset_peers k)
          (last_unwanted n.name k.name same_name)
          (All-wanted ks n.name k.name (reset_peers k).name peers same_name
            ((reset_peers-SameCore k).name ∙ same_name))
          distinct ordered (Follows-empty ks (reset_peers k).peers empty) in
      rw read (
        added ∙ ap (λ ps. some (record (reset_peers k) { peers = ps ++ map fresh_entry ks })) empty)

  -- A node runs, is in no change of its configuration, and has peers of different names, none of
  -- them its own, in the order of the names, as a map keeps them; no name is empty or holds ";" or a newline. Any object that loads the file that it
  -- has dumped succeeds, and has the term, the vote, the log and the name of the node, and its peers
  -- in the same order, each as a new one.
  pub load_after_dump :
      (n k : RaftNode S)
      → is_running n ≡ true
      → n.trans_conf ≡ none
      → All (IsPeerOf n.name) (peer_names n.peers)
      → Distinct (peer_names n.peers)
      → IsOrdered (peer_names n.peers)
      → IsPeerName n.name
      → (m : RaftNode S) × (load (record k { disk = (dump n).disk }) ≡ some m)
        × (m.current_term ≡ n.current_term)
        × (m.vote_for ≡ n.vote_for)
        × (m.logs ≡ n.logs)
        × (m.name ≡ n.name)
        × (m.peers ≡ map fresh_entry (peer_names n.peers))
  unfolding load persist_record_of
  load_after_dump n k running steady peers distinct ordered name =
      let from_file : RaftNode S = record k {
        disk = (dump n).disk;
        current_term = n.current_term;
        name = n.name;
        vote_for = n.vote_for;
        logs = n.logs;
      } in
      let restored = restore_steady n from_file peers distinct ordered name refl in
      let kept = reset_peers-SameCore from_file in
      let written : (dump n).disk ≡ some (persist_record_of n) =
        ap (λ (x : RaftNode S). x.disk) (dump-running n running) in
      (
        record (reset_peers from_file) { peers = map fresh_entry (peer_names n.peers) },
        (ap (λ (d : Option PersistRecord). load_from d (record k { disk = (dump n).disk })) written
            ∙ ap (λ (c : ConfRecord). restore_conf c from_file) (conf_record_steady n steady)
            ∙ restored),
        kept.current_term,
        kept.vote_for,
        kept.logs,
        kept.name,
        refl,
      )
