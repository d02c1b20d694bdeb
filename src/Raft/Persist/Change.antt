-- ===== src/Raft/Persist/Change.antt =====
-- A change of the configuration goes on after a restart: what a node loads from a file that was dumped
-- during the change (src/node_persister.cpp, `apply_conf` in src/node_conf.cpp).
use ctx_db.Prelude.{
  ◌≡◌, refl, ap, ◌∙◌, inl, inr, map, Bool, true, false, same, List, [], ◌∷◌, Option, some, Text,
  All, arith, Bool-cases,
}
use ctx_db.Raft.Types.{RaftNode, Configuration, PersistRecord, NodePeer}
use ctx_db.Raft.Conf.{make_configuration}
use ctx_db.Raft.Conf.RoundTrip.{IsPeerName, from_string-to_string}
use ctx_db.Raft.Frame.{SameCore, SameCore-refl, SameCore-trans, add_peer-SameCore}
use ctx_db.Raft.Peers.{
  is_running, has_peer, new_peer, insert_peer, add_peer, remove_peer, remove_peers, reset_peers,
}
use ctx_db.Raft.Persist.{
  is_blank, keeps_old, takes_new, conf_record_of, persist_record_of, dump, add_peers, apply_conf,
  restore_conf, load_from, load,
}
use ctx_db.Raft.Persist.Saved.{dump-running}
use ctx_db.Raft.Persist.RoundTrip.{not_empty, reset_peers-SameCore}

-- The change as the file has it: its thresholds are computed again.
abbrev pub reread : Configuration → Configuration
reread c = record (make_configuration c.app c.rem c.old) {
  state = c.state;
  index = c.index;
  index2 = c.index2;
}

module _ {S : Type 0} where
  trans_conf-remove_peers :
      (ks : List Text) (n : RaftNode S) → (remove_peers ks n).trans_conf ≡ n.trans_conf
  unfolding remove_peers
  trans_conf-remove_peers [] n = refl
  trans_conf-remove_peers (k ∷ ks) n =
      trans_conf-remove_peers ks (remove_peer k n) ∙ trans_conf-remove_peer k n
    where
      trans_conf-remove_peer :
          (k : Text) (n : RaftNode S) → (remove_peer k n).trans_conf ≡ n.trans_conf
      trans_conf-remove_peer k n = unfold remove_peer in ground arith

  -- The node as before but for its peers.
  abbrev Kept : RaftNode S → RaftNode S → Type 0
  Kept n m = SameCore n m × (m.trans_conf ≡ n.trans_conf)

  Kept-trans : (a b c : RaftNode S) → Kept a b → Kept b c → Kept a c
  Kept-trans a b c h k = (SameCore-trans h.0 k.0, k.1 ∙ h.1)

  reset_peers-Kept : (n : RaftNode S) → Kept n (reset_peers n)
  unfolding reset_peers
  reset_peers-Kept n = (
    reset_peers-SameCore n,
    trans_conf-remove_peers (map (λ (e : Text × NodePeer). e.0) n.peers) n,
  )

  add_peer-Kept :
      (k : Text) (n : RaftNode S)
      → same k [] ≡ false
      → same k n.name ≡ false
      → (m : RaftNode S) × (add_peer k n ≡ some m) × Kept n m
  unfolding add_peer
  add_peer-Kept k n named other = elim (Bool-cases (has_peer n k)) [
    | inl present ↦ (n, rw (named, other, present) refl, (SameCore-refl n, refl))
    | inr new ↦
        let m : RaftNode S = record n { peers = insert_peer k (new_peer k) n.peers } in
        let added : add_peer k n ≡ some m = rw (named, other, new) refl in
        (m, added, (add_peer-SameCore k n m added, refl))
  ]

  -- No assertion of `add_peer` fails, where the names are not empty and the wanted ones not the
  -- node's own.
  add_peers-Kept :
      (wanted : Text → Bool) (ks : List Text) (n : RaftNode S)
      → All IsPeerName ks
      → ((k : Text) → wanted k ≡ true → same k n.name ≡ false)
      → (m : RaftNode S) × (add_peers wanted ks n ≡ some m) × Kept n m
  unfolding add_peers
  add_peers-Kept wanted [] n names other = (n, refl, (SameCore-refl n, refl))
  add_peers-Kept wanted (k ∷ ks) n names other = elim (Bool-cases (wanted k)) [
    | inr skip ↦ rw skip (add_peers-Kept wanted ks n names.1 other)
    | inl take ↦
        let (a, added, kept) = add_peer-Kept k n (not_empty k names.0.0.0) (other k take) in
        let (m, rest, kept') =
          add_peers-Kept wanted ks a names.1 (λ j w. rw kept.0.name (other j w)) in
        (m, rw (take, added) rest, Kept-trans n a m kept kept')
  ]

  apply_conf-Kept :
      (c : Configuration) (n : RaftNode S)
      → is_blank c.state ≡ false
      → All IsPeerName c.old
      → All IsPeerName c.app
      → (m : RaftNode S) × (apply_conf c n ≡ some m) × Kept n m
  unfolding apply_conf
  apply_conf-Kept c n changing old app =
      let (a, first, kept) =
        add_peers-Kept (keeps_old c n.name) c.old n old (λ k h. ground (arith, h)) in
      let (m, second, kept') =
        add_peers-Kept (takes_new c n.name) c.app a app
          (λ k h. rw kept.0.name (ground (arith, changing, h))) in
      (m, rw first second, Kept-trans n a m kept kept')

  restore_change :
      (n k : RaftNode S) (c : Configuration)
      → n.trans_conf ≡ some c
      → is_blank c.state ≡ false
      → All IsPeerName c.app
      → All IsPeerName c.rem
      → All IsPeerName c.old
      → restore_conf (conf_record_of n) k
        ≡ apply_conf (reread c) (reset_peers (record k { trans_conf = some (reread c) }))
  unfolding restore_conf conf_record_of
  restore_change n k c in_change changing app rem old =
      rw (in_change, from_string-to_string c app rem old, changing) refl

  -- A node runs and is in a change of its configuration; no name of a peer in the change is empty or
  -- holds ";" or a newline. Any object that loads the file that it has dumped succeeds: no assertion
  -- of `add_peer` fails. It has the term, the vote, the log and the name of the node, and is in the
  -- same change, at the same state and indexes, with the voting thresholds computed again.
  pub change_after_dump :
      (n k : RaftNode S) (c : Configuration)
      → is_running n ≡ true
      → n.trans_conf ≡ some c
      → is_blank c.state ≡ false
      → All IsPeerName c.app
      → All IsPeerName c.rem
      → All IsPeerName c.old
      → (m : RaftNode S) × (load (record k { disk = (dump n).disk }) ≡ some m)
        × (m.current_term ≡ n.current_term)
        × (m.vote_for ≡ n.vote_for)
        × (m.logs ≡ n.logs)
        × (m.name ≡ n.name)
        × (m.trans_conf ≡ some (reread c))
  unfolding load persist_record_of
  change_after_dump n k c running in_change changing app rem old =
      let start : RaftNode S = record k {
        disk = (dump n).disk;
        current_term = n.current_term;
        name = n.name;
        vote_for = n.vote_for;
        logs = n.logs;
        trans_conf = some (reread c);
      } in
      let (m, applied, kept) = apply_conf-Kept (reread c) (reset_peers start) changing old app in
      let all = Kept-trans start (reset_peers start) m (reset_peers-Kept start) kept in
      let written : (dump n).disk ≡ some (persist_record_of n) =
        ap (λ (x : RaftNode S). x.disk) (dump-running n running) in
      (
        m,
        (ap (λ (d : Option PersistRecord). load_from d (record k { disk = (dump n).disk })) written
            ∙ restore_change n (record start { trans_conf = k.trans_conf }) c in_change changing app
                rem old
            ∙ applied),
        all.0.current_term,
        all.0.vote_for,
        all.0.logs,
        all.0.name,
        all.1,
      )
