-- ===== src/Raft/Persist/Saved.antt =====
-- What `Dump` leaves in the file and what `Load` takes from it (src/node_persister.cpp): the term and
-- the vote.
use ctx_db.Prelude.{
  ◌≡◌, refl, ◌⊎◌, inl, inr, map, Bool, true, not, same, List, [], ◌∷◌, Option, none, some, Text,
  arith, ◌∙◌, Bool-cases, if_cases, bind_some,
}
use ctx_db.Raft.Types.{RaftNode, Configuration, ConfRecord, PersistRecord, NodePeer}
use ctx_db.Raft.Conf.{from_string}
use ctx_db.Raft.Peers.{is_running, add_peer, remove_peer, remove_peers, reset_peers}
use ctx_db.Raft.Persist.{
  is_blank, keeps_old, takes_new, persist_record_of, dump, add_peers, apply_conf, restore_conf,
  load_from,
}

module _ {S : Type 0} where
  -- The file has the node's term and its vote.
  abbrev pub IsSaved : RaftNode S → Type 0
  IsSaved n =
      (r : PersistRecord) × (n.disk ≡ some r)
      × (r.term ≡ n.current_term)
      × (r.vote_for ≡ n.vote_for)

  pub dump-running :
      (n : RaftNode S)
      → is_running n ≡ true
      → dump n ≡ record n { disk = some (persist_record_of n) }
  unfolding dump
  dump-running n h = ground (arith, h)

  pub dump-cases : (n : RaftNode S) → (dump n ≡ n) ⊎ IsSaved (dump n)
  unfolding persist_record_of
  dump-cases n = elim (Bool-cases (is_running n)) [
    | inl running ↦ inr (rw (dump-running n running) (_, refl, refl, refl))
    | inr stopped ↦ inl (unfold dump in rw stopped refl)
  ]

  -- The same term, vote, file and name: what the functions on the peers leave alone.
  pub record SameVote (n m : RaftNode S) : Type 0 where
    pub current_term : m.current_term ≡ n.current_term
    pub vote_for : m.vote_for ≡ n.vote_for
    pub disk : m.disk ≡ n.disk

  SameVote-refl : (n : RaftNode S) → SameVote n n
  SameVote-refl n = record { current_term = refl; vote_for = refl; disk = refl }

  SameVote-trans : {a b c : RaftNode S} → SameVote a b → SameVote b c → SameVote a c
  SameVote-trans h k = record {
    current_term = k.current_term ∙ h.current_term;
    vote_for = k.vote_for ∙ h.vote_for;
    disk = k.disk ∙ h.disk;
  }

  add_peer-SameVote : (k : Text) (n m : RaftNode S) → add_peer k n ≡ some m → SameVote n m
  unfolding add_peer
  add_peer-SameVote k n m h = ground arith

  remove_peer-SameVote : (k : Text) (n : RaftNode S) → SameVote n (remove_peer k n)
  unfolding remove_peer
  remove_peer-SameVote k n = ground arith

  remove_peers-SameVote : (ks : List Text) (n : RaftNode S) → SameVote n (remove_peers ks n)
  unfolding remove_peers
  remove_peers-SameVote [] n = SameVote-refl n
  remove_peers-SameVote (k ∷ ks) n =
      SameVote-trans (remove_peer-SameVote k n) (remove_peers-SameVote ks (remove_peer k n))

  reset_peers-SameVote : (n : RaftNode S) → SameVote n (reset_peers n)
  unfolding reset_peers
  reset_peers-SameVote n = remove_peers-SameVote (map (λ (e : Text × NodePeer). e.0) n.peers) n

  add_peers-SameVote :
      (wanted : Text → Bool) (ks : List Text) (n m : RaftNode S)
      → add_peers wanted ks n ≡ some m
      → SameVote n m
  unfolding add_peers
  add_peers-SameVote wanted [] n m h = ground arith
  add_peers-SameVote wanted (k ∷ ks) n m h = elim (Bool-cases (wanted k)) [
    | inl take ↦
        let (a, added, rest) = bind_some (add_peer k n) (add_peers wanted ks) (rw take at h) in
        SameVote-trans (add_peer-SameVote k n a added) (add_peers-SameVote wanted ks a m rest)
    | inr skip ↦ add_peers-SameVote wanted ks n m (rw skip at h)
  ]

  apply_conf-SameVote :
      (c : Configuration) (n m : RaftNode S) → apply_conf c n ≡ some m → SameVote n m
  unfolding apply_conf
  apply_conf-SameVote c n m h =
      let (a, first, rest) =
        bind_some (add_peers (keeps_old c n.name) c.old n) (add_peers (takes_new c n.name) c.app)
          h in
      SameVote-trans (add_peers-SameVote (keeps_old c n.name) c.old n a first)
        (add_peers-SameVote (takes_new c n.name) c.app a m rest)

  restore_conf-SameVote :
      (r : ConfRecord) (n m : RaftNode S) → restore_conf r n ≡ some m → SameVote n m
  unfolding restore_conf
  restore_conf-SameVote r n m h =
      let (c, _, run) = bind_some (from_string r.peers) _ h in
      let conf = record c { state = r.state; index = r.index; index2 = r.index2 } in
      let n' = record n { trans_conf = some conf } in
      let same_n' : SameVote n n' = record { current_term = refl; vote_for = refl; disk = refl } in
      if_cases (λ o. o ≡ some m → SameVote n m) (is_blank r.state) _ _
        (λ _ steady.
          SameVote-trans (reset_peers-SameVote n)
            (add_peers-SameVote (λ k. not (same k n.name)) c.old (reset_peers n) m steady))
        (λ _ changing.
          SameVote-trans (SameVote-trans same_n' (reset_peers-SameVote n'))
            (apply_conf-SameVote conf (reset_peers n') m changing))
        run

  -- A node that loads a file has the term and the vote of the file.
  pub load_from-some :
      (d : Option PersistRecord) (r : PersistRecord) (n m : RaftNode S)
      → d ≡ some r
      → load_from d n ≡ some m
      → (m.current_term ≡ r.term) × (m.vote_for ≡ r.vote_for) × (m.disk ≡ n.disk)
  load_from-some none r n m at h = cc
  load_from-some (some q) r n m at h =
      let from_file = record n {
        current_term = q.term;
        name = q.name;
        vote_for = q.vote_for;
        logs = q.entries;
      } in
      let kept = restore_conf-SameVote q.conf_record from_file m h in
      (ground (arith, at, kept), ground (arith, at, kept), kept.disk)
