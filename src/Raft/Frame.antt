-- ===== src/Raft/Frame.antt =====
-- What the parts of the handlers leave alone: applying entries, writing the file and following a
-- change of the configuration keep the log, the commit index, the term, the vote and the role
-- (src/node.cpp, src/node_conf.cpp).
use ctx_db.Prelude.{
  ℕ, zero, suc, ◌+◌, ◌≡◌, refl, ◌∙◌, Bool, inl, inr, List, [], ◌∷◌, some, Text, arith, Bool-cases,
  Option-cases, bind_some, not, ◌&&◌, ◌==◌, leb, max, same,
}
use ctx_db.Raft.Types.{
  RaftNode, LogEntry, Configuration, ConfState, old_joint, joint_new, nuft_cmd_trans,
  nuft_cmd_trans_new,
}
use ctx_db.Raft.Log.{gl, get_base_index}
use ctx_db.Raft.Peers.{add_peer, remove_peer, remove_peers}
use ctx_db.Raft.Persist.{dump, add_peers}
use ctx_db.Raft.Conf.{from_string}
use ctx_db.Raft.Apply.{Callbacks, snapshot_first, apply_entry, apply_loop, do_apply}
use ctx_db.Raft.Change.{
  on_update_configuration_joint, on_update_configuration_new, on_update_configuration_finish,
  remove_others, meet_new,
}
use ctx_db.Raft.Append.{scan_configurations, configuration_committed}

pub record SameCore {S : Type 0} (n m : RaftNode S) : Type 0 where
  pub logs : m.logs ≡ n.logs
  pub commit_index : m.commit_index ≡ n.commit_index
  pub current_term : m.current_term ≡ n.current_term
  pub vote_for : m.vote_for ≡ n.vote_for
  pub state : m.state ≡ n.state
  pub name : m.name ≡ n.name

module _ {S : Type 0} where
  pub SameCore-refl : (n : RaftNode S) → SameCore n n
  SameCore-refl n = record {
    logs = refl;
    commit_index = refl;
    current_term = refl;
    vote_for = refl;
    state = refl;
    name = refl;
  }

  pub SameCore-trans : {n m k : RaftNode S} → SameCore n m → SameCore m k → SameCore n k
  SameCore-trans a b = record {
    logs = b.logs ∙ a.logs;
    commit_index = b.commit_index ∙ a.commit_index;
    current_term = b.current_term ∙ a.current_term;
    vote_for = b.vote_for ∙ a.vote_for;
    state = b.state ∙ a.state;
    name = b.name ∙ a.name;
  }

  pub dump-SameCore : (n : RaftNode S) → SameCore n (dump n)
  unfolding dump
  dump-SameCore n = ground arith

  pub remove_peer-SameCore : (k : Text) (n : RaftNode S) → SameCore n (remove_peer k n)
  unfolding remove_peer
  remove_peer-SameCore k n = ground arith

  pub remove_peers-SameCore : (ks : List Text) (n : RaftNode S) → SameCore n (remove_peers ks n)
  unfolding remove_peers
  remove_peers-SameCore [] n = SameCore-refl n
  remove_peers-SameCore (k ∷ ks) n =
      SameCore-trans (remove_peer-SameCore k n) (remove_peers-SameCore ks (remove_peer k n))

  pub add_peer-SameCore : (k : Text) (n m : RaftNode S) → add_peer k n ≡ some m → SameCore n m
  unfolding add_peer
  add_peer-SameCore k n m h = ground arith

  pub add_peers-SameCore :
      (wanted : Text → Bool) (ks : List Text) (n m : RaftNode S)
      → add_peers wanted ks n ≡ some m
      → SameCore n m
  unfolding add_peers
  add_peers-SameCore wanted [] n m h = ground arith
  add_peers-SameCore wanted (k ∷ ks) n m h = elim (Bool-cases (wanted k)) [
    | inr e ↦ add_peers-SameCore wanted ks n m (rw e at h)
    | inl e ↦ elim (Option-cases (add_peer k n)) [
      | inl e' ↦ ground arith
      | inr (n', e') ↦
          SameCore-trans (add_peer-SameCore k n n' e')
            (add_peers-SameCore wanted ks n' m (rw (e, e') at h))
    ]
  ]

  remove_others-SameCore : (ks : List Text) (n : RaftNode S) → SameCore n (remove_others ks n)
  unfolding remove_others
  remove_others-SameCore [] n = SameCore-refl n
  remove_others-SameCore (k ∷ ks) n = elim (Bool-cases (same k n.leader_name)) [
    | inl e ↦ rw e (remove_others-SameCore ks n)
    | inr e ↦
        rw e
          (SameCore-trans (remove_peer-SameCore k n) (remove_others-SameCore ks (remove_peer k n)))
  ]

  on_joint-SameCore :
      (e : LogEntry) (n m : RaftNode S) → on_update_configuration_joint e n ≡ some m → SameCore n m
  unfolding on_update_configuration_joint
  on_joint-SameCore e n m h = elim (Option-cases n.trans_conf) [
    | inr (c, t) ↦ ground arith
    | inl t ↦
        let (c, read, h1) =
          bind_some (from_string e.content) _ (simp (t, on_update_configuration_joint) at h) in
        let marked = record n {
          trans_conf = some (record c { state = old_joint; index = e.index });
        } in
        let wanted = λ (k : Text). not (same k n.name) in
        let (n', added, h2) = bind_some (add_peers wanted c.app marked) _ h1 in
        ground (arith, add_peers-SameCore wanted c.app marked n' added, dump-SameCore n')
  ]

  meet_new-SameCore :
      (e : LogEntry) (c : Configuration) (s : ConfState) (n : RaftNode S)
      → SameCore n (meet_new e c s n)
  meet_new-SameCore e c old_joint n =
      let marked = record n {
        trans_conf = some (record c { state = joint_new; index2 = e.index });
      } in
      let others = remove_others-SameCore c.rem marked in
      ground (arith, others, dump-SameCore (remove_others c.rem marked))
  meet_new-SameCore e c _ n = SameCore-refl n

  pub on_new-SameCore :
      (e : LogEntry) (n : RaftNode S) → SameCore n (on_update_configuration_new e n)
  unfolding on_update_configuration_new
  on_new-SameCore e n = elim (Option-cases n.trans_conf) [
    | inl t ↦ ground arith
    | inr (c, t) ↦ simp (t, on_update_configuration_new) (meet_new-SameCore e c c.state n)
  ]

  on_finish-SameCore : (n : RaftNode S) → SameCore n (on_update_configuration_finish n)
  unfolding on_update_configuration_finish
  on_finish-SameCore n = ground (arith, dump-SameCore n)

  pub scan-SameCore :
      (prev i : ℕ) (n m : RaftNode S) → scan_configurations prev i n ≡ some m → SameCore n m
  unfolding scan_configurations
  scan-SameCore prev zero n m h = ground arith
  scan-SameCore prev (suc i) n m h =
      elim (Bool-cases (leb (max 1 prev) (suc i) && leb (get_base_index n) (suc i))) [
        | inr stop ↦ ground arith
        | inl more ↦
            let (e, found, h1) = bind_some (gl n (suc i)) _ (rw more at h) in
            elim (Bool-cases (e.command == nuft_cmd_trans)) [
              | inl agreed ↦ on_joint-SameCore e n m (rw agreed at h1)
              | inr other ↦ elim (Bool-cases (e.command == nuft_cmd_trans_new)) [
                | inl changed ↦ SameCore-trans (on_new-SameCore e n) (
                    scan-SameCore prev i (on_update_configuration_new e n) m
                      (rw (other, changed) at h1))
                | inr plain ↦ scan-SameCore prev i n m (rw (other, plain) at h1)
              ]
            ]
      ]

  pub configuration_committed-SameCore : (n : RaftNode S) → SameCore n (configuration_committed n)
  unfolding configuration_committed
  configuration_committed-SameCore n = ground (arith, dump-SameCore n, on_finish-SameCore n)

module _ {S : Type 0} (cb : Callbacks S) where
  apply_entry-SameCore :
      (b : Bool) (i : ℕ) (e : LogEntry) (n : RaftNode S) → SameCore n (apply_entry cb b i e n)
  unfolding apply_entry
  apply_entry-SameCore b i e n = ground arith

  pub apply_loop-SameCore :
      (k : ℕ) (b : Bool) (i : ℕ) (n m : RaftNode S) → apply_loop cb k b i n ≡ some m → SameCore n m
  unfolding apply_loop
  apply_loop-SameCore zero b i n m h = ground arith
  apply_loop-SameCore (suc k) b i n m h = elim (Option-cases (gl n i)) [
    | inl e ↦ ground arith
    | inr (x, e) ↦
        SameCore-trans (apply_entry-SameCore b i x n)
          (apply_loop-SameCore k b (i + 1) (apply_entry cb b i x n) m (rw e at h))
  ]

  pub do_apply-SameCore : (b : Bool) (n m : RaftNode S) → do_apply cb b n ≡ some m → SameCore n m
  unfolding do_apply
  do_apply-SameCore b n m h =
      let (asserted, first, h1) = bind_some (snapshot_first cb b n) _ h in
      elim (Bool-cases asserted) [
        | inl e ↦ apply_loop-SameCore _ b _ n m (rw e at h1)
        | inr e ↦ ground arith
      ]
