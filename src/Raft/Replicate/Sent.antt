-- ===== src/Raft/Replicate/Sent.antt =====
-- What the leader sends (`do_append_entries`, src/node_rpc_a.cpp).
use ctx_db.Prelude.{
  ℕ, zero, suc, ◌+◌, ◌-◌, ◌≤◌, ◌<◌, ◌≡◌, refl, ◌∙◌, ◌⊎◌, inl, inr, max, true, false, ◌&&◌, List, [],
  ◌∷◌, some, length, take, drop, arith, ltb, leb, Bool-cases, subst, length-drop,
}
use ctx_db.Raft.Types.{
  RaftNode, NodePeer, LogEntry, Env, append_entries, AppendEntriesRequest, default_index_cursor,
  default_term_cursor,
}
use ctx_db.Raft.Log.{base_of, last_index_of, get_base_index, last_log_index}
use ctx_db.Raft.Log.Contiguous.{
  take_all, IsContiguous, NumberedFrom, NumberedFrom-drop, gl-get_elem?, take-drop_step,
  last_index-length, gl_found,
}
use ctx_db.Raft.Role.{seq_initial}
use ctx_db.Raft.Replicate.{copy_entries, append_request, message_to, prev_term}

send_bound :
    (l : List LogEntry) (next : ℕ)
    → next ≤ last_index_of l + 1
    → 1 ≤ next
    → (last_index_of l + 1 ≡ base_of l + length l) ⊎ (l ≡ [])
    → 0 < last_index_of l + 1 - next
    → next + (last_index_of l + 1 - next) ≤ base_of l + length l
unfolding last_index_of base_of
send_bound [] next hi lo size more = absurd (omega arith)
send_bound (e ∷ es) next hi lo (inl size) more = omega arith
send_bound (e ∷ es) next hi lo (inr size) more = cc

drop_bound :
    (l : List LogEntry) (next : ℕ)
    → base_of l ≤ next
    → (last_index_of l + 1 ≡ base_of l + length l) ⊎ (l ≡ [])
    → length (drop (next - base_of l) l) ≤ last_index_of l + 1 - next
unfolding last_index_of base_of
drop_bound [] next lo size = omega (arith, length-drop {A = LogEntry} (next - 0) [])
drop_bound (e ∷ es) next lo (inl size) = omega (arith, length-drop (next - e.index) (e ∷ es))
drop_bound (e ∷ es) next lo (inr size) = cc

drop-nil : (k : ℕ) → drop {A = LogEntry} k [] ≡ []
drop-nil zero = refl
drop-nil (suc k) = refl

drop-NumberedFrom :
    (l : List LogEntry) (i : ℕ)
    → IsContiguous l
    → base_of l ≤ i
    → NumberedFrom i (drop (i - base_of l) l)
unfolding base_of
drop-NumberedFrom [] i c lo = rw (drop-nil (i - 0)) tt
drop-NumberedFrom (e ∷ es) i c lo =
    subst (λ j. NumberedFrom j (drop (i - e.index) (e ∷ es))) (omega arith)
      (NumberedFrom-drop (i - e.index) e.index (e ∷ es) (refl, c.1))

module _ {S : Type 0} where
  copy_entries-lem :
      (n : RaftNode S) (i k : ℕ)
      → get_base_index n ≤ i
      → (0 < k → i + k ≤ get_base_index n + length n.logs)
      → copy_entries n i k ≡ some (take k (drop (i - get_base_index n) n.logs))
  unfolding copy_entries get_base_index
  copy_entries-lem n i zero lo hi = refl
  copy_entries-lem n i (suc k) lo hi =
      let in_range : i + suc k ≤ base_of n.logs + length n.logs = hi (omega arith) in
      let (e, found, step) = take-drop_step n.logs k (i - base_of n.logs) (omega arith) in
      let rest = copy_entries-lem n (i + 1) k (omega arith) (λ _. omega arith) in
      let position : i + 1 - base_of n.logs ≡ suc (i - base_of n.logs) = omega arith in
      let rest' = rw position at rest in rw (gl-get_elem? n.logs n i refl lo ∙ found, step, rest')

  -- What `next_index` says of the peer is a place in the log, or just behind it, that the entries
  -- can be sent from: it is not before the compacted part.
  abbrev pub CanSend : RaftNode S → NodePeer → Type 0
  CanSend n p =
      IsContiguous n.logs
      × (1 ≤ p.next_index)
      × (p.next_index ≤ last_log_index n + 1)
      × ((get_base_index n < p.next_index) ⊎ (get_base_index n ≡ 1) × (p.next_index ≡ 1))

  prev_term-lem :
      (n : RaftNode S) (p : NodePeer)
      → CanSend n p
      → (t : ℕ) × (prev_term n (p.next_index - 1) ≡ some t)
  unfolding get_base_index last_log_index
  prev_term-lem n p (c, lo, hi, place) =
      elim (Bool-cases (ltb default_index_cursor (p.next_index - 1))) [
        | inr first ↦ (default_term_cursor, rw first)
        | inl later ↦
            let (e, found, _) =
              gl_found n (p.next_index - 1) c (ground arith) (ground arith) (ground arith) in
            (e.term, rw (later, found))
      ]

  -- The entries from `next_index` on.
  copied-lem :
      (n : RaftNode S) (p : NodePeer)
      → CanSend n p
      → copy_entries n (max 1 p.next_index) (last_log_index n + 1 - max 1 p.next_index)
        ≡ some (drop (p.next_index - get_base_index n) n.logs)
  unfolding get_base_index last_log_index
  copied-lem n p (c, lo, hi, place) =
      let same : max 1 p.next_index ≡ p.next_index = omega arith in
      let k = last_index_of n.logs + 1 - p.next_index in
      let size = last_index-length n.logs c in
      let bound : 0 < k → p.next_index + k ≤ base_of n.logs + length n.logs =
        send_bound n.logs p.next_index hi lo size in
      let all =
        take_all k (drop (p.next_index - base_of n.logs) n.logs)
          (drop_bound n.logs p.next_index (ground arith) size) in
      rw (same, copy_entries-lem n p.next_index k (ground arith) bound, all) refl

  -- A peer whose `next_index` is behind the first entry of the leader's log, numbered one by one,
  -- and at most just behind its last one, or is that first entry where the log starts at index 0,
  -- is sent the entries from `next_index` to the last one, all of them and in order, with the
  -- leader's term and commit index, and `prev_log_index` in front of them. No assertion fails and
  -- no access is out of bounds.
  pub sends_rest_of_log :
      (env : Env) (n : RaftNode S) (p : NodePeer)
      → CanSend n p
      → (r : AppendEntriesRequest) × (message_to env n p ≡ some (append_entries r))
        × (r.entries ≡ drop (p.next_index - get_base_index n) n.logs)
        × (r.prev_log_index + 1 ≡ p.next_index)
        × NumberedFrom (r.prev_log_index + 1) r.entries
        × (r.term ≡ n.current_term)
        × (r.leader_commit ≡ n.commit_index)
  unfolding message_to append_request
  sends_rest_of_log env n p (c, lo, hi, place) =
      let (t, prev) = prev_term-lem n p (c, lo, hi, place) in
      let copied = copied-lem n p (c, lo, hi, place) in
      let entries : leb p.next_index (get_base_index n) && ltb 1 (get_base_index n) ≡ false =
        ground arith in
      let reached : leb (get_base_index n) p.next_index ≡ true = ground arith in
      let next : p.next_index - 1 + 1 ≡ p.next_index = omega arith in
      let rest = drop (p.next_index - get_base_index n) n.logs in
      let numbered : NumberedFrom (p.next_index - 1 + 1) rest =
        rw next (drop-NumberedFrom n.logs p.next_index c (ground arith)) in
      let r : AppendEntriesRequest = record {
        name = n.name;
        term = n.current_term;
        prev_log_index = p.next_index - 1;
        prev_log_term = t;
        leader_commit = n.commit_index;
        entries = rest;
        time = env.now;
        seq = p.seq;
        initial = seq_initial p;
      } in
      (r, rw (entries, prev, copied, reached) refl, refl, next, numbered, refl, refl)
