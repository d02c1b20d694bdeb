-- ===== src/Raft/Apply/Exact.antt =====
-- What `do_apply` (src/node.cpp) hands to the callbacks: the committed entries that were not
-- applied, each once and in the order of the log.
use ctx_db.Prelude.{
  ℕ, zero, suc, ◌+◌, ◌-◌, ◌≤◌, ◌<◌, ◌≡◌, refl, ap, ◌∙◌, ◌⊎◌, inl, inr, Bool, false, List, [], ◌∷◌,
  some, length, take, length-take, length-drop, drop, arith,
}
use native.Mathlib.Decide.{dec_lt}
use ctx_db.Message.{ApplyMessage}
use ctx_db.Raft.Types.{RaftNode, LogEntry}
use ctx_db.Raft.Log.{base_of, last_index_of, get_base_index, last_log_index}
use ctx_db.Raft.Log.Contiguous.{take-drop_step, gl-get_elem?, IsContiguous, last_index-length}
use ctx_db.Raft.Apply.{Callbacks, message_of, apply_entry, apply_loop, do_apply, nuft_ok}

apply_bound :
    (l : List LogEntry) (commit applied : ℕ)
    → 0 < commit - applied
    → commit ≤ last_index_of l
    → (last_index_of l + 1 ≡ base_of l + length l) ⊎ (l ≡ [])
    → applied + 1 + (commit - applied) ≤ base_of l + length l
apply_bound l commit applied more hi (inl e) = omega arith
apply_bound l commit applied more hi (inr e) =
    let none_left : last_index_of l ≡ 0 = unfold last_index_of in ap last_index_of e in
    absurd (omega arith)

module _ {S : Type 0} (cb : Callbacks S) where
  -- One round for each entry of the list, the first one at index i.
  unfoldable pub apply_entries : Bool → ℕ → List LogEntry → RaftNode S → RaftNode S
  apply_entries b i [] n = n
  apply_entries b i (e ∷ es) n = apply_entries b (i + 1) es (apply_entry cb b i e n)

  logs-apply_entry :
      (b : Bool) (i : ℕ) (e : LogEntry) (n : RaftNode S) → (apply_entry cb b i e n).logs ≡ n.logs
  unfolding apply_entry
  logs-apply_entry b i e n = ground arith

  apply_loop-eq :
      (l : List LogEntry) (k : ℕ) (b : Bool) (i : ℕ) (n : RaftNode S)
      → n.logs ≡ l
      → base_of l ≤ i
      → (0 < k → i + k ≤ base_of l + length l)
      → apply_loop cb k b i n ≡ some (apply_entries b i (take k (drop (i - base_of l) l)) n)
  unfolding apply_loop apply_entries
  apply_loop-eq l zero b i n same lo hi = refl
  apply_loop-eq l (suc k) b i n same lo hi =
      let in_range : i + suc k ≤ base_of l + length l = hi (omega arith) in
      let (e, found, step) = take-drop_step l k (i - base_of l) (omega arith) in
      let rest =
        apply_loop-eq l k b (i + 1) (apply_entry cb b i e n) (logs-apply_entry b i e n ∙ same)
          (omega arith) (λ _. omega arith) in
      let position : i + 1 - base_of l ≡ suc (i - base_of l) = omega arith in
      rw (gl-get_elem? l n i same lo ∙ found, step) (rw position at rest)

  -- What follows `last_applied` up to the commit index.
  abbrev pub unapplied : RaftNode S → List LogEntry
  unapplied n =
      take (n.commit_index - n.last_applied) (drop (n.last_applied + 1 - get_base_index n) n.logs)

  -- In a log numbered one by one, not compacted past the applied entries and with the commit index
  -- in it, `do_apply` does not fail: it calls back with exactly the entries after `last_applied` up
  -- to the commit index, once each, in the order of the log.
  pub do_apply_exact :
      (n : RaftNode S)
      → IsContiguous n.logs
      → get_base_index n ≤ n.last_applied + 1
      → n.commit_index ≤ last_log_index n
      → do_apply cb false n ≡ some (apply_entries false (n.last_applied + 1) (unapplied n) n)
  unfolding do_apply get_base_index last_log_index
  do_apply_exact n c lo hi =
      apply_loop-eq n.logs (n.commit_index - n.last_applied) false (n.last_applied + 1) n refl lo
        (λ more.
          apply_bound n.logs n.commit_index n.last_applied more hi (last_index-length n.logs c))

  last_applied-apply_entries :
      (i : ℕ) (es : List LogEntry) (n : RaftNode S)
      → ((s : S) (m : ApplyMessage) → (cb.invoke s m).1 ≡ nuft_ok)
      → n.last_applied + 1 ≡ i
      → (apply_entries false i es n).last_applied ≡ n.last_applied + length es
  unfolding apply_entries apply_entry
  last_applied-apply_entries i [] n ok h = omega arith
  last_applied-apply_entries i (e ∷ es) n ok h = ground (
    arith,
    ok n.server (message_of cb false i e n),
    last_applied-apply_entries (i + 1) es (apply_entry cb false i e n) ok,
  )

  length-unapplied :
      (n : RaftNode S)
      → IsContiguous n.logs
      → get_base_index n ≤ n.last_applied + 1
      → n.commit_index ≤ last_log_index n
      → length (unapplied n) ≡ n.commit_index - n.last_applied
  unfolding get_base_index last_log_index
  length-unapplied n c lo hi =
      let start = n.last_applied + 1 - base_of n.logs in
      let taken = length-take (n.commit_index - n.last_applied) (drop start n.logs) in
      let dropped = length-drop start n.logs in
      elim (dec_lt 0 (n.commit_index - n.last_applied)) [
        | yes more ↦ omega (
          arith,
          taken,
          dropped,
          apply_bound n.logs n.commit_index n.last_applied more hi (last_index-length n.logs c),
        )
        | no nothing ↦ omega (arith, taken)
      ]

  -- In a log numbered one by one, not compacted past the applied entries, with the commit index in
  -- it and not below `last_applied`, and with callbacks that all return NUFT_OK, `do_apply`
  -- succeeds and ends with `last_applied` at the commit index.
  do_apply_complete :
      (n : RaftNode S)
      → IsContiguous n.logs
      → get_base_index n ≤ n.last_applied + 1
      → n.commit_index ≤ last_log_index n
      → n.last_applied ≤ n.commit_index
      → ((s : S) (m : ApplyMessage) → (cb.invoke s m).1 ≡ nuft_ok)
      → (m : RaftNode S) × (do_apply cb false n ≡ some m) × (m.last_applied ≡ n.commit_index)
  do_apply_complete n c lo hi le ok = (
    apply_entries false (n.last_applied + 1) (unapplied n) n,
    do_apply_exact n c lo hi,
    omega (
      arith,
      last_applied-apply_entries (n.last_applied + 1) (unapplied n) n ok refl,
      length-unapplied n c lo hi,
    ),
  )
