-- ===== src/Raft/Snapshot/Compact.antt =====
-- What a snapshot leaves of the log (src/node_rpc_i.cpp).
use ctx_db.Prelude.{
  ℕ, zero, suc, ◌+◌, ◌-◌, ◌≤◌, ◌≡◌, refl, sym, ap, ◌∙◌, ◌⊎◌, inl, inr, List, [], ◌∷◌, some, Text,
  drop, get_elem?, arith, ltb, leb, Bool-cases, Option-cases, bind_some, asserting-some, subst,
  if_false,
}
use ctx_db.Raft.Types.{RaftNode, LogEntry, nuft_cmd_snapshot}
use ctx_db.Raft.Log.{
  base_of, last_index_of, get_base_index, last_log_index, sizes_agree, gl, entry_at, find_position,
}
use ctx_db.Raft.Log.Contiguous.{
  IsContiguous, NumberedFrom, NumberedFrom-drop, get_elem?-NumberedFrom,
}
use ctx_db.Raft.Frame.{dump-SameCore}
use ctx_db.Raft.Snapshot.{
  CompactResult, refused, no_value, head_at, rest_after, truncate_log, mark_snapshot,
  do_install_snapshot,
}

-- The search finds an entry with this index and term.
find_position-NumberedFrom :
    (l : List LogEntry) (i index term k : ℕ)
    → NumberedFrom i l
    → find_position l index term ≡ some k
    → index ≡ i + k
unfolding find_position
find_position-NumberedFrom [] i index term k c h = cc
find_position-NumberedFrom (e ∷ es) i index term k c h =
    elim (Option-cases (find_position es index term)) [
      | inl gone ↦ ground arith
      | inr (j, found) ↦
          let rest = find_position-NumberedFrom es (suc i) index term j c.1 found in ground arith
    ]

pub rest_after-NumberedFrom :
    (index term : ℕ) (l : List LogEntry)
    → IsContiguous l
    → NumberedFrom (suc index) (rest_after (find_position l index term) l)
unfolding find_position
rest_after-NumberedFrom index term [] c = tt
rest_after-NumberedFrom index term (e ∷ es) c =
    elim (Option-cases (find_position (e ∷ es) index term)) [
      | inl gone ↦ rw gone tt
      | inr (k, found) ↦
          let at = find_position-NumberedFrom (e ∷ es) e.index index term k (refl, c.1) found in
          rw found (
            subst (λ j. NumberedFrom j (drop (k + 1) (e ∷ es))) (omega (arith, at))
              (NumberedFrom-drop (k + 1) e.index (e ∷ es) (refl, c.1)))
    ]

-- From a log numbered one by one, a snapshot at any term and any index but -1 leaves a log that is
-- numbered one by one and starts at the index of the snapshot, whether the log had that index or
-- not.
truncate_log-IsContiguous :
    (index term : ℕ) (l : List LogEntry)
    → 1 ≤ index
    → IsContiguous l
    → IsContiguous (truncate_log index term l) × (base_of (truncate_log index term l) ≡ index)
unfolding truncate_log base_of
truncate_log-IsContiguous index term l p c = ((p, rest_after-NumberedFrom index term l c), refl)

drop-get_elem? :
    (k : ℕ) (l : List LogEntry) (e : LogEntry)
    → get_elem? l k ≡ some e
    → (es : List LogEntry) × (drop k l ≡ e ∷ es) × (last_index_of (e ∷ es) ≡ last_index_of l)
unfolding last_index_of
drop-get_elem? k [] e h = cc
drop-get_elem? zero (f ∷ fs) e h = (fs, ground arith, ground arith)
drop-get_elem? (suc k) (f ∷ []) e h = cc
drop-get_elem? (suc k) (f ∷ g ∷ gs) e h = drop-get_elem? k (g ∷ gs) e h

abbrev snapshot_entry : Text → LogEntry → LogEntry
snapshot_entry t e = record e { command = nuft_cmd_snapshot; content = t }

last_index-snapshot :
    (t : Text) (e : LogEntry) (es : List LogEntry)
    → last_index_of (snapshot_entry t e ∷ es) ≡ last_index_of (e ∷ es)
unfolding last_index_of
last_index-snapshot t e [] = refl
last_index-snapshot t e (f ∷ fs) = refl

entry_at-compact :
    (t : Text) (l : List LogEntry) (index : ℕ) (e : LogEntry)
    → IsContiguous l
    → entry_at l index ≡ some e
    → (es : List LogEntry) × (mark_snapshot t (head_at index e.term (drop (index - base_of l) l))
        ≡ snapshot_entry t e ∷ es)
      × (e.index ≡ index)
      × IsContiguous (snapshot_entry t e ∷ es)
      × (last_index_of (snapshot_entry t e ∷ es) ≡ last_index_of l)
unfolding entry_at base_of
entry_at-compact t [] index e c h = ground arith
entry_at-compact t (f ∷ fs) index e c h =
    let k = index - f.index in
    let lo : f.index ≤ index = ground arith in
    let found : get_elem? (f ∷ fs) k ≡ some e = ground arith in
    let (es, split, last) = drop-get_elem? k (f ∷ fs) e found in
    let here : e.index ≡ f.index + k =
      get_elem?-NumberedFrom f.index k (f ∷ fs) e (refl, c.1) found in
    let numbered : NumberedFrom (f.index + k) (e ∷ es) =
      subst (NumberedFrom (f.index + k)) split (NumberedFrom-drop k f.index (f ∷ fs) (refl, c.1)) in
    let at : e.index ≡ index = omega (arith, here) in
    let headed = ap (head_at index e.term) split ∙ ap (λ i. record e { index = i } ∷ es) (sym at) in
    (
      es,
      ap (mark_snapshot t) headed,
      at,
      (omega (arith, here, c.0), subst (λ i. NumberedFrom (suc i) es) (sym here) numbered.1),
      last_index-snapshot t e es ∙ last,
    )

module _ {S : Type 0} where
  -- In a log numbered one by one, a compaction that is refused changes nothing. One that is done
  -- needs that everything in the log was applied; it leaves a log that is numbered one by one and
  -- ends at the same index, whose first entry has the given index and holds the state as a
  -- snapshot.
  pub compaction_keeps_tail :
      (index : ℕ) (t : Text) (n m : RaftNode S) (done : CompactResult)
      → IsContiguous n.logs
      → do_install_snapshot index t n ≡ some (done, m)
      → ((done ≡ refused) × (m ≡ n))
        ⊎ ((done ≡ no_value)
            × (last_log_index n ≤ n.last_applied)
            × IsContiguous m.logs
            × (last_log_index m ≡ last_log_index n)
            × ((e : LogEntry) × (es : List LogEntry) × (m.logs ≡ e ∷ es)
                × (e.index ≡ index)
                × (e.command ≡ nuft_cmd_snapshot)
                × (e.content ≡ t)))
  unfolding do_install_snapshot last_log_index get_base_index gl
  compaction_keeps_tail index t n m done c run =
      let (_, h) = asserting-some (sizes_agree n) _ run in
      elim (Bool-cases (leb (last_log_index n) (get_base_index n))) [
        | inl short ↦ inl (ground arith, ground arith)
        | inr long ↦ elim (Bool-cases (ltb n.last_applied (last_log_index n))) [
          | inl early ↦ inl (ground arith, ground arith)
          | inr applied ↦
              let (e, found, h1) =
                bind_some (gl n index) _ (sym (if_false _ applied) ∙ sym (if_false _ long) ∙ h) in
              let (es, marked, at, numbered, last) = entry_at-compact t n.logs index e c found in
              let same = dump-SameCore (record n {
                logs =
                    mark_snapshot t (head_at index e.term (drop (index - base_of n.logs) n.logs));
              }) in
              let logs : m.logs ≡ snapshot_entry t e ∷ es = ground (arith, h1, same, marked) in
              inr (
                ground arith,
                ground arith,
                subst IsContiguous (sym logs) numbered,
                ap last_index_of logs ∙ last,
                (snapshot_entry t e, es, logs, at, refl, refl),
              )
        ]
      ]
